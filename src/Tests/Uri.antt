-- ===== src/Tests/Uri.antt =====
-- The statuses of URIs at concrete requests.
use goto.Prelude.{◌≡◌, refl, arith, false, none, [], ◌∷◌, String, pos, codes, text_eq, to_lower}
use goto.Prelude.Dict.{get}
use goto.Params.Numbers.{parse_int, parse_unsigned, parse_digits, signed}
use goto.Params.Mux.{Request, status_request, get_string_param, get_status_param, split}
use goto.Params.Port.{port}
use goto.Filter.Patterns.{unglob}
use goto.Uri.{Uris, port_uris, set_status}
use goto.Uri.Countdown.{request, requests, uri_status_countdown}

-- /uri/set/status={status}?uri=/Foo
abbrev set_request : String → Request
set_request status = record (status_request status) {
  vars = (codes "uri", codes "/Foo*") ∷ (codes "status", codes status) ∷ [];
}

abbrev nothing_set : Uris
nothing_set = record { ports = []; track_uri_call_counts = false }

uri_status_countdown_example :
    let m =
      (port_uris
        (port (set_request "503:2"))
        (set_status (set_request "503:2") nothing_set).0).statuses in
    ((request 0 (codes "/foo") (requests 1 0 (codes "/foo") m)).1 ≡ pos 503)
    × (get (codes "/foo") (requests 2 0 (codes "/foo") m) ≡ none)
unfolding get_string_param get_status_param get text_eq split parse_int parse_unsigned parse_digits
    signed to_lower unglob
uri_status_countdown_example =
    uri_status_countdown 0 1 1 (set_request "503:2") nothing_set (codes "/Foo*") 502 refl refl
      (omega arith)
