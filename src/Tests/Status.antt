-- ===== src/Tests/Status.antt =====
-- The forced statuses and the flip-flops at concrete requests.
use goto.Prelude.{
  ◌≡◌, refl, arith, true, false, none, [], ◌∷◌, ◌+◌, ℤ, pos, int_eq, String, Text, codes, text_eq,
  to_lower, contains, has_prefix, before,
}
use goto.Prelude.Dict.{Dict, get}
use goto.Params.Numbers.{parse_int, parse_unsigned, parse_digits, signed, itoa, digits_onto}
use goto.Params.Mux.{Request, status_request, get_string_param_value, get_status_param, split}
use goto.Params.Port.{port, port_num, get_request_or_listener_port}
use goto.Params.Regexp.{RegexpLib}
use goto.Status.Config.{StatusConfig, StatusMatch, status_match, to_lower_headers_values}
use goto.Status.Manager.{StatusManager, Target, get_status_for, serve_first}
use goto.Status.Manager.Payload.{StatusPayload}
use goto.Status.Manager.Serving.{requests, requests_countdown}
use goto.Status.FlipFlop.{FlipFlopConfig, new_config}
use goto.Status.FlipFlop.Cycle.{flipflop_run, flip_cycle_many}
use goto.Status.Server.{
  Server, new_port_status, status, StatusAnswer, is_forced_status, compute_response_status,
  port_status, requested_status,
}
use goto.Status.Server.Payment.{IsFirst, paid_twice}
use goto.Status.Server.Counts.{count, status-counts, flipflop_panic_locks}

abbrev uri_match : String → StatusMatch
uri_match prefix = record {
  uri_match = record { prefix = codes prefix; exact = []; regex = []; negated = false };
  header_matches = [];
  method_match = [];
}

abbrev forced : ℤ → StatusConfig
forced times = record {
  port = pos 8080;
  statuses = pos 503 ∷ [];
  times = times;
  match = uri_match "/echo";
}

abbrev manager : StatusManager
manager = (pos 8080, forced (pos 3) ∷ []) ∷ []

requests_countdown_example :
    (get_status_for
      (pos 8080)
      (codes "/Echo")
      []
      (codes "GET")
      0
      (requests 2 (pos 8080) (codes "/Echo") [] (codes "GET") 0 manager)).1
    ≡ (pos 503, pos 0)
unfolding to_lower to_lower_headers_values status_match has_prefix get
requests_countdown_example =
    requests_countdown (pos 8080) (codes "/Echo") (codes "GET") [] 0 2 3 (pos 503) [] []
      (forced (pos 3)) manager refl tt refl refl refl

abbrev no_regexp : RegexpLib
no_regexp = record { Regexp = Text; compile = λ s. none; match_string = λ p s. false }

abbrev payload : StatusPayload
payload = record { port = pos 0; statuses = pos 0 ∷ pos 404 ∷ []; times = pos 0; match = none }

abbrev tagged : Target
tagged = record {
  uri_exact = codes "/echo";
  uri_prefix = [];
  header = codes "x-tag";
  header_value = codes "dev";
  present = true;
}

-- "b" is in the middle of a list of its own.
abbrev configs : Dict Text FlipFlopConfig
configs = (codes "b", record (new_config (pos 1)) { last_status_index = 1 }) ∷ []

flip_cycle_many_example :
    let after = flipflop_run 3 (codes "a") (pos 501 ∷ pos 502 ∷ []) (pos 2) true configs in
    (after.0 ≡ pos 501 ∷ pos 502 ∷ pos 200 ∷ [])
    × (get (codes "b") after.1 ≡ get (codes "b") configs)
unfolding get text_eq
flip_cycle_many_example =
    flip_cycle_many (pos 501) (pos 502) [] (pos 2) true (codes "a") configs (codes "b") refl

abbrev echo : Request
echo = record (status_request "200") { request_uri = codes "/echo" }

abbrev server : ℤ → Server
server times = record { manager = (pos 8080, forced times ∷ []) ∷ []; port_statuses = [] }

server-IsFirst : (times : ℤ) → IsFirst echo (server times) [] (forced times) []
unfolding to_lower to_lower_headers_values status_match has_prefix get port_num
    get_request_or_listener_port get_string_param_value text_eq
server-IsFirst times = record { listed = refl; none_before = tt; matches = refl }

paid_twice_example :
    (compute_response_status (pos 200) echo 0 (is_forced_status echo 0 (server (pos 3))).0).1
    ≡ record { status = pos 503; remaining = pos 1; overridden = true }
paid_twice_example =
    paid_twice echo 0 (server (pos 3)) [] [] (forced (pos 3)) (server-IsFirst (pos 3)) 502 1
      (pos 200) refl refl

-- /status/flipflop with the id "a"
abbrev flip_request : String → Request
flip_request statuses = record (status_request "200") {
  vars = (codes "status", codes statuses) ∷ (codes "x-request-id", codes "a") ∷ [];
  request_uri = codes "/flipflop";
}

status-counts_example :
    count
      (pos 502)
      (port_status
        (codes "8080")
        (status (status_request "502") 0 (server (pos 3))).0).counts_by_requested_status
    ≡ count (pos 502) (port_status (codes "8080") (server (pos 3))).counts_by_requested_status + 1
unfolding status port_status port get_request_or_listener_port get_string_param_value
    get_status_param split parse_int parse_unsigned parse_digits signed has_prefix before get
    text_eq contains itoa digits_onto requested_status is_forced_status get_status_for port_num
    serve_first status_match to_lower
status-counts_example =
    status-counts (status_request "502") 0 (server (pos 3)) (pos 502) (pos 502) true (codes "8080")
      refl

abbrev worn_config : FlipFlopConfig
worn_config = record (new_config (pos 3)) { last_status_index = 3 }

abbrev worn_server : Server
worn_server = record {
  manager = [];
  port_statuses =
      (codes "8080", record new_port_status { flipflop_configs = (codes "a", worn_config) ∷ [] })
      ∷ [];
}

flipflop_panic_locks_example :
    ((status (flip_request "501,502") 0 worn_server).1 ≡ StatusAnswer.panicked)
    × ((port_status
          (port (flip_request "501,502"))
          (status (flip_request "501,502") 0 worn_server).0).locked
        ≡ true)
unfolding status port_status port get_request_or_listener_port get_string_param_value
    get_status_param split parse_int parse_unsigned parse_digits signed has_prefix before get
    text_eq contains itoa digits_onto
flipflop_panic_locks_example =
    flipflop_panic_locks (flip_request "501,502") 0 worn_server worn_config (pos 501) (pos 502) []
      refl refl refl refl (omega arith)

abbrev locked_server : Server
locked_server = record {
  manager = [];
  port_statuses = (codes "8080", record new_port_status { locked = true }) ∷ [];
}
