-- ===== src/Tests/ResponseHeader.antt =====
-- The headers of responses at concrete requests.
use goto.Prelude.{
  ◌≡◌, refl, false, ◌&&◌, not, [], ◌∷◌, ◌++◌, if◌then◌else◌, List, Text, codes, text_eq, has_prefix,
}
use goto.Params.Mux.{Request, status_request}
use goto.Params.Port.{port}
use goto.ResponseHeader.{
  ResponseHeaders, Origin, values_of, to_add, middleware_func, request_prefix,
}
use goto.ResponseHeader.Adding.{Call, adds, removes, run_calls, values_added, run_calls-values}
use goto.ResponseHeader.Sending.{values_named, middleware_func-values}

abbrev no_headers : ResponseHeaders
no_headers = record { to_add_by_port = []; to_remove_by_port = []; excluded_headers = [] }

-- /headers/add/{header}={value}
abbrev header_request : Text → Request
header_request v = record (status_request "200") {
  vars = (codes "header", codes "X-A") ∷ (codes "value", v) ∷ [];
}

abbrev header_calls : List Call
header_calls =
    adds (header_request (codes "a"))
    ∷ removes (header_request [])
    ∷ adds (header_request (codes "b"))
    ∷ []

run_calls-values_example :
    values_of (codes "X-A") (to_add (port (header_request [])) (run_calls header_calls no_headers))
    ≡ values_added
        (port (header_request []))
        (codes "X-A")
        header_calls
        (values_of (codes "X-A") (to_add (port (header_request [])) no_headers))
run_calls-values_example =
    run_calls-values (port (header_request [])) (codes "X-A") header_calls no_headers

abbrev local_origin : Origin
local_origin = record {
  host = codes "h";
  request_payload_size = 0;
  is_tls = false;
  server_name = [];
  tls_version = [];
}

-- A name that is canonical as it is.
abbrev as_it_is : Text → Text
as_it_is h = h

is_plain : has_prefix (codes "X-A") request_prefix ≡ false
unfolding has_prefix
is_plain = refl

middleware_func-values_example :
    values_of (codes "X-A") (
      middleware_func as_it_is false false false
        (header_request [])
        local_origin
        (run_calls header_calls no_headers)
        [])
    ≡ values_of (codes "X-A") []
      ++ (if not false && not false && not false && not false
          then values_named as_it_is
              (codes "X-A")
              (to_add (port (header_request [])) (run_calls header_calls no_headers))
          else [])
middleware_func-values_example =
    middleware_func-values as_it_is false false false (header_request []) local_origin
      (run_calls header_calls no_headers) [] (codes "X-A") is_plain
