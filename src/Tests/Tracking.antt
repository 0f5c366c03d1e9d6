-- ===== src/Tests/Tracking.antt =====
-- The tracking of headers at concrete requests.
use goto.Prelude.{
  has_prefix, refl, some, [], ◌∷◌, codes, text_eq, int_eq, ◌==◌, if◌then◌else◌, Text,
}
use goto.Prelude.Dict.{get, put}
use goto.Params.Mux.{Request, status_request, get_string_param, get_string_param_value}
use goto.Params.Port.{port_num, get_request_or_listener_port}
use goto.Tracking.{
  RequestTracking, new_header_data, tracking_data, init_request_headers, middleware_func,
  init_headers, add_headers, update_port,
}
use goto.Tracking.Clearing.{header_at}
use goto.Tracking.Served.{serve_all, IsTracked, served_counts}
use goto.Tracking.History.{IsSound}
use goto.Tracking.Reachable.{started, then_step, headers_added, served, counts_add_up}

abbrev ask : Request
ask = record (status_request "200") { vars = [] }

abbrev tracked : RequestTracking
tracked = init_request_headers [] (some (codes "x" ∷ [])) ask []

-- http.Header.Get for a request with the header x: a.
abbrev only_x : Text → Text
only_x h = if h == codes "x" then codes "a" else []

counts_add_up_example :
    IsSound (tracking_data [] (port_num ask) (middleware_func only_x ask tracked))
counts_add_up_example = counts_add_up (middleware_func only_x ask tracked) [] (port_num ask) (
    then_step (then_step started (headers_added [] (some (codes "x" ∷ [])) ask))
      (served only_x ask))

served_counts_example : IsTracked (codes "a") 2 2 (
    header_at
      (codes "x")
      []
      (port_num ask)
      (serve_all ((only_x, ask) ∷ (only_x, ask) ∷ []) tracked))
unfolding port_num get_request_or_listener_port has_prefix get_string_param_value get text_eq
    tracking_data init_request_headers update_port init_headers add_headers put get_string_param
served_counts_example =
    served_counts ((only_x, ask) ∷ (only_x, ask) ∷ []) (codes "x") b'a' [] (port_num ask) 0 0
      tracked (new_header_data, refl, refl, refl)
