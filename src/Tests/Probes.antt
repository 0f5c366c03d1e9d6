-- ===== src/Tests/Probes.antt =====
-- The probes at concrete requests.
use goto.Prelude.{
  ◌-◌, String, ◌≡◌, refl, some, [], ◌∷◌, pos, codes, text_eq, equal_fold, to_lower, has_prefix,
  before,
}
use goto.Prelude.Dict.{get}
use goto.Params.Mux.{Request, status_request, get_status_param, get_string_param_value, split}
use goto.Params.Numbers.{parse_int, parse_unsigned, parse_digits, signed, itoa, digits_onto}
use goto.Params.Port.{port, get_request_or_listener_port}
use goto.Probes.{
  Probe, new_probe, probe_type, port_probes, set_probe_status, middleware_func, is_readiness_probe,
  is_liveness_probe, u64,
}
use goto.Probes.Countdown.{readiness_countdown, serve_times}
use goto.Probes.Serving.{status_of}

-- /probes/{type}/set/status={status}
abbrev set_request : String → String → Request
set_request type status = record (status_request status) {
  vars = (codes "type", codes type) ∷ (codes "status", codes status) ∷ [];
}

abbrev ask : String → Request
ask uri = record (status_request "200") { vars = []; request_uri = codes uri }

readiness_countdown_example :
    status_of
      (middleware_func
        (ask "/READY")
        (serve_times 2 (ask "/READY") (set_probe_status (set_request "readiness" "503:2") []).0)).1
    ≡ some (pos 200)
unfolding probe_type get_status_param get_string_param_value get text_eq split parse_int
    parse_unsigned parse_digits signed equal_fold to_lower port get_request_or_listener_port
    port_probes is_readiness_probe is_liveness_probe has_prefix before itoa digits_onto
readiness_countdown_example =
    readiness_countdown (set_request "readiness" "503:2") (ask "/READY") [] 502 1 2 [] refl refl
      refl refl

abbrev worn : Probe
worn = record (new_probe (codes "/ready")) { count = u64 - 1 }
