-- ===== src/Tests/Delay.antt =====
-- The delays at concrete requests.
use goto.Prelude.{
  ℕ, ◌≡◌, refl, Option, some, none, [], ◌∷◌, codes, text_eq, ◌==◌, false, if◌then◌else◌, Text,
}
use goto.Prelude.Dict.{get}
use goto.Params.Mux.{Request, status_request, split, var, get_string_param_value}
use goto.Params.Numbers.{parse_int, parse_unsigned, parse_digits, signed}
use goto.Params.Port.{port, get_request_or_listener_port}
use goto.Delay.{random_duration, parse_duration_range}
use goto.Delay.Server.{Delays, set_delay, get_duration_param, middleware_func, outcome_of}
use goto.Delay.Choice.{IsChoice, random_duration-IsChoice}
use goto.Delay.Counted.{requests, delay_countdown}

random_duration-IsChoice_example : IsChoice 1000000 5000000 (random_duration 7 1000000 5000000)
random_duration-IsChoice_example = random_duration-IsChoice 7 1000000 5000000

-- time.ParseDuration at two texts.
abbrev durations : Text → Option ℕ
durations t =
    if t == codes "1s" then some 1000000000 else if t == codes "2s" then some 2000000000 else none

-- /delay/set/{delay}
abbrev delay_request : Request
delay_request = record (status_request "200") { vars = (codes "delay", codes "1s-2s:3") ∷ [] }

abbrev no_delays : Delays
no_delays = record { delay_by_port = []; delay_count_by_port = [] }

delay_countdown_example :
    (middleware_func 5 false (status_request "200") (
      requests
        (1 ∷ 2 ∷ [])
        (status_request "200")
        (set_delay durations delay_request no_delays).0)).1
    ≡ outcome_of (random_duration 5 1000000000 2000000000)
unfolding get_duration_param parse_duration_range var get text_eq split parse_int parse_unsigned
    parse_digits signed port get_request_or_listener_port get_string_param_value
delay_countdown_example =
    delay_countdown durations delay_request (status_request "200") no_delays 999999999 2000000000 3
      5 (1 ∷ 2 ∷ []) refl refl refl
