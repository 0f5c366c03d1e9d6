-- ===== src/Delay/Server.antt =====
-- The delay of each port's responses (pkg/server/response/delay/delay.go). A request's read and write of
-- its port's delay are one step, and so is its sleep.
use goto.Prelude.{
  ℕ, Bool, false, ◌&&◌, not, Option, none, some, [], ◌∷◌, ltb, if◌then◌else◌, ℤ, pos, negsuc,
  is_positive, leb_ℤ, int_eq, pred_ℤ, Text, codes, text_eq, ◌==◌,
}
use goto.Prelude.Dict.{Dict, get, put, delete}
use goto.Params.Mux.{Request, var}
use goto.Params.Port.{port}
use goto.Delay.{DurationRange, parse_duration_range, random_duration}

-- delayByPort, none for a nil slice, and delayCountByPort.
pub record Delays : Type 0 where
  pub delay_by_port : Dict Text (Option (ℕ × ℕ))
  pub delay_count_by_port : Dict Text ℤ

pub data Answer : Type 0 where
  done : Answer
  bad_request : Answer
  slept : ℕ → Answer
  panicked : Answer

abbrev no_range : DurationRange
no_range = record { low = 0; high = 0; count = pos 0; ok = false }

abbrev range_param : (Text → Option ℕ) → Text → DurationRange
range_param parse_duration [] = no_range
range_param parse_duration (c ∷ s) = parse_duration_range parse_duration (c ∷ s)

-- GetDurationParam
unfoldable pub get_duration_param : (Text → Option ℕ) → Request → Text → DurationRange
get_duration_param parse_duration r name = range_param parse_duration (var r name)

abbrev cleared : Text → Delays → Delays
cleared p s = record {
  delay_by_port = put p none s.delay_by_port;
  delay_count_by_port = put p (negsuc 0) s.delay_count_by_port;
}

unfoldable pub set_delay : (Text → Option ℕ) → Request → Delays → Delays × Answer
set_delay parse_duration r s =
    let d = get_duration_param parse_duration r (codes "delay") in
    let s' = cleared (port r) s in
    if d.ok
    then (
      (if ltb 0 d.low
          then record {
            delay_by_port = put (port r) (some (d.low, d.high)) s'.delay_by_port;
            delay_count_by_port = put (port r) d.count s'.delay_count_by_port;
          }
          else record {
            delay_by_port = delete (port r) s'.delay_by_port;
            delay_count_by_port = delete (port r) s'.delay_count_by_port;
          }),
      done,
    )
    else (s', bad_request)

abbrev slept_for : Option ℕ → Answer
slept_for none = panicked
slept_for (some d) = slept d

-- The handler `delay`, which sleeps for the time that the request names.
unfoldable pub delay : (Text → Option ℕ) → ℕ → Request → Answer
delay parse_duration seed r =
    let d = get_duration_param parse_duration r (codes "delay") in
    if ltb 0 d.low
    then slept_for (random_duration seed d.low d.high)
    else if d.ok
    then done
    else bad_request

abbrev pub range_at : Text → Delays → Option (ℕ × ℕ)
range_at p s = elim (get p s.delay_by_port) [ none ↦ none | some d ↦ d ]

abbrev pub count_at : Text → Delays → ℤ
count_at p s = elim (get p s.delay_count_by_port) [ none ↦ pos 0 | some c ↦ c ]

-- The count after a request that is delayed.
abbrev spent : Text → ℤ → Delays → Delays
spent p count s =
    if is_positive count
    then (if count == pos 1
        then record {
          delay_by_port = delete p s.delay_by_port;
          delay_count_by_port = delete p s.delay_count_by_port;
        }
        else record s { delay_count_by_port = put p (pred_ℤ count) s.delay_count_by_port })
    else s

-- What the middleware does before the next handler: nothing, or a sleep.
pub data Outcome : Type 0 where
  passed : Outcome
  delayed : ℕ → Outcome
  broken : Outcome

abbrev pub outcome_of : Option ℕ → Outcome
outcome_of none = broken
outcome_of (some d) = delayed d

abbrev apply_range : ℕ → Text → Bool → Option (ℕ × ℕ) → ℤ → Delays → Delays × Outcome
apply_range seed p is_delay_request none count s = (s, passed)
apply_range seed p is_delay_request (some (low, high)) count s =
    if ltb 0 low && (leb_ℤ (pos 0) count && not is_delay_request)
    then (spent p count s, outcome_of (random_duration seed low high))
    else (s, passed)

unfoldable pub middleware_func : ℕ → Bool → Request → Delays → Delays × Outcome
middleware_func seed is_delay_request r s =
    if r.store.is_known_non_traffic
    then (s, passed)
    else apply_range seed (port r) is_delay_request (range_at (port r) s) (count_at (port r) s) s
