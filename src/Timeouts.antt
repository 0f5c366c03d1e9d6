-- ===== src/Timeouts.antt =====
-- pkg/server/request/timeout/timeout.go: how many requests with a header's value were completed, and how
-- many closed. The middleware is two steps: a request arrives, and its goroutine counts its end; others
-- may come in between. http.Header.Get is an argument. none is a panic, which in a goroutine ends the
-- program.
pub mod InFlight
pub mod Ended
use goto.Prelude.{
  ℕ, ◌+◌, Bool, true, false, Option, none, some, List, [], ◌∷◌, if◌then◌else◌, Text, codes, text_eq,
  ◌>>=◌,
}
use goto.Prelude.Dict.{Dict, get, put}
use goto.Params.Mux.{Request, get_string_param, split}
use goto.Params.Port.{port}

pub record TimeoutData : Type 0 where
  pub connection_closed : ℕ
  pub request_completed : ℕ

abbrev pub new_timeout_data : TimeoutData
new_timeout_data = record { connection_closed = 0; request_completed = 0 }

abbrev pub HeadersMap : Type 0
HeadersMap = Dict Text (Dict Text TimeoutData)

pub record TimeoutTracking : Type 0 where
  pub headers_map : HeadersMap
  pub all_timeouts : Option TimeoutData

abbrev pub new_timeout_tracking : TimeoutTracking
new_timeout_tracking = record { headers_map = []; all_timeouts = none }

unfoldable pub track_from_now : List Text → HeadersMap → HeadersMap
track_from_now [] m = m
track_from_now (h ∷ hs) m = track_from_now hs (put h [] m)

-- addHeaders, and whether the request is a good one.
unfoldable pub add_headers : Request → TimeoutTracking → TimeoutTracking × Bool
add_headers r tt =
    let (param, present) = get_string_param r (codes "headers") in
    if present
    then (record tt { headers_map = track_from_now (split b',' param) tt.headers_map }, true)
    else (tt, false)

unfoldable pub track_all : TimeoutTracking → TimeoutTracking
track_all tt = record tt { all_timeouts = some new_timeout_data }

-- A header and its value.
abbrev pub Tracked : Type 0
Tracked = List (Text × Text)

abbrev pub or_no_values : Option (Dict Text TimeoutData) → Dict Text TimeoutData
or_no_values none = []
or_no_values (some m) = m

abbrev with_value : Text → Dict Text TimeoutData → Dict Text TimeoutData
with_value v m = elim (get v m) [ none ↦ put v new_timeout_data m | some d ↦ m ]

abbrev pub see_value : Text → Text → HeadersMap → HeadersMap
see_value h v m = put h (with_value v (or_no_values (get h m))) m

-- The loop over the tracked headers: the headers and values of the request, which get an entry each.
unfoldable pub see_headers : (Text → Text) → HeadersMap → HeadersMap → HeadersMap × Tracked
see_headers header_get [] m = (m, [])
see_headers header_get ((h, values) ∷ rest) m = elim (header_get h) [
  | [] ↦ see_headers header_get rest m
  | c ∷ v ↦
      let (m', tracked) = see_headers header_get rest (see_value h (c ∷ v) m) in
      (m', (h, c ∷ v) ∷ tracked)
]

-- A request of traffic arrives.
unfoldable pub arrive : (Text → Text) → TimeoutTracking → TimeoutTracking × Tracked
arrive header_get tt =
    let (m, tracked) = see_headers header_get tt.headers_map tt.headers_map in
    (record tt { headers_map = m }, tracked)

abbrev is_followed : Tracked → Option TimeoutData → Bool
is_followed [] none = false
is_followed _ _ = true

-- What the middleware does before the next handler, and for a request whose end is counted what it tracks.
unfoldable pub middleware_func :
    (Text → Text) → Request → TimeoutTracking → TimeoutTracking × Option Tracked
middleware_func header_get r tt =
    if r.store.is_known_non_traffic
    then (tt, none)
    else (let (tt', tracked) = arrive header_get tt in
        (tt', if is_followed tracked tt'.all_timeouts then some tracked else none))

abbrev pub counted : Bool → TimeoutData → TimeoutData
counted closed d =
    if closed
    then record d { connection_closed = d.connection_closed + 1 }
    else record d { request_completed = d.request_completed + 1 }

abbrev pub count_in :
    Bool
    → Text
    → Text
    → Option (Dict Text TimeoutData)
    → Option TimeoutData
    → HeadersMap
    → Option HeadersMap
count_in closed h v none o m = none
count_in closed h v (some values) none m = none
count_in closed h v (some values) (some d) m = some (put h (put v (counted closed d) values) m)

abbrev pub count_value : Bool → Text → Text → HeadersMap → Option HeadersMap
count_value closed h v m = count_in closed h v (get h m) (get v (or_no_values (get h m))) m

unfoldable pub count_values : Bool → Tracked → HeadersMap → Option HeadersMap
count_values closed [] m = some m
count_values closed ((h, v) ∷ tracked) m = count_value closed h v m >>= count_values closed tracked

abbrev pub count_all : Bool → Option TimeoutData → Option TimeoutData
count_all closed none = none
count_all closed (some d) = some (counted closed d)

-- The request's end: its connection was closed, or it was completed.
unfoldable pub end_request : Bool → Tracked → TimeoutTracking → Option TimeoutTracking
end_request closed tracked tt =
    count_values closed tracked tt.headers_map
    >>= (λ m. some record { headers_map = m; all_timeouts = count_all closed tt.all_timeouts })

abbrev pub TimeoutTrackings : Type 0
TimeoutTrackings = Dict Text TimeoutTracking

abbrev or_new_tracking : Option TimeoutTracking → TimeoutTracking
or_new_tracking none = new_timeout_tracking
or_new_tracking (some tt) = tt

-- getTimeoutTracking: a port without one gets an entry.
unfoldable pub get_timeout_tracking :
    Request → TimeoutTrackings → TimeoutTrackings × TimeoutTracking
get_timeout_tracking r m = let tt = or_new_tracking (get (port r) m) in (put (port r) tt m, tt)

-- clearTimeoutTracking; a request that has arrived goes on with what was there.
unfoldable pub clear_timeout_tracking : Request → TimeoutTrackings → TimeoutTrackings
clear_timeout_tracking r m = elim (get (port r) m) [
  | none ↦ m
  | some tt ↦ put (port r) new_timeout_tracking m
]
