-- ===== src/Tracking/Reachable.antt =====
-- The states of the tracking that requests and hooks lead to (tracking.go).
use goto.Prelude.{
  arith, Option, none, some, List, [], if◌then◌else◌, ℤ, int_eq, Text, text_eq, codes,
}
use goto.Prelude.Dict.{Dict, get, put}
use goto.Params.Mux.{Request, get_string_param, split}
use goto.Params.Port.{port_num}
use goto.Tracking.{
  TrackingData, new_tracking_data, or_new, or_empty, RequestTracking, tracking_data, update_port,
  init_uri, init_uri_and_headers, init_headers, remove_all, clear_counts, track_call,
  track_request_of, track_hook, clear, clear_header_counts, init_request_headers, remove_headers,
  middleware_func,
}
use goto.Tracking.Counting.{AllValues, IsGood, put-AllValues, get-IsGood}
use goto.Tracking.History.{
  IsSound, init_uri-IsSound, init_uri_and_headers-IsSound, init_headers-IsSound, remove_all-IsSound,
  clear_counts-IsSound, track_call-IsSound, track_request_of-IsSound, track_hook-IsSound,
}

-- What one request, or one call of a hook, does to the tracking.
pub data Step : RequestTracking → RequestTracking → Type 0 where
  uri_added :
      {rt : RequestTracking}
      → (key : Text) → (port : ℤ) → (uri : Text) → Step rt (update_port key port (init_uri uri) rt)
  uri_and_headers_added :
      {rt : RequestTracking}
      → (key : Text) → (port : ℤ) → (uri : Text) → (headers : List Text)
      → Step rt (update_port key port (init_uri_and_headers uri headers) rt)
  headers_added :
      {rt : RequestTracking}
      → (key : Text) → (headers : Option (List Text)) → (r : Request)
      → Step rt (init_request_headers key headers r rt)
  headers_removed :
      {rt : RequestTracking}
      → (key : Text) → (headers : Option (List Text)) → (r : Request)
      → Step rt (remove_headers key headers r rt)
  cleared : {rt : RequestTracking} → (key : Text) → (r : Request) → Step rt (clear key r rt)
  counts_cleared :
      {rt : RequestTracking} → (key : Text) → (r : Request) → Step rt (clear_header_counts key r rt)
  called :
      {rt : RequestTracking}
      → (key : Text) → (port : ℤ) → (uri : Text) → (headers : Dict Text (List Text))
      → Step rt (update_port key port (track_call uri headers) rt)
  hooked :
      {rt : RequestTracking}
      → (key : Text) → (port : ℤ) → (uri : Text) → (matched : Dict Text (List Text))
      → Step rt (update_port key port (track_hook uri matched) rt)
  served :
      {rt : RequestTracking}
      → (header_get : Text → Text) → (r : Request) → Step rt (middleware_func header_get r rt)

pub data Reachable : RequestTracking → Type 0 where
  started : Reachable []
  then_step : {rt ru : RequestTracking} → Reachable rt → Step rt ru → Reachable ru

abbrev pub AllSound : RequestTracking → Type 0
AllSound = AllValues (AllValues IsSound)

or_empty-AllValues :
    (o : Option (Dict ℤ TrackingData))
    → IsGood (AllValues IsSound) o
    → AllValues IsSound (or_empty o)
or_empty-AllValues none p = tt
or_empty-AllValues (some m) p = p

or_new-IsSound : (o : Option TrackingData) → IsGood IsSound o → IsSound (or_new o)
or_new-IsSound none p = (tt, tt)
or_new-IsSound (some d) p = p

module _ (rt : RequestTracking) (sound : AllSound rt) (key : Text) where
  ports-AllValues : AllValues IsSound (or_empty (get key rt))
  ports-AllValues = or_empty-AllValues (get key rt) (get-IsGood (AllValues IsSound) key rt sound)

  tracking_data-IsSound : (port : ℤ) → IsSound (tracking_data key port rt)
  unfolding tracking_data
  tracking_data-IsSound port =
      or_new-IsSound (get port (or_empty (get key rt)))
        (get-IsGood IsSound port (or_empty (get key rt)) ports-AllValues)

  update_port-AllSound :
      (port : ℤ) (f : TrackingData → TrackingData)
      → ((d : TrackingData) → IsSound d → IsSound (f d))
      → AllSound (update_port key port f rt)
  unfolding update_port
  update_port-AllSound port f keeps =
      put-AllValues (AllValues IsSound) key
        (put port (f (tracking_data key port rt)) (or_empty (get key rt))) rt
        (put-AllValues IsSound port (f (tracking_data key port rt)) (or_empty (get key rt))
          (keeps (tracking_data key port rt) (tracking_data-IsSound port)) ports-AllValues)
        sound

clear_header_counts-AllSound :
    (key : Text) (r : Request) (rt : RequestTracking)
    → AllSound rt
    → AllSound (clear_header_counts key r rt)
unfolding clear_header_counts
clear_header_counts-AllSound key r rt sound =
    update_port-AllSound rt sound key (port_num r)
      (λ d.
        if (get_string_param r (codes "headers")).1
        then init_headers (split b',' (get_string_param r (codes "headers")).0) d
        else clear_counts d)
      (λ d s. ground (
        arith,
        init_headers-IsSound d s (split b',' (get_string_param r (codes "headers")).0),
        clear_counts-IsSound d s,
      ))

middleware_func-AllSound :
    (header_get : Text → Text) (r : Request) (rt : RequestTracking)
    → AllSound rt
    → AllSound (middleware_func header_get r rt)
unfolding middleware_func
middleware_func-AllSound header_get r rt sound = ground (
  arith,
  update_port-AllSound rt sound [] (port_num r) (track_request_of header_get r.request_uri)
      (λ d s. track_request_of-IsSound d s r.request_uri header_get),
)

step-AllSound : {rt ru : RequestTracking} → Step rt ru → AllSound rt → AllSound ru
unfolding init_request_headers remove_headers clear
step-AllSound {rt} (uri_added key port uri) s =
    update_port-AllSound rt s key port (init_uri uri) (λ d p. init_uri-IsSound d p uri)
step-AllSound {rt} (uri_and_headers_added key port uri hs) s =
    update_port-AllSound rt s key port (init_uri_and_headers uri hs)
      (λ d p. init_uri_and_headers-IsSound d p uri hs)
step-AllSound (headers_added key none r) s = s
step-AllSound {rt} (headers_added key (some hs) r) s =
    update_port-AllSound rt s key (port_num r) (init_headers hs)
      (λ d p. init_headers-IsSound d p hs)
step-AllSound (headers_removed key none r) s = s
step-AllSound {rt} (headers_removed key (some hs) r) s =
    update_port-AllSound rt s key (port_num r) (remove_all hs) (remove_all-IsSound hs)
step-AllSound {rt} (cleared key r) s =
    update_port-AllSound rt s key (port_num r) (λ d. new_tracking_data) (λ d p. (tt, tt))
step-AllSound {rt} (counts_cleared key r) s = clear_header_counts-AllSound key r rt s
step-AllSound {rt} (called key port uri headers) s =
    update_port-AllSound rt s key port (track_call uri headers)
      (λ d p. track_call-IsSound d p uri headers)
step-AllSound {rt} (hooked key port uri matched) s =
    update_port-AllSound rt s key port (track_hook uri matched)
      (λ d p. track_hook-IsSound d p uri matched)
step-AllSound {rt} (served header_get r) s = middleware_func-AllSound header_get r rt s

Reachable-AllSound : {rt : RequestTracking} → Reachable rt → AllSound rt
Reachable-AllSound started = tt
Reachable-AllSound (then_step before step) = step-AllSound step (Reachable-AllSound before)

-- In every state that requests and hooks lead to, for each key and port, no header tracked for all URIs
-- or for one of them has more values counted, all its values together, than occurrences counted.
pub counts_add_up :
    (rt : RequestTracking) (key : Text) (port : ℤ)
    → Reachable rt
    → IsSound (tracking_data key port rt)
counts_add_up rt key port reached = tracking_data-IsSound rt (Reachable-AllSound reached) key port
