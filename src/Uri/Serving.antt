-- ===== src/Uri/Serving.antt =====
-- What a request meets of its URI's status and delay (uri.go, hasURIConfig and the middleware).
use goto.Prelude.{
  ℕ, ◌+◌, Bool, true, false, ◌&&◌, ◌||◌, not, Option, none, some, List, [], ◌∷◌, if◌then◌else◌, ℤ,
  pos, leb_ℤ, is_positive, pred_ℤ, int_eq, Text, text_eq, ◌==◌, to_lower, has_prefix,
}
use goto.Prelude.Dict.{Dict, get, put, delete}
use goto.Params.Mux.{Request}
use goto.Params.Port.{port}
use goto.Status.Config.{random_from, first_positive}
use goto.Uri.{UriStatusConfig, DelayConfig, PortUris, Uris, port_uris, write}

unfoldable pub first_prefix {ℓ} : {A : Type ℓ} → Text → Dict Text A → Option A
first_prefix uri [] = none
first_prefix uri ((k, v) ∷ m) = if has_prefix uri k then some v else first_prefix uri m

abbrev by_prefix {ℓ} : {A : Type ℓ} → Option A → Option (A × Bool)
by_prefix none = none
by_prefix (some v) = some (v, true)

-- hasURIConfig: the config, and whether its URI is only a beginning of the request's.
unfoldable pub find_uri_config {ℓ} : {A : Type ℓ} → Text → Dict Text A → Option (A × Bool)
find_uri_config uri m = elim (get uri m) [
  | none ↦ by_prefix (first_prefix uri m)
  | some v ↦ some (v, false)
]

abbrev pub status_applies : UriStatusConfig → Bool → Bool
status_applies c glob = first_positive c.statuses && (leb_ℤ (pos 0) c.times && (not glob || c.glob))

-- GetURIStatus
unfoldable pub get_uri_status : Text → Dict Text UriStatusConfig → Option UriStatusConfig
get_uri_status uri m = elim (find_uri_config uri m) [
  | none ↦ none
  | some (c, glob) ↦ if status_applies c glob then some c else none
]

-- GetURIDelay
unfoldable pub get_uri_delay : Text → Dict Text DelayConfig → Option DelayConfig
get_uri_delay uri m = elim (find_uri_config uri m) [
  | none ↦ none
  | some (c, glob) ↦
      if is_positive c.delay && (leb_ℤ (pos 0) c.times && (not glob || c.glob))
      then some c
      else none
]

abbrev pick_status : ℕ → List ℤ → ℤ
pick_status seed [] = random_from seed []
pick_status seed (c ∷ []) = c
pick_status seed (c ∷ d ∷ cs) = random_from seed (c ∷ d ∷ cs)

abbrev spend_status : UriStatusConfig → Dict Text UriStatusConfig → Dict Text UriStatusConfig
spend_status c m =
    if leb_ℤ (pos 1) c.times
    then (if pred_ℤ c.times == pos 0
        then delete c.uri m
        else put c.uri (record c { times = pred_ℤ c.times }) m)
    else m

-- computeURIStatus
unfoldable pub compute_uri_status :
    ℕ → Option UriStatusConfig → Dict Text UriStatusConfig → Dict Text UriStatusConfig × ℤ
compute_uri_status seed none m = (m, pos 0)
compute_uri_status seed (some c) m =
    let status = pick_status seed c.statuses in
    (if is_positive status then spend_status c m else m, status)

abbrev spend_delay : DelayConfig → Dict Text DelayConfig → Dict Text DelayConfig
spend_delay c m =
    if leb_ℤ (pos 1) c.times
    then (if pred_ℤ c.times == pos 0
        then delete c.uri m
        else put c.uri (record c { times = pred_ℤ c.times }) m)
    else m

-- applyURIDelay
unfoldable pub apply_uri_delay :
    Option DelayConfig → Dict Text DelayConfig → Dict Text DelayConfig × ℤ
apply_uri_delay none m = (m, pos 0)
apply_uri_delay (some c) m = (if is_positive c.delay then spend_delay c m else m, c.delay)

abbrev is_none {ℓ} : {A : Type ℓ} → Option A → Bool
is_none none = true
is_none (some a) = false

abbrev count_of : Option ℕ → ℕ
count_of none = 0
count_of (some n) = n

abbrev count_call : Bool → Text → PortUris → PortUris
count_call track uri u =
    if track then record u { counts = put uri (count_of (get uri u.counts) + 1) u.counts } else u

-- What the middleware does to a request: it leaves it to the next handler, or delays it, and sets its
-- status behind the next handler.
pub data Served : Type 0 where
  skipped : Served
  served : ℤ → ℤ → Served

abbrev reported : ℤ → ℤ → ℤ
reported status irw = if is_positive status then status else if irw == pos 0 then pos 200 else irw

abbrev serve : Request → Text → ℤ → ℕ → PortUris → Uris → Uris × Served
serve r uri irw seed u s =
    let u' = count_call s.track_uri_call_counts uri u in
    let (statuses', status) = compute_uri_status seed (get_uri_status uri u.statuses) u'.statuses in
    let (delays', delay) = apply_uri_delay (get_uri_delay uri u.delays) u'.delays in
    (
      write r (record u' { statuses = statuses'; delays = delays' }) s,
      served delay (reported status irw),
    )

abbrev has_any : Dict Text PortUris → Bool
has_any [] = false
has_any (x ∷ xs) = true

-- The middleware; the next handler left the status `irw`.
unfoldable pub middleware_func : Request → Text → ℤ → ℕ → Uris → Uris × Served
middleware_func r path irw seed s =
    let u = port_uris (port r) s in
    if r.store.is_known_non_traffic || not (has_any s.ports)
    then (s, skipped)
    else if is_none (get_uri_status (to_lower path) u.statuses)
        && is_none (get_uri_delay (to_lower path) u.delays)
    then (write r u s, skipped)
    else serve r (to_lower path) irw seed u s
