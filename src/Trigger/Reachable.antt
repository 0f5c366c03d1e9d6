-- ===== src/Trigger/Reachable.antt =====
-- The triggers that requests and responses at a port lead to (trigger.go).
use goto.Prelude.{
  ◌≡◌, refl, arith, Bool, Option, none, some, List, [], ◌∷◌, ℤ, int_eq, Text, text_eq, Option-cases,
  inl, inr, to_lower, contains, codes,
}
use goto.Prelude.Dict.{Dict, get, delete, get-delete}
use goto.Params.Mux.{Request}
use goto.Trigger.{TriggerTarget, TriggerHttpTarget, Trigger, new_trigger}
use goto.Trigger.Deleting.{delete_trigger}
use goto.Trigger.Handlers.{
  Answer, put_trigger, add_trigger, remove_trigger, enable_or_disable_trigger,
  get_requested_trigger, add_uris,
}
use goto.Trigger.Matching.{
  matching, counted, Found, count_match, count_matches, find_matching_triggers, has_http_target,
}
use goto.Trigger.Invoking.{
  Response, count_triggers, count_trigger, invoke_http_targets, invoke_pipe_sources,
  invoke_triggers, get_requested_triggers, invoke_found, select,
}
use goto.Trigger.Named.{IsNamed, put-IsNamed, get-IsNamed, matching-IsNamed}

delete-IsNamed : (k : Text) (m : Dict Text TriggerTarget) → IsNamed m → IsNamed (delete k m)
unfolding delete
delete-IsNamed k [] named = tt
delete-IsNamed k ((j, x) ∷ m) named = ground (arith, delete-IsNamed k m named.2, get-delete k j m)

count_trigger-IsNamed :
    (name : Text) (o : Option TriggerTarget) (m : Dict Text TriggerTarget)
    → get name m ≡ o
    → IsNamed m
    → IsNamed (count_trigger o name m)
count_trigger-IsNamed name none m e named = named
count_trigger-IsNamed name (some x) m e named =
    put-IsNamed name _ m (get-IsNamed name x m named e) named

count_triggers-IsNamed :
    (invoked m : Dict Text TriggerTarget) → IsNamed m → IsNamed (count_triggers invoked m)
unfolding count_triggers
count_triggers-IsNamed [] m named = named
count_triggers-IsNamed ((name, x) ∷ invoked) m named =
    count_triggers-IsNamed invoked (count_trigger (get name m) name m)
      (count_trigger-IsNamed name (get name m) m refl named)

count_matches-IsNamed :
    (m : Dict Text TriggerTarget) (f : Found)
    → IsNamed m
    → IsNamed f.targets
    → IsNamed (count_matches m f).targets
unfolding count_matches count_match
count_matches-IsNamed [] f named h = h
count_matches-IsNamed ((k, x) ∷ m) f named h =
    count_matches-IsNamed m (count_match k (counted x) f) named.2
      (put-IsNamed k (counted x) f.targets named.0 h)

delete_trigger-IsNamed :
    (name : Text) (t t' : Trigger)
    → IsNamed t.targets
    → delete_trigger name t ≡ some t'
    → IsNamed t'.targets
unfolding delete_trigger
delete_trigger-IsNamed name t t' named e = ground (arith, delete-IsNamed name t.targets named)

put_trigger-IsNamed :
    (uri_regexp : Text → Option (Text × (Text → Bool))) (x : TriggerTarget) (t : Trigger)
    → IsNamed t.targets
    → IsNamed (put_trigger uri_regexp x t).targets
unfolding put_trigger
put_trigger-IsNamed uri_regexp x t named = ground (
  arith,
  put-IsNamed x.name x t.targets refl named,
  put-IsNamed x.name
      (record x {
        trigger_uri_regexps = (add_uris uri_regexp x.name x.trigger_uris (t.targets_by_uris, [])).1;
      })
      t.targets refl named,
)

-- An operation that does not panic ends in a trigger.
abbrev pub EndsIn : Option (Trigger × Answer) → Trigger → Type 0
EndsIn o t = (a : Answer) × (o ≡ some (t, a))

pub data Step : Trigger → Trigger → Type 0 where
  added :
      {t t' : Trigger}
      → (uri_regexp : Text → Option (Text × (Text → Bool))) → (validate : TriggerHttpTarget → Bool)
      → (payload : Option TriggerTarget) → EndsIn (add_trigger uri_regexp validate payload t) t'
      → Step t t'
  removed : {t t' : Trigger} → (r : Request) → EndsIn (remove_trigger r t) t' → Step t t'
  switched : {t : Trigger} → (r : Request) → Step t (enable_or_disable_trigger r t).0
  invoked :
      {t : Trigger}
      → (invoke : TriggerTarget → List Response) → (r : Request)
      → Step t (invoke_triggers invoke r t).0
  matched :
      {t : Trigger}
      → (header_get : Text → Text) → (r : Request) → (status : ℤ)
      → Step t (record t { targets = (find_matching_triggers header_get r status t).targets })
  sent :
      {t : Trigger}
      → (invoke : TriggerTarget → List Response) → (found : Dict Text TriggerTarget)
      → Step t (invoke_http_targets invoke found t).0
  piped :
      {t : Trigger}
      → (found : Dict Text TriggerTarget) → (r : Request) → (status : ℤ)
      → Step t (invoke_pipe_sources found r status t).0

pub data Reachable : Trigger → Type 0 where
  started : Reachable new_trigger
  then_step : {t t' : Trigger} → Reachable t → Step t t' → Reachable t'

add_trigger-IsNamed :
    (uri_regexp : Text → Option (Text × (Text → Bool))) (validate : TriggerHttpTarget → Bool)
    (payload : Option TriggerTarget) (t t' : Trigger)
    → IsNamed t.targets
    → EndsIn (add_trigger uri_regexp validate payload t) t'
    → IsNamed t'.targets
unfolding add_trigger
add_trigger-IsNamed uri_regexp validate none t t' named (a, e) = ground (arith, named, e)
add_trigger-IsNamed uri_regexp validate (some x) t t' named (a, e) =
    elim (Option-cases (delete_trigger x.name t)) [
      | inl d ↦ ground (arith, named, e, d)
      | inr (u, d) ↦ ground (
        arith,
        named,
        e,
        d,
        put_trigger-IsNamed uri_regexp x u (delete_trigger-IsNamed x.name t u named d),
      )
    ]

remove_trigger-IsNamed :
    (r : Request) (t t' : Trigger)
    → IsNamed t.targets
    → EndsIn (remove_trigger r t) t'
    → IsNamed t'.targets
unfolding remove_trigger
remove_trigger-IsNamed r t t' named (a, e) = elim (Option-cases (get_requested_trigger r t)) [
  | inl n ↦ ground (arith, named, e, n)
  | inr (x, n) ↦ elim (Option-cases (delete_trigger x.name t)) [
    | inl d ↦ ground (arith, named, e, d, n)
    | inr (u, d) ↦ ground (arith, e, d, n, delete_trigger-IsNamed x.name t u named d)
  ]
]

switched-IsNamed :
    (r : Request) (t : Trigger)
    → IsNamed t.targets
    → IsNamed (enable_or_disable_trigger r t).0.targets
unfolding enable_or_disable_trigger
switched-IsNamed r t named = elim (Option-cases (get_requested_trigger r t)) [
  | inl n ↦ ground (arith, named, n)
  | inr (x, n) ↦ ground (
    arith,
    n,
    put-IsNamed x.name (record x { enabled = contains r.request_uri (codes "enable") }) t.targets
        refl named,
  )
]

invoked-IsNamed :
    (invoke : TriggerTarget → List Response) (found : Dict Text TriggerTarget) (r : Request)
    (t : Trigger)
    → IsNamed t.targets
    → IsNamed (invoke_found invoke found r t).0.targets
unfolding invoke_http_targets invoke_pipe_sources
invoked-IsNamed invoke [] r t named = named
invoked-IsNamed invoke (entry ∷ found) r t named =
    count_triggers-IsNamed (select (λ x. x.pipe) (entry ∷ found))
      (count_triggers (select has_http_target (entry ∷ found)) t.targets)
      (count_triggers-IsNamed (select has_http_target (entry ∷ found)) t.targets named)

pub found-IsNamed :
    (header_get : Text → Text) (r : Request) (status : ℤ) (t : Trigger)
    → IsNamed t.targets
    → IsNamed (find_matching_triggers header_get r status t).targets
unfolding find_matching_triggers
found-IsNamed header_get r status t named =
    count_matches-IsNamed (matching header_get (to_lower r.request_uri) status t)
      record { targets = t.targets; http_targets = []; pipe_sources = [] }
      (matching-IsNamed header_get (to_lower r.request_uri) status t named) named

step-IsNamed : {t t' : Trigger} → Step t t' → IsNamed t.targets → IsNamed t'.targets
unfolding invoke_triggers find_matching_triggers invoke_http_targets invoke_pipe_sources
step-IsNamed {t} {t'} (added uri_regexp validate payload end) named =
    add_trigger-IsNamed uri_regexp validate payload t t' named end
step-IsNamed {t} {t'} (removed r end) named = remove_trigger-IsNamed r t t' named end
step-IsNamed {t} (switched r) named = switched-IsNamed r t named
step-IsNamed {t} (invoked invoke r) named =
    invoked-IsNamed invoke (get_requested_triggers r t) r t named
step-IsNamed {t} (matched header_get r status) named = found-IsNamed header_get r status t named
step-IsNamed {t} (sent invoke found) named = count_triggers-IsNamed found t.targets named
step-IsNamed {t} (piped found r status) named = count_triggers-IsNamed found t.targets named

-- In every state that the operations on a port's triggers lead to without a panic, each target is under
-- its own name, and no other target is.
pub targets-IsNamed : (t : Trigger) → Reachable t → IsNamed t.targets
targets-IsNamed t started = tt
targets-IsNamed t (then_step before step) = step-IsNamed step (targets-IsNamed _ before)
