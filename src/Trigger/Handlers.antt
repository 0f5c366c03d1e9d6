-- ===== src/Trigger/Handlers.antt =====
-- The handlers that change a port's triggers (trigger.go, from addTrigger on, but deleteTrigger and the
-- invocations).
use goto.Prelude.{
  Bool, true, false, Option, none, some, List, [], ◌∷◌, ◌++◌, if◌then◌else◌, ℤ, int_eq, Text, codes,
  text_eq, contains, Eq, ◌>>=◌,
}
use goto.Prelude.Dict.{Dict, get, put}
use goto.Params.Mux.{Request, get_string_param}
use goto.Params.Port.{port}
use goto.Trigger.{TriggerHttpTarget, TriggerTarget, Trigger, new_trigger, or_nothing}
use goto.Trigger.Deleting.{delete_trigger}

-- m[k] = append(m[k], name)
unfoldable pub append_name :
    {K : Type 0} → ⦃e : Eq K⦄ → K → Text → Dict K (List Text) → Dict K (List Text)
append_name k name m = put k (or_nothing (get k m) ++ (name ∷ [])) m

module _ (uri_regexp : Text → Option (Text × (Text → Bool))) (name : Text) where
  unfoldable pub add_uris :
      List Text
      → Dict Text (List Text) × Dict Text (Text → Bool)
      → Dict Text (List Text) × Dict Text (Text → Bool)
  add_uris [] s = s
  add_uris (uri ∷ uris) (m, regexps) = elim (uri_regexp uri) [
    | none ↦ add_uris uris (m, regexps)
    | some (final_uri, re) ↦ add_uris uris (append_name final_uri name m, put final_uri re regexps)
  ]

unfoldable pub add_headers :
    Text → Dict Text Text → Dict Text (Dict Text (List Text)) → Dict Text (Dict Text (List Text))
add_headers name [] m = m
add_headers name ((h, hv) ∷ hvs) m =
    add_headers name hvs (put h (append_name hv name (or_nothing (get h m))) m)

unfoldable pub add_statuses : Text → List ℤ → Dict ℤ (List Text) → Dict ℤ (List Text)
add_statuses name [] m = m
add_statuses name (status ∷ statuses) m = add_statuses name statuses (append_name status name m)

-- The target under its name, and its name in the lists by what triggers it: its URIs, or else its headers,
-- or else its statuses.
unfoldable pub put_trigger :
    (Text → Option (Text × (Text → Bool))) → TriggerTarget → Trigger → Trigger
put_trigger uri_regexp tt t = index tt.trigger_uris tt.trigger_headers
  where
    index : List Text → Dict Text Text → Trigger
    index (uri ∷ uris) _ =
        let (by_uris, regexps) =
          add_uris uri_regexp tt.name tt.trigger_uris (t.targets_by_uris, []) in
        record t {
          targets = put tt.name (record tt { trigger_uri_regexps = regexps }) t.targets;
          targets_by_uris = by_uris;
        }
    index [] (entry ∷ entries) = record t {
      targets = put tt.name tt t.targets;
      targets_by_headers = add_headers tt.name tt.trigger_headers t.targets_by_headers;
    }
    index [] [] = record t {
      targets = put tt.name tt t.targets;
      targets_by_status = add_statuses tt.name tt.trigger_statuses t.targets_by_status;
    }

pub data Answer : Type 0 where
  done : Answer
  bad_request : Answer
  not_found : Answer

abbrev is_valid : (TriggerHttpTarget → Bool) → Option TriggerHttpTarget → Bool
is_valid validate none = true
is_valid validate (some target) = validate target

-- addTrigger, with the request's payload, or none if it is not readable.
unfoldable pub add_trigger :
    (Text → Option (Text × (Text → Bool)))
    → (TriggerHttpTarget → Bool)
    → Option TriggerTarget
    → Trigger
    → Option (Trigger × Answer)
add_trigger uri_regexp validate none t = some (t, bad_request)
add_trigger uri_regexp validate (some tt) t = elim (is_valid validate tt.http_target) [
  | true ↦ delete_trigger tt.name t >>= (λ t. some (put_trigger uri_regexp tt t, done))
  | false ↦ some (t, bad_request)
]

unfoldable pub get_requested_trigger : Request → Trigger → Option TriggerTarget
get_requested_trigger r t =
    let (name, present) = get_string_param r (codes "trigger") in
    if present then get name t.targets else none

unfoldable pub remove_trigger : Request → Trigger → Option (Trigger × Answer)
remove_trigger r t = elim (get_requested_trigger r t) [
  | none ↦ some (t, bad_request)
  | some tt ↦ delete_trigger tt.name t >>= (λ t. some (t, done))
]

-- The target is the one in the map, which it is in under its name.
unfoldable pub enable_or_disable_trigger : Request → Trigger → Trigger × Answer
enable_or_disable_trigger r t = elim (get_requested_trigger r t) [
  | none ↦ (t, bad_request)
  | some tt ↦ (
    record t {
      targets =
          put tt.name (record tt { enabled = contains r.request_uri (codes "enable") }) t.targets;
    },
    done,
  )
]

abbrev or_new_trigger : Option Trigger → Trigger
or_new_trigger none = new_trigger
or_new_trigger (some t) = t

abbrev pub Triggers : Type 0
Triggers = Dict Text Trigger

-- getPortTrigger: a port without triggers gets an entry for none.
unfoldable pub port_trigger : Text → Triggers → Trigger
port_trigger p ts = or_new_trigger (get p ts)

unfoldable pub clear_triggers : Request → Triggers → Triggers
clear_triggers r ts = put (port r) new_trigger ts
