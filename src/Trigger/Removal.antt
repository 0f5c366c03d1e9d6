-- ===== src/Trigger/Removal.antt =====
-- What the removal of a trigger leaves (trigger.go, deleteTrigger, addTrigger).
use goto.Prelude.{
  ℕ, zero, suc, ◌≤◌, ◌≡◌, refl, ap, arith, Bool, false, Option, none, some, List, [], ◌∷◌, take,
  length, ℤ, Text, text_eq, int_eq, ◌==◌, eq_refl, All,
}
use goto.Prelude.Dict.{Dict, get, put, delete, values}
use goto.Trigger.{TriggerTarget, Trigger, new_trigger}
use goto.Trigger.Deleting.{
  delete_from, delete_name, delete_loop, delete_from_headers, delete_from_values, delete_trigger,
  keep_slice,
}
use goto.Trigger.Handlers.{put_trigger, add_headers, add_statuses, append_name}
use goto.Trigger.Slices.{occurrences, without, delete_name-IsSlice}

abbrev pub IsOnce : {K : Type 0} → Text → Dict K (List Text) → Type 0
IsOnce name m = All (λ names. occurrences name names ≤ 1) (values m)

abbrev pub unless_empty : {K : Type 0} → K → List Text → Dict K (List Text) → Dict K (List Text)
unless_empty k [] m = m
unless_empty k (n ∷ names) m = (k, n ∷ names) ∷ m

-- The lists without the name, and without those that are empty then.
abbrev pub pruned : {K : Type 0} → Text → Dict K (List Text) → Dict K (List Text)
pruned name [] = []
pruned name ((k, names) ∷ m) = unless_empty k (without name names) (pruned name m)

keep_slice-IsSlice :
    {K : Type 0}
    → (k : K) (names kept : List Text) (live : ℕ) (m : Dict K (List Text)) → take live kept ≡ names
    → live ≡ length names
    → keep_slice k (kept, live) m ≡ unless_empty k names m
keep_slice-IsSlice k [] kept zero m e l = refl
keep_slice-IsSlice k [] kept (suc live) m e l = absurd (omega (arith, l))
keep_slice-IsSlice k (n ∷ names) kept zero m e l = absurd (omega (arith, l))
keep_slice-IsSlice k (n ∷ names) kept (suc live) m e l = ap (λ ns. (k, ns) ∷ m) e

pub delete_from-pruned :
    {K : Type 0}
    → (name : Text) (m : Dict K (List Text)) → IsOnce name m
    → delete_from name m ≡ some (pruned name m)
unfolding delete_from
delete_from-pruned name [] once = refl
delete_from-pruned name ((k, names) ∷ m) once =
    let (kept, live, e, t, l) = delete_name-IsSlice name names once.0 in
    rw e (
      rw (delete_from-pruned name m once.1) (
        ap (λ ps. some ps)
          (keep_slice-IsSlice k (without name names) kept live (pruned name m) t l)))

-- Where no list by URI or status has the name of a trigger twice and none is by header: the removal of the
-- trigger does not panic, its name is under no target and in no list, the other names are in the lists
-- they were in, in their order, and no list is empty.
pub delete_trigger_removes :
    (name : Text) (t : Trigger)
    → IsOnce name t.targets_by_uris
    → IsOnce name t.targets_by_status
    → t.targets_by_headers ≡ []
    → delete_trigger name t
      ≡ some (record t {
        targets = delete name t.targets;
        targets_by_uris = pruned name t.targets_by_uris;
        targets_by_headers = [];
        targets_by_status = pruned name t.targets_by_status;
      })
unfolding delete_trigger delete_from_headers
delete_trigger_removes name t uris statuses headers =
    rw (delete_from-pruned name t.targets_by_uris uris)
      (rw headers (rw (delete_from-pruned name t.targets_by_status statuses) refl))

delete_name-pair :
    (a b : Text) → (b == a) ≡ false → delete_name a (a ∷ b ∷ []) ≡ some (b ∷ b ∷ [], 1)
unfolding delete_name delete_loop
delete_name-pair a b ne = ground (arith, eq_refl a, ne)

delete_name-twice : (b : Text) → delete_name b (b ∷ b ∷ []) ≡ none
unfolding delete_name delete_loop
delete_name-twice b = ground (arith, eq_refl b)

-- Triggers with one list, of a header's value.
abbrev pub listed : Dict Text TriggerTarget → Text → Text → List Text → Trigger
listed targets h hv names = record new_trigger {
  targets = targets;
  targets_by_headers = (h, (hv, names) ∷ []) ∷ [];
}

delete_trigger-pair :
    (targets : Dict Text TriggerTarget) (h hv a b : Text)
    → (b == a) ≡ false
    → delete_trigger a (listed targets h hv (a ∷ b ∷ []))
      ≡ some (listed (delete a targets) h hv (b ∷ b ∷ []))
unfolding delete_trigger delete_from delete_from_headers delete_from_values
delete_trigger-pair targets h hv a b ne = rw (delete_name-pair a b ne) refl

delete_trigger-twice :
    (targets : Dict Text TriggerTarget) (h hv b : Text)
    → delete_trigger b (listed targets h hv (b ∷ b ∷ [])) ≡ none
unfolding delete_trigger delete_from delete_from_headers delete_from_values
delete_trigger-twice targets h hv b = rw (delete_name-twice b) refl

module _ (uri_regexp : Text → Option (Text × (Text → Bool))) where
  -- A trigger that names a status twice, and no URI or header: its removal panics.
  pub status_twice_panics :
      (tt : TriggerTarget) (status : ℤ)
      → tt.trigger_uris ≡ []
      → tt.trigger_headers ≡ []
      → tt.trigger_statuses ≡ status ∷ status ∷ []
      → delete_trigger tt.name (put_trigger uri_regexp tt new_trigger) ≡ none
  unfolding delete_trigger put_trigger delete_from delete_from_headers delete_name delete_loop
      add_statuses append_name get put
  status_twice_panics tt status uris headers statuses =
      ground (arith, uris, headers, statuses, eq_refl status, eq_refl tt.name)

  -- A trigger for one value of a header, and no URI.
  abbrev pub IsForHeader : Text → Text → TriggerTarget → Type 0
  IsForHeader h hv tt = (tt.trigger_uris ≡ []) × (tt.trigger_headers ≡ (h, hv) ∷ [])

  put_trigger-first :
      (tt : TriggerTarget) (h hv : Text)
      → IsForHeader h hv tt
      → put_trigger uri_regexp tt new_trigger ≡ listed (put tt.name tt []) h hv (tt.name ∷ [])
  unfolding put_trigger add_headers append_name get put
  put_trigger-first tt h hv for = ground (arith, for)

  put_trigger-second :
      (tt : TriggerTarget) (h hv a : Text) (targets : Dict Text TriggerTarget)
      → IsForHeader h hv tt
      → put_trigger uri_regexp tt (listed targets h hv (a ∷ []))
        ≡ listed (put tt.name tt targets) h hv (a ∷ tt.name ∷ [])
  unfolding put_trigger add_headers append_name get put
  put_trigger-second tt h hv a targets for = ground (arith, for, eq_refl h, eq_refl hv)

  -- Two triggers for one value of a header, and no URI: after the first is removed, which does not panic,
  -- the removal of the second panics.
  pub header_shared_panics :
      (tt uu : TriggerTarget) (h hv : Text)
      → (uu.name == tt.name) ≡ false
      → IsForHeader h hv tt
      → IsForHeader h hv uu
      → (t : Trigger) × (delete_trigger tt.name
            (put_trigger uri_regexp uu (put_trigger uri_regexp tt new_trigger))
          ≡ some t)
        × (delete_trigger uu.name t ≡ none)
  header_shared_panics tt uu h hv ne first second = (
    listed (delete tt.name (put uu.name uu (put tt.name tt []))) h hv (uu.name ∷ uu.name ∷ []),
    rw (put_trigger-first tt h hv first) (
        rw (put_trigger-second uu h hv tt.name (put tt.name tt []) second)
          (delete_trigger-pair (put uu.name uu (put tt.name tt [])) h hv tt.name uu.name ne)),
    delete_trigger-twice (delete tt.name (put uu.name uu (put tt.name tt []))) h hv uu.name,
  )
