-- ===== src/Trigger/Named.antt =====
-- The triggers that match are each under its own name (trigger.go, findMatchingTriggers).
use goto.Prelude.{
  ◌≡◌, arith, Bool, true, none, some, List, [], ◌∷◌, ℤ, int_eq, Text, text_eq, eq_iff, Option-cases,
  inl, inr,
}
use goto.Prelude.Dict.{Dict, get, put, values, get-put, get_empty}
use goto.Trigger.{TriggerTarget, Trigger, or_nothing}
use goto.Trigger.Matching.{
  put_if, by_uri, collect, collect_uris, collect_missing, matching, matches_headers,
  get_if_any_header_matched,
}

-- Every target is under its name, and is the only one there.
abbrev pub IsNamed : Dict Text TriggerTarget → Type 0
IsNamed [] = Unit
IsNamed ((k, tt) ∷ m) = (tt.name ≡ k) × (get k m ≡ none) × IsNamed m

pub put-IsNamed :
    (k : Text) (x : TriggerTarget) (m : Dict Text TriggerTarget)
    → x.name ≡ k
    → IsNamed m
    → IsNamed (put k x m)
unfolding put
put-IsNamed k x [] e named = (e, get_empty k, tt)
put-IsNamed k x ((j, y) ∷ m) e named =
    ground (arith, put-IsNamed k x m e named.2, get-put k j x m, eq_iff j k, eq_iff k j)

pub get-IsNamed :
    (k : Text) (x : TriggerTarget) (m : Dict Text TriggerTarget)
    → IsNamed m
    → get k m ≡ some x
    → x.name ≡ k
unfolding get
get-IsNamed k x [] named e = cc
get-IsNamed k x ((j, y) ∷ m) named e = ground (arith, get-IsNamed k x m named.2, eq_iff j k)

put_if-IsNamed :
    (p : TriggerTarget → Bool) (name : Text) (targets m : Dict Text TriggerTarget)
    → IsNamed targets
    → IsNamed m
    → IsNamed (put_if p name (get name targets) m)
put_if-IsNamed p name targets m named h = elim (Option-cases (get name targets)) [
  | inl e ↦ rw e h
  | inr (x, e) ↦ rw e (ground (arith, put-IsNamed name x m (get-IsNamed name x targets named e) h))
]

collect-IsNamed :
    (p : TriggerTarget → Bool) (targets m : Dict Text TriggerTarget) (names : List Text)
    → IsNamed targets
    → IsNamed m
    → IsNamed (collect p targets names m)
unfolding collect
collect-IsNamed p targets m [] named h = h
collect-IsNamed p targets m (name ∷ names) named h =
    collect-IsNamed p targets (put_if p name (get name targets) m) names named
      (put_if-IsNamed p name targets m named h)

module _ (header_get : Text → Text) (uri : Text) (status : ℤ) (targets : Dict Text TriggerTarget)
    (named : IsNamed targets) where
  collect_uris-IsNamed :
      (m : Dict Text TriggerTarget) (lists : List (List Text))
      → IsNamed m
      → IsNamed (collect_uris header_get uri status targets lists m)
  unfolding collect_uris
  collect_uris-IsNamed m [] h = h
  collect_uris-IsNamed m (names ∷ lists) h =
      collect_uris-IsNamed (collect (by_uri header_get uri status) targets names m) lists
        (collect-IsNamed (by_uri header_get uri status) targets m names named h)

  collect_missing-IsNamed :
      (m : Dict Text TriggerTarget) (names : List Text)
      → IsNamed m
      → IsNamed (collect_missing header_get uri status targets names m)
  unfolding collect_missing
  collect_missing-IsNamed m [] h = h
  collect_missing-IsNamed m (name ∷ names) h = ground (
    arith,
    collect_missing-IsNamed m names h,
    collect_missing-IsNamed
        (put_if (matches_headers header_get uri status) name (get name targets) m) names
        (put_if-IsNamed (matches_headers header_get uri status) name targets m named h),
  )

pub matching-IsNamed :
    (header_get : Text → Text) (uri : Text) (status : ℤ) (t : Trigger)
    → IsNamed t.targets
    → IsNamed (matching header_get uri status t)
unfolding matching
matching-IsNamed header_get uri status t named =
    collect-IsNamed (λ tt. true) t.targets
      (collect_missing header_get uri status t.targets (or_nothing (get status t.targets_by_status))
        (collect_uris header_get uri status t.targets (values t.targets_by_uris) []))
      (or_nothing (get_if_any_header_matched header_get t.targets_by_headers)) named
      (collect_missing-IsNamed header_get uri status t.targets named
        (collect_uris header_get uri status t.targets (values t.targets_by_uris) [])
        (or_nothing (get status t.targets_by_status))
        (collect_uris-IsNamed header_get uri status t.targets named [] (values t.targets_by_uris)
          tt))
