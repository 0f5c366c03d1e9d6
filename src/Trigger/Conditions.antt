-- ===== src/Trigger/Conditions.antt =====
-- The triggers that match a response, against the conditions of each (trigger.go, findMatchingTriggers).
use goto.Prelude.{
  ◌≡◌, refl, arith, Bool, true, ◌&&◌, ◌||◌, Option, none, some, List, [], ◌∷◌, if◌then◌else◌, ℤ,
  int_eq, Text, text_eq, ◌==◌, eq_iff, any,
}
use goto.Prelude.Dict.{Dict, get, values, get-put, get_empty}
use goto.Trigger.{TriggerTarget, Trigger, or_nothing}
use goto.Trigger.Matching.{
  or_else, put_if, by_uri, collect, collect_uris, collect_missing, matching, matches_headers,
  get_if_any_header_matched,
}

abbrev pub has_name : Text → List Text → Bool
has_name n = any (λ name. name == n)

abbrev pub chosen : (TriggerTarget → Bool) → Option TriggerTarget → Option TriggerTarget
chosen p none = none
chosen p (some tt) = if p tt then some tt else none

get-put_if :
    (p : TriggerTarget → Bool) (name n : Text) (o : Option TriggerTarget)
    (m : Dict Text TriggerTarget)
    → get n (put_if p name o m) ≡ (if name == n then or_else (chosen p o) (get n m) else get n m)
get-put_if p name n none m = ground arith
get-put_if p name n (some x) m = ground (arith, get-put name n x m)

get-collect :
    (p : TriggerTarget → Bool) (targets m : Dict Text TriggerTarget) (names : List Text) (n : Text)
    → get n (collect p targets names m)
      ≡ or_else (if has_name n names then chosen p (get n targets) else none) (get n m)
unfolding collect
get-collect p targets m [] n = refl
get-collect p targets m (name ∷ names) n = ground (
  arith,
  get-collect p targets (put_if p name (get name targets) m) names n,
  get-put_if p name n (get name targets) m,
  eq_iff name n,
)

module _ (header_get : Text → Text) (uri : Text) (status : ℤ) where
  get-collect_uris :
      (targets m : Dict Text TriggerTarget) (lists : List (List Text)) (n : Text)
      → get n (collect_uris header_get uri status targets lists m)
        ≡ or_else
            (if any (has_name n) lists
              then chosen (by_uri header_get uri status) (get n targets)
              else none)
            (get n m)
  unfolding collect_uris
  get-collect_uris targets m [] n = refl
  get-collect_uris targets m (names ∷ lists) n = ground (
    arith,
    get-collect_uris targets (collect (by_uri header_get uri status) targets names m) lists n,
    get-collect (by_uri header_get uri status) targets m names n,
  )

  get-collect_missing :
      (targets m : Dict Text TriggerTarget) (names : List Text) (n : Text)
      → get n (collect_missing header_get uri status targets names m)
        ≡ or_else (get n m) (
            if has_name n names
            then chosen (matches_headers header_get uri status) (get n targets)
            else none)
  unfolding collect_missing
  get-collect_missing targets m [] n = ground arith
  get-collect_missing targets m (name ∷ names) n = ground (
    arith,
    get-collect_missing targets m names n,
    get-collect_missing targets
        (put_if (matches_headers header_get uri status) name (get name targets) m) names n,
    get-put_if (matches_headers header_get uri status) name n (get name targets) m,
    eq_iff name n,
  )

  -- What triggers a target: it is in a list by URI, and one of its patterns matches together with its
  -- statuses and headers, or in the list of the status, and its headers match, or in the list of a header.
  abbrev pub is_triggered : Trigger → Text → TriggerTarget → Bool
  is_triggered t n tt =
      (any (has_name n) (values t.targets_by_uris) && by_uri header_get uri status tt)
      || (has_name n (or_nothing (get status t.targets_by_status))
          && matches_headers header_get uri status tt)
      || has_name n (or_nothing (get_if_any_header_matched header_get t.targets_by_headers))

  pub get-matching :
      (t : Trigger) (n : Text)
      → get n (matching header_get uri status t) ≡ chosen (is_triggered t n) (get n t.targets)
  unfolding matching
  get-matching t n = ground (
    arith,
    get-collect (λ tt. true) t.targets
        (collect_missing header_get uri status t.targets
          (or_nothing (get status t.targets_by_status))
          (collect_uris header_get uri status t.targets (values t.targets_by_uris) []))
        (or_nothing (get_if_any_header_matched header_get t.targets_by_headers)) n,
    get-collect_missing t.targets
        (collect_uris header_get uri status t.targets (values t.targets_by_uris) [])
        (or_nothing (get status t.targets_by_status)) n,
    get-collect_uris t.targets [] (values t.targets_by_uris) n,
    get_empty {V = TriggerTarget} n,
  )
