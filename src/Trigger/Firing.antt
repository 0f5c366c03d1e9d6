-- ===== src/Trigger/Firing.antt =====
-- The triggers that a response fires, against the conditions of each (trigger.go, findMatchingTriggers).
use goto.Prelude.{
  ◌≡◌, refl, subst, arith, Bool, ◌&&◌, Option, none, some, [], ◌∷◌, if◌then◌else◌, ℤ, int_eq, Text,
  text_eq, ◌==◌, eq_iff, to_lower, Bool-cases, inl, inr,
}
use goto.Prelude.Dict.{Dict, get, get-put}
use goto.Params.Mux.{Request}
use goto.Trigger.{TriggerTarget, Trigger}
use goto.Trigger.Matching.{
  matching, Found, counted, fires, has_http_target, count_match, count_matches,
  find_matching_triggers,
}
use goto.Trigger.Conditions.{chosen, is_triggered, get-matching}
use goto.Trigger.Named.{IsNamed, matching-IsNamed}

-- What the matched targets leave under a name, of what was under it.
abbrev pub if_matched :
    Option TriggerTarget
    → (TriggerTarget → Option TriggerTarget)
    → Option TriggerTarget
    → Option TriggerTarget
if_matched none f o = o
if_matched (some tt) f o = f (counted tt)

abbrev pub fired :
    (TriggerTarget → Bool) → Option TriggerTarget → TriggerTarget → Option TriggerTarget
fired p o tt = if fires tt && p tt then some tt else o

-- What a count of a match leaves under a name.
get-count_match :
    (k : Text) (x : TriggerTarget) (f : Found) (n : Text)
    → x.name ≡ k
    → (get n (count_match k x f).targets ≡ (if k == n then some x else get n f.targets))
      × (get n (count_match k x f).http_targets ≡ (
          if k == n then fired has_http_target (get n f.http_targets) x else get n f.http_targets))
      × (get n (count_match k x f).pipe_sources ≡ (
          if k == n then fired (λ tt. tt.pipe) (get n f.pipe_sources) x else get n f.pipe_sources))
unfolding count_match
get-count_match k x f n named = (
  get-put k n x f.targets,
  ground (arith, named, get-put x.name n x f.http_targets),
  ground (arith, named, get-put x.name n x f.pipe_sources),
)

abbrev Leaves : Dict Text TriggerTarget → Found → Found → Text → Type 0
Leaves m f g n =
    (get n g.targets ≡ if_matched (get n m) (λ tt. some tt) (get n f.targets))
    × (get n g.http_targets
        ≡ if_matched (get n m) (fired has_http_target (get n f.http_targets))
            (get n f.http_targets))
    × (get n g.pipe_sources
        ≡ if_matched (get n m) (fired (λ tt. tt.pipe) (get n f.pipe_sources))
            (get n f.pipe_sources))

get-count_matches :
    (m : Dict Text TriggerTarget) (f : Found) (n : Text)
    → IsNamed m
    → Leaves m f (count_matches m f) n
unfolding count_matches get
get-count_matches [] f n named = (refl, refl, refl)
get-count_matches ((k, x) ∷ m) f n named =
    let (et, eh, ep) = get-count_matches m (count_match k (counted x) f) n named.2 in
    let (ct, ch, cp) = get-count_match k (counted x) f n named.0 in
    elim (Bool-cases (k == n)) as (λ c. Leaves ((k, x) ∷ m) f (count_matches ((k, x) ∷ m) f) n) [
      | inl e ↦
          let later : get n m ≡ none = subst (λ j. get j m ≡ none) ((eq_iff k n).0 e) named.1 in
          (
            ground (arith, e, later, et, ct),
            ground (arith, e, later, eh, ch),
            ground (arith, e, later, ep, cp),
          )
      | inr e ↦ (ground (arith, e, et, ct), ground (arith, e, eh, ch), ground (arith, e, ep, cp))
    ]

module _ (header_get : Text → Text) (r : Request) (status : ℤ) (t : Trigger) where
  -- The target of a name, if the response triggers it.
  abbrev pub triggered : Text → Option TriggerTarget
  triggered n =
      chosen (is_triggered header_get (to_lower r.request_uri) status t n) (get n t.targets)

  abbrev pub found : Found
  found = find_matching_triggers header_get r status t

  -- If every target is under its own name and no other: of a target that the response triggers, by its
  -- lists and its own conditions, the match is counted, and it is sent to, or its pipes are called, exactly
  -- if with that count it is enabled, in its window, and has an HTTP target, or is a pipe. Every other
  -- target stays as it is and does nothing.
  pub find_matching_triggers_lem :
      (n : Text)
      → IsNamed t.targets
      → (get n found.targets ≡ if_matched (triggered n) (λ tt. some tt) (get n t.targets))
        × (get n found.http_targets ≡ if_matched (triggered n) (fired has_http_target none) none)
        × (get n found.pipe_sources ≡ if_matched (triggered n) (fired (λ tt. tt.pipe) none) none)
  unfolding find_matching_triggers get
  find_matching_triggers_lem n named =
      subst
        (λ o.
          (get n found.targets ≡ if_matched o (λ tt. some tt) (get n t.targets))
          × (get n found.http_targets ≡ if_matched o (fired has_http_target none) none)
          × (get n found.pipe_sources ≡ if_matched o (fired (λ tt. tt.pipe) none) none))
        (get-matching header_get (to_lower r.request_uri) status t n)
        (get-count_matches (matching header_get (to_lower r.request_uri) status t)
          record { targets = t.targets; http_targets = []; pipe_sources = [] } n
          (matching-IsNamed header_get (to_lower r.request_uri) status t named))
