-- ===== src/Locker/Labeled/Routes.antt =====
-- What each route does to the lockers that labels have (registry/lockerApi.go).
use goto.Prelude.{
  ℕ, ◌≡◌, refl, subst, sym, arith, Bool, true, false, Option, none, some, List, [], ◌∷◌,
  if◌then◌else◌, Text, text_eq, nat_eq, equal_fold, to_lower,
}
use goto.Prelude.Dict.{get}
use goto.Locker.Combi
use goto.Locker.Labels.{labels_eq, split}
use goto.Locker.Labeled.{
  LabeledLockers, with_locker, default_label, create_or_get_locker, open_locker, says_current,
  get_or_create_locker,
}
use goto.Locker.Labeled.Clearing.{clear_at, clear_at, clear_locker}
use goto.Locker.Labeled.Entries.{IsSound}
use goto.Locker.Labeled.Handlers.{
  replied, bad_request, stored_at, removed_at, open_labeled_locker, close_or_clear_labeled_locker,
  store_in_labeled_locker, remove_from_labeled_locker,
}
use goto.Locker.Labeled.Created.{known, Outcome, create_or_get-Created}
use goto.Locker.Labeled.Effects.{
  open_locker-Outcome, closed_at-Outcome, emptied_at-Outcome, Same-Outcome, self-Outcome,
}
use goto.Locker.Labeled.Fresh.{new-Outcome}
use goto.Locker.Labeled.Same.{Same, Same-refl, with_node-Same}
use goto.Locker.Labeled.Promised.{
  Known, with_path, without_path, without_below, Call, opens, clears, stores, removes, run_call,
  promised, cleared, filled,
}

replied-state : (r : LabeledLockers × Bool) → (replied r).0 ≡ r.0
replied-state (s, true) = refl
replied-state (s, false) = refl

clear_at-Outcome :
    (now : ℕ) (label : Text) (ls : List Text) (closing : Bool) (o : Option ℕ) (s : LabeledLockers)
    → IsSound s
    → get ls s.all_lockers ≡ o
    → Outcome
        (if closing then without_path ls (known s) else without_below ls (known s))
        (clear_at now closing o s).0
clear_at-Outcome now label ls true none s sound e = record {
  sound = sound;
  knows = λ p. ground (arith, e);
}
clear_at-Outcome now label ls false none s sound e = record {
  sound = sound;
  knows = λ p. ground (arith, e);
}
clear_at-Outcome now label ls true (some a) s sound e = closed_at-Outcome ls a s sound e
clear_at-Outcome now label ls false (some a) s sound e = emptied_at-Outcome now ls a s sound e

clear_locker-Outcome :
    (now : ℕ) (ls : List Text) (closing : Bool) (s : LabeledLockers)
    → IsSound s
    → Outcome
        (if closing then without_path ls (known s) else without_below ls (known s))
        (replied (clear_locker now ls closing s)).0
unfolding clear_locker
clear_locker-Outcome now ls closing s sound =
    subst (Outcome (if closing then without_path ls (known s) else without_below ls (known s)))
      (sym (replied-state (clear_locker now ls closing s)))
      (clear_at-Outcome now [] ls closing (get ls s.all_lockers) s sound refl)

opens-Outcome :
    (now : ℕ) (label : Text) (s : LabeledLockers)
    → IsSound s
    → Outcome (with_path (split label) (known s)) (open_labeled_locker now label s).0
unfolding open_labeled_locker split
opens-Outcome now [] s sound = record { sound = sound; knows = λ p. ground arith }
opens-Outcome now (c ∷ label) s sound =
    subst (Outcome (with_path (split (c ∷ label)) (known s)))
      (sym (replied-state (open_locker now (split (c ∷ label)) s)))
      (open_locker-Outcome now (split (c ∷ label)) s sound)

if-Outcome :
    {B : Type 0} (b : Bool) (x y : LabeledLockers × B) (k k' : Known)
    → Outcome k x.0
    → Outcome k' y.0
    → Outcome (if b then k else k') (if b then x else y).0
if-Outcome true x y k k' h h' = h
if-Outcome false x y k k' h h' = h'

clears-Outcome :
    (now : ℕ) (label : Text) (closing : Bool) (s : LabeledLockers)
    → IsSound s
    → Outcome
        (cleared label closing (known s))
        (close_or_clear_labeled_locker now label closing s).0
unfolding close_or_clear_labeled_locker equal_fold to_lower
clears-Outcome now [] false s sound = new-Outcome now
clears-Outcome now [] true s sound = new-Outcome now
clears-Outcome now (c ∷ label) false s sound =
    clear_locker-Outcome now (split (c ∷ label)) false s sound
clears-Outcome now (c ∷ label) true s sound =
    if-Outcome (equal_fold (c ∷ label) default_label) (s, bad_request)
      (replied (clear_locker now (split (c ∷ label)) true s)) (known s)
      (without_path (split (c ∷ label)) (known s)) (self-Outcome s sound)
      (clear_locker-Outcome now (split (c ∷ label)) true s sound)

get_or_create-Outcome :
    (now : ℕ) (ls : List Text) (s : LabeledLockers)
    → IsSound s
    → Outcome
        (if says_current ls then known s else with_path ls (known s))
        (get_or_create_locker now ls s).0
unfolding get_or_create_locker
get_or_create-Outcome now ls s sound =
    if-Outcome (says_current ls) (s, s.current_locker) (create_or_get_locker now ls s) (known s)
      (with_path ls (known s)) (self-Outcome s sound) (create_or_get-Created now ls s sound).outcome

stored_at-Same :
    (now : ℕ) (keys : List Text) (v : Text) (s : LabeledLockers) (o : Option ℕ)
    → Same s (stored_at now keys v (s, o)).0
stored_at-Same now keys v s none = Same-refl s
stored_at-Same now keys v s (some a) =
    with_node-Same a (with_locker (Combi.store now keys v)) s (λ n. refl) (λ n l h. refl)

removed_at-Same :
    (keys : List Text) (s : LabeledLockers) (o : Option ℕ) → Same s (removed_at keys (s, o)).0
removed_at-Same keys s none = Same-refl s
removed_at-Same keys s (some a) =
    with_node-Same a (with_locker (Combi.remove keys)) s (λ n. refl) (λ n l h. refl)

stores-Outcome :
    (now : ℕ) (label : Text) (keys : List Text) (v : Text) (s : LabeledLockers)
    → IsSound s
    → Outcome (filled label keys (known s)) (store_in_labeled_locker now label keys v s).0
unfolding store_in_labeled_locker
stores-Outcome now [] [] v s sound = self-Outcome s sound
stores-Outcome now [] (k ∷ ks) v s sound = self-Outcome s sound
stores-Outcome now (c ∷ label) [] v s sound = self-Outcome s sound
stores-Outcome now (c ∷ label) (k ∷ ks) v s sound =
    let r = get_or_create_locker now (split (c ∷ label)) s in
    Same-Outcome (get_or_create-Outcome now (split (c ∷ label)) s sound)
      (stored_at-Same now (k ∷ ks) v r.0 r.1)

removes-Outcome :
    (now : ℕ) (label : Text) (keys : List Text) (s : LabeledLockers)
    → IsSound s
    → Outcome (filled label keys (known s)) (remove_from_labeled_locker now label keys s).0
unfolding remove_from_labeled_locker
removes-Outcome now [] [] s sound = self-Outcome s sound
removes-Outcome now [] (k ∷ ks) s sound = self-Outcome s sound
removes-Outcome now (c ∷ label) [] s sound = self-Outcome s sound
removes-Outcome now (c ∷ label) (k ∷ ks) s sound =
    let r = get_or_create_locker now (split (c ∷ label)) s in
    Same-Outcome (get_or_create-Outcome now (split (c ∷ label)) s sound)
      (removed_at-Same (k ∷ ks) r.0 r.1)

pub run_call-Outcome :
    (c : Call) (s : LabeledLockers) → IsSound s → Outcome (promised c (known s)) (run_call c s)
unfolding run_call
run_call-Outcome (opens now label) s sound = opens-Outcome now label s sound
run_call-Outcome (clears now label closing) s sound = clears-Outcome now label closing s sound
run_call-Outcome (stores now label keys v) s sound = stores-Outcome now label keys v s sound
run_call-Outcome (removes now label keys) s sound = removes-Outcome now label keys s sound
