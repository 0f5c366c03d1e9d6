-- ===== src/Locker/Labeled/Promised.antt =====
-- What calls of the routes promise of the labels that have a locker (registry/lockerApi.go).
use goto.Prelude.{
  ℕ, Bool, true, false, ◌&&◌, ◌||◌, not, List, [], ◌∷◌, if◌then◌else◌, Text, text_eq, ◌==◌,
  equal_fold,
}
use goto.Locker.Labels.{labels_eq, is_prefix, split}
use goto.Locker.Labeled.{LabeledLockers, default_label, says_current}
use goto.Locker.Labeled.Handlers.{
  open_labeled_locker, close_or_clear_labeled_locker, store_in_labeled_locker,
  remove_from_labeled_locker,
}

pub data Call : Type 0 where
  opens : ℕ → Text → Call
  clears : ℕ → Text → Bool → Call
  stores : ℕ → Text → List Text → Text → Call
  removes : ℕ → Text → List Text → Call

unfoldable pub run_call : Call → LabeledLockers → LabeledLockers
run_call (opens now label) s = (open_labeled_locker now label s).0
run_call (clears now label closing) s = (close_or_clear_labeled_locker now label closing s).0
run_call (stores now label keys v) s = (store_in_labeled_locker now label keys v s).0
run_call (removes now label keys) s = (remove_from_labeled_locker now label keys s).0

unfoldable pub run_calls : List Call → LabeledLockers → LabeledLockers
unfolding run_call
run_calls [] s = s
run_calls (c ∷ cs) s = run_calls cs (run_call c s)

-- Whether a path of labels has a locker.
abbrev pub Known : Type 0
Known = List Text → Bool

-- Whether a label's first part is not empty.
abbrev pub has_name : List Text → Bool
has_name [] = false
has_name ([] ∷ ls) = false
has_name ((c ∷ l) ∷ ls) = true

-- A locker, and those above it, from now on.
abbrev pub with_path : List Text → Known → Known
with_path ls k p = k p || has_name ls && (is_prefix p ls && not (is_prefix p []))

-- None, nor any below it.
abbrev pub without_path : List Text → Known → Known
without_path ls k p = k p && not (k ls && is_prefix ls p)

-- None below it.
abbrev pub without_below : List Text → Known → Known
without_below ls k p = k p && not (k ls && (is_prefix ls p && not (ls == p)))

abbrev pub filled : Text → List Text → Known → Known
filled [] keys k = k
filled (c ∷ label) [] k = k
filled (c ∷ label) (key ∷ keys) k =
    if says_current (split (c ∷ label)) then k else with_path (split (c ∷ label)) k

abbrev pub cleared : Text → Bool → Known → Known
cleared [] closing k = λ p. p == default_label ∷ []
cleared (c ∷ label) true k =
    if equal_fold (c ∷ label) default_label then k else without_path (split (c ∷ label)) k
cleared (c ∷ label) false k = without_below (split (c ∷ label)) k

abbrev pub promised : Call → Known → Known
promised (opens now label) k = with_path (split label) k
promised (clears now label closing) k = cleared label closing k
promised (stores now label keys v) k = filled label keys k
promised (removes now label keys) k = filled label keys k

unfoldable pub all_promised : List Call → Known → Known
all_promised [] k = k
all_promised (c ∷ cs) k = all_promised cs (promised c k)
