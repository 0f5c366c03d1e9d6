-- ===== src/Locker/Labeled/Handlers.antt =====
-- The routes that open, close, clear and fill labeled lockers (registry/lockerApi.go).
use goto.Prelude.{
  ℕ, Bool, true, false, ◌&&◌, Option, none, some, List, [], ◌∷◌, if◌then◌else◌, Text, text_eq,
  equal_fold,
}
use goto.Prelude.Dict.{Dict, get, put}
use goto.Locker.Combi
use goto.Locker.Labels.{split}
use goto.Locker.Labeled.{
  LabeledLockers, new_labeled_lockers, with_node, with_locker, default_label, open_locker,
  get_or_create_locker,
}
use goto.Locker.Labeled.Clearing.{clear_locker}

-- What a route answers: 200, 400, or nothing, where it panics.
pub data Reply : Type 0 where
  done : Reply
  bad_request : Reply
  panicked : Reply

abbrev pub replied : LabeledLockers × Bool → LabeledLockers × Reply
replied (s, true) = (s, panicked)
replied (s, false) = (s, done)

-- openLabeledLocker
unfoldable pub open_labeled_locker : ℕ → Text → LabeledLockers → LabeledLockers × Reply
open_labeled_locker now [] s = (s, bad_request)
open_labeled_locker now (c ∷ label) s = replied (open_locker now (split (c ∷ label)) s)

abbrev clear_named : ℕ → Text → Bool → LabeledLockers → LabeledLockers × Reply
clear_named now [] closing s = (new_labeled_lockers now, done)
clear_named now (c ∷ label) closing s = replied (clear_locker now (split (c ∷ label)) closing s)

-- closeOrClearLabeledLocker; `closing` is whether the request's URI contains "close". Without a label all lockers
-- are made anew; what the peers then clear is left out.
unfoldable pub close_or_clear_labeled_locker :
    ℕ → Text → Bool → LabeledLockers → LabeledLockers × Reply
close_or_clear_labeled_locker now label closing s =
    if closing && equal_fold label default_label
    then (s, bad_request)
    else clear_named now label closing s

abbrev pub stored_at : ℕ → List Text → Text → LabeledLockers × Option ℕ → LabeledLockers × Reply
stored_at now keys v (s, none) = (s, panicked)
stored_at now keys v (s, some a) = (with_node a (with_locker (Combi.store now keys v)) s, done)

-- storeInLabeledLocker
unfoldable pub store_in_labeled_locker :
    ℕ → Text → List Text → Text → LabeledLockers → LabeledLockers × Reply
store_in_labeled_locker now [] keys v s = (s, bad_request)
store_in_labeled_locker now (c ∷ label) [] v s = (s, bad_request)
store_in_labeled_locker now (c ∷ label) (k ∷ ks) v s =
    stored_at now (k ∷ ks) v (get_or_create_locker now (split (c ∷ label)) s)

abbrev pub removed_at : List Text → LabeledLockers × Option ℕ → LabeledLockers × Reply
removed_at keys (s, none) = (s, panicked)
removed_at keys (s, some a) = (with_node a (with_locker (Combi.remove keys)) s, done)

-- removeFromLabeledLocker
unfoldable pub remove_from_labeled_locker :
    ℕ → Text → List Text → LabeledLockers → LabeledLockers × Reply
remove_from_labeled_locker now [] keys s = (s, bad_request)
remove_from_labeled_locker now (c ∷ label) [] s = (s, bad_request)
remove_from_labeled_locker now (c ∷ label) (k ∷ ks) s =
    removed_at (k ∷ ks) (get_or_create_locker now (split (c ∷ label)) s)

-- The registry's own labeled lockers, and those of each context (ContextLockers).
pub record Lockers : Type 0 where
  pub labeled_lockers : LabeledLockers
  pub context_lockers : Dict Text LabeledLockers

-- GetContextLocker
abbrev pub context_locker : ℕ → Text → Dict Text LabeledLockers → LabeledLockers
context_locker now context m = elim (get context m) [ none ↦ new_labeled_lockers now | some s ↦ s ]

-- A route's work on the lockers of the request's context, if it names one.
unfoldable pub in_context :
    ℕ → Text → (LabeledLockers → LabeledLockers × Reply) → Lockers → Lockers × Reply
in_context now [] f ls = let r = f ls.labeled_lockers in (record ls { labeled_lockers = r.0 }, r.1)
in_context now (c ∷ context) f ls =
    let r = f (context_locker now (c ∷ context) ls.context_lockers) in
    (record ls { context_lockers = put (c ∷ context) r.0 ls.context_lockers }, r.1)

-- ClearContextLocker
abbrev pub clear_context_locker : ℕ → Text → Lockers → Lockers
clear_context_locker now context ls = record ls {
  context_lockers = put context (new_labeled_lockers now) ls.context_lockers;
}
