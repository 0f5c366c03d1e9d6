-- ===== src/Locker/Labeled/Clearing.antt =====
-- A locker closed with all below it, or cleared (locker.go, deleteLocker and ClearLocker).
use goto.Prelude.{
  ℕ, zero, suc, Bool, true, false, Option, none, some, List, [], ◌∷◌, if◌then◌else◌, Text, text_eq,
  nat_beq, nat_eq,
}
use goto.Prelude.Dict.{Dict, get, delete}
use goto.Locker.Combi.{CombiLocker}
use goto.Locker.Combi
use goto.Locker.Labels.{labels_eq}
use goto.Locker.Labeled.{
  LabeledLockers, Node, child_at, cut_link, default_label, subs_of_node, with_locker, with_node,
}

abbrev pub labels_in : Dict Text ℕ → List Text
labels_in [] = []
labels_in ((l, a) ∷ m) = l ∷ labels_in m

-- The loop over a locker's sub-lockers: a label that is gone when the loop comes to it is left out.
unfoldable pub delete_each :
    (ℕ → LabeledLockers → LabeledLockers) → Option ℕ → List Text → LabeledLockers → LabeledLockers
delete_each f o [] s = s
delete_each f o (l ∷ ls) s =
    delete_each f o ls (elim (child_at o l s) [ none ↦ s | some b ↦ f b s ])

abbrev pub unlink : Node → LabeledLockers → LabeledLockers
unlink n s =
    let s' = cut_link n.parent n.locker.label s in
    record s' { all_lockers = delete n.path_label s'.all_lockers }

abbrev pub sub_labels : ℕ → LabeledLockers → List Text
sub_labels a s = labels_in (subs_of_node (get a s.store))

-- deleteLocker
unfoldable pub delete_locker : ℕ → ℕ → LabeledLockers → LabeledLockers
delete_locker zero a s = s
delete_locker (suc fuel) a s = elim (get a s.store) [
  | none ↦ s
  | some n ↦ delete_each (delete_locker fuel) (some a) (sub_labels a s) (unlink n s)
]

abbrev pub mark_current : CombiLocker → CombiLocker
mark_current cl = record cl { current = true }

abbrev pub current_at : Option ℕ → LabeledLockers → LabeledLockers × Bool
current_at none s = (record s { current_locker = none }, true)
current_at (some d) s =
    (with_node d (with_locker mark_current) (record s { current_locker = some d }), false)

-- The default locker becomes the current one, and whether that panics: it may have been closed.
unfoldable pub back_to_default : LabeledLockers → LabeledLockers × Bool
back_to_default s = current_at (get default_label s.lockers) s

abbrev pub is_current : ℕ → LabeledLockers → Bool
is_current a s = elim s.current_locker [ none ↦ false | some b ↦ nat_beq a b ]

abbrev pub emptied : ℕ → Node → Node
emptied now n = record n { locker = Combi.init now n.locker; sub_lockers = [] }

abbrev pub closed_at : ℕ → LabeledLockers → LabeledLockers × Bool
closed_at a s =
    let s' = delete_locker s.next a s in if is_current a s' then back_to_default s' else (s', false)

abbrev pub emptied_at : ℕ → ℕ → LabeledLockers → LabeledLockers
emptied_at now a s =
    with_node a (emptied now) (delete_each (delete_locker s.next) (some a) (sub_labels a s) s)

abbrev pub clear_at : ℕ → Bool → Option ℕ → LabeledLockers → LabeledLockers × Bool
clear_at now closing none s = (s, false)
clear_at now true (some a) s = closed_at a s
clear_at now false (some a) s = (emptied_at now a s, false)

-- ClearLocker, and whether it panics.
unfoldable pub clear_locker : ℕ → List Text → Bool → LabeledLockers → LabeledLockers × Bool
clear_locker now labels closing s = clear_at now closing (get labels s.all_lockers) s
