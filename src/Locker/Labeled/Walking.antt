-- ===== src/Locker/Labeled/Walking.antt =====
-- The tree of the labeled lockers and the map allLockers (locker.go, LabeledLockers).
use goto.Prelude.{
  ℕ, ◌≡◌, ap, sym, ◌∙◌, arith, true, Option, none, some, List, [], ◌∷◌, ◌++◌, inl, inr,
  Option-cases, Text, text_eq,
}
use mathlib.Core.List.{append_assoc}
use goto.Prelude.Dict.{get}
use goto.Locker.Labels.{labels_eq, is_prefix, is_prefix-append, snoc_prefix-nil}
use goto.Locker.Labeled.{LabeledLockers, child_at, path_of, new_labeled_lockers}
use goto.Locker.Labeled.Entries.{IsSound, climbed}
use goto.Locker.Labeled.Making.{Hangs, path_of-linked, free_entry}
use goto.Locker.Labeled.Promised.{Call, run_calls}
use goto.Locker.Labeled.Refined.{run_calls-IsSound}

-- The locker that some labels lead to, from one locker or from the top.
unfoldable pub walk_labels : List Text → Option ℕ → LabeledLockers → Option ℕ
walk_labels [] o s = o
walk_labels (l ∷ ls) o s = elim (child_at o l s) [
  | none ↦ none
  | some b ↦ walk_labels ls (some b) s
]

-- Nothing is below a path without a locker.
none_below :
    (q ls : List Text) (l : Text) (s : LabeledLockers)
    → IsSound s
    → get (q ++ l ∷ []) s.all_lockers ≡ none
    → get (q ++ l ∷ ls) s.all_lockers ≡ none
none_below q ls l s sound h = elim (Option-cases (get (q ++ l ∷ ls) s.all_lockers)) [
  | inl x ↦ x
  | inr (b, x) ↦
      let begins : is_prefix (q ++ l ∷ []) (q ++ l ∷ ls) ≡ true =
        ap (is_prefix (q ++ l ∷ [])) (sym (append_assoc q (l ∷ []) ls))
        ∙ is_prefix-append (q ++ l ∷ []) ls in
      let (y, e, _) =
        climbed (q ++ l ∷ []) s sound (snoc_prefix-nil q l) (q ++ l ∷ ls) b x begins in
      absurd (ground (arith, e, h))
]

walk_labels-entry :
    (l : Text) (ls : List Text) (o : Option ℕ) (s : LabeledLockers)
    → IsSound s
    → Hangs o s
    → walk_labels (l ∷ ls) o s ≡ get (path_of o s ++ l ∷ ls) s.all_lockers
unfolding walk_labels
walk_labels-entry l [] o s sound h = elim (Option-cases (child_at o l s)) [
  | inl x ↦ rw (x, walk_labels) (sym (free_entry 0 s sound o l h x))
  | inr (b, x) ↦ rw (x, walk_labels) (sym (sound.linked.has_entry o l b x))
]
walk_labels-entry l (m ∷ ls) o s sound h = elim (Option-cases (child_at o l s)) [
  | inl x ↦
      rw (x, walk_labels)
        (sym (none_below (path_of o s) (m ∷ ls) l s sound (free_entry 0 s sound o l h x)))
  | inr (b, x) ↦
      rw (x, walk_labels)
        (walk_labels-entry m ls (some b) s sound (o, l, x)
          ∙ ap (λ q. get (q ++ m ∷ ls) s.all_lockers) (path_of-linked 0 s sound o l b x)
          ∙ ap (λ q. get q s.all_lockers) (append_assoc (path_of o s) (l ∷ []) (m ∷ ls)))
]

-- After any calls, a label's locker in allLockers is the one that the tree has where the label's parts lead.
pub all_lockers-walk_labels :
    (now : ℕ) (cs : List Call) (l : Text) (ls : List Text)
    → get (l ∷ ls) (run_calls cs (new_labeled_lockers now)).all_lockers
      ≡ walk_labels (l ∷ ls) none (run_calls cs (new_labeled_lockers now))
all_lockers-walk_labels now cs l ls = sym (
    walk_labels-entry l ls none (run_calls cs (new_labeled_lockers now)) (run_calls-IsSound now cs)
      tt)
