-- ===== src/Locker/Labeled/Closing.antt =====
-- A locker closed, or emptied, with all below it (locker.go, ClearLocker).
use goto.Prelude.{
  ℕ, ◌≡◌, ap, subst, sym, ◌∙◌, arith, false, ◌&&◌, not, Option, none, some, List, [], ◌∷◌, ◌++◌,
  inl, inr, if◌then◌else◌, Bool-cases, Option-cases, Text, text_eq, ◌==◌, eq_iff, nat_eq,
}
use goto.Prelude.Dict.{get}
use goto.Locker.Labels.{labels_eq, is_prefix, snoc_prefix-nil}
use goto.Locker.Labeled.{LabeledLockers, child_at, path_of}
use goto.Locker.Labeled.Clearing.{delete_each, delete_locker, sub_labels}
use goto.Locker.Labeled.Deleting.{delete_locker-Deletes}
use goto.Locker.Labeled.Emptying.{Deleted, Emptied, delete_each-Emptied, any-sub_labels}
use goto.Locker.Labeled.Cutting.{Within, child_at-Within, path_of-Within}
use goto.Locker.Labeled.Entries.{IsSound, entry-Within, get-outside, Climbed, climbed}

module _ (q : List Text) (a : ℕ) (s : LabeledLockers) (sound : IsSound s)
    (at : get q s.all_lockers ≡ some a) where
  abbrev parent_of : Option ℕ
  parent_of = (sound.linked.entry q a at).0

  abbrev label_of : Text
  label_of = (sound.linked.entry q a at).1

  linked_at : child_at parent_of label_of s ≡ some a
  linked_at = (sound.linked.entry q a at).2

  path_at : q ≡ path_of parent_of s ++ label_of ∷ []
  path_at = (sound.linked.entry q a at).3

  is_prefix-nil : is_prefix q [] ≡ false
  is_prefix-nil = rw path_at (snoc_prefix-nil (path_of parent_of s) label_of)

  abbrev deletion : LabeledLockers
  deletion = delete_locker s.next a s

  deletion-Deleted : Deleted (λ _. false) parent_of label_of s deletion
  deletion-Deleted =
      delete_locker-Deletes s.next a (λ _. false) s parent_of label_of sound.linked sound.rooted
        linked_at (omega arith)

  deletion-Within : Within q s deletion
  deletion-Within = subst (λ r. Within r s deletion) (sym path_at) deletion-Deleted.within

  pub close-IsSound : IsSound deletion
  close-IsSound = record { linked = deletion-Deleted.linked; rooted = deletion-Deleted.rooted }

  only_link : (o : Option ℕ) (l : Text) → child_at o l s ≡ some a → (o ≡ parent_of) × (l ≡ label_of)
  only_link o l h =
      ground
        (arith, sound.linked.has_info o l a h, sound.linked.has_info parent_of label_of a linked_at)

  deletion-entry : get q deletion.all_lockers ≡ none
  deletion-entry = elim (Option-cases (get q deletion.all_lockers)) [
    | inl x ↦ x
    | inr (y, x) ↦
        let (o, l, c, e) = deletion-Deleted.linked.entry q y x in
        let c' = child_at-Within o l y deletion-Within c in
        let f = entry-Within sound.linked deletion-Deleted.linked deletion-Within q y x in
        absurd (ground (arith, c, c', f, at, only_link o l, deletion-Deleted.gone))
  ]

  -- A locker that is deleted is gone, with every locker whose path its path begins, and no other.
  pub close-entries :
      (p : List Text)
      → get p deletion.all_lockers ≡ (if is_prefix q p then none else get p s.all_lockers)
  close-entries p = elim (Bool-cases (is_prefix q p)) [
    | inl under ↦ rw under (elim (Option-cases (get p deletion.all_lockers)) [
      | inl x ↦ x
      | inr (b, x) ↦
          let (y, e, _) = climbed q deletion close-IsSound is_prefix-nil p b x under in
          absurd (ground (arith, e, deletion-entry))
    ])
    | inr outside ↦
        rw outside (get-outside sound.linked deletion-Deleted.linked deletion-Within p outside)
  ]

  pub close-Within : Within q s deletion
  close-Within = deletion-Within

  abbrev emptying : LabeledLockers
  emptying = delete_each (delete_locker s.next) (some a) (sub_labels a s) s

  emptying-Emptied : Emptied (λ _. false) a (sub_labels a s) s emptying
  emptying-Emptied =
      delete_each-Emptied s.next (delete_locker s.next) (delete_locker-Deletes s.next) (λ _. false)
        a (sub_labels a s) s sound.linked sound.rooted (omega arith)

  pub empty-IsSound : IsSound emptying
  empty-IsSound = record { linked = emptying-Emptied.linked; rooted = emptying-Emptied.rooted }

  emptying-Within : Within q s emptying
  emptying-Within =
      subst (λ r. Within r s emptying)
        (ground (arith, sound.linked.has_info parent_of label_of a linked_at, path_at))
        emptying-Emptied.within

  pub empty-none : (k : Text) → child_at (some a) k emptying ≡ none
  empty-none k = elim (Option-cases (child_at (some a) k emptying)) [
    | inl x ↦ x
    | inr (c, x) ↦
        emptying-Emptied.gone k
          (any-sub_labels a k c s (child_at-Within (some a) k c emptying-Within x))
  ]

  emptying-entry : get q emptying.all_lockers ≡ some a
  emptying-entry =
      ap (λ r. get r emptying.all_lockers)
        (path_at ∙ ap (λ r. r ++ label_of ∷ []) (sym (path_of-Within parent_of emptying-Within)))
      ∙ emptying-Emptied.linked.has_entry parent_of label_of a
          (emptying-Emptied.kept parent_of label_of linked_at)

  below_empty :
      (p : List Text) → (q == p) ≡ false → ¬ (Climbed q emptying empty-IsSound is_prefix-nil p)
  below_empty p other (x, e, inl same) = cc
  below_empty p other (x, e, inr (k, c, h)) =
      ground (arith, e, emptying-entry, ap (λ z. child_at (some z) k emptying), empty-none k, h)

  -- The lockers below a locker that is emptied are gone, and no others.
  pub empty-entries :
      (p : List Text)
      → get p emptying.all_lockers
        ≡ (if is_prefix q p && not (q == p) then none else get p s.all_lockers)
  empty-entries p = elim (Bool-cases (is_prefix q p)) [
    | inr outside ↦
        rw outside (get-outside sound.linked emptying-Emptied.linked emptying-Within p outside)
    | inl under ↦ elim (Bool-cases (q == p)) [
      | inl same ↦
          let e = (eq_iff q p).0 same in
          rw (under, same)
            (ap (λ r. get r emptying.all_lockers) (sym e)
              ∙ emptying-entry
              ∙ sym at
              ∙ ap (λ r. get r s.all_lockers) e)
      | inr other ↦
          rw (under, other)
            (elim (Option-cases (get p emptying.all_lockers)) [
              | inl x ↦ x
              | inr (b, x) ↦
                  absurd (
                    below_empty p other
                      (climbed q emptying empty-IsSound is_prefix-nil p b x under))
            ])
    ]
  ]
