-- ===== src/Locker/Labeled/Entries.antt =====
-- What deleting lockers leaves in allLockers (locker.go, deleteLocker and ClearLocker).
use goto.Prelude.{
  ℕ, zero, suc, ◌≡◌, ◌<◌, refl, ap, subst, sym, ◌∙◌, arith, true, false, Option, none, some, List,
  [], ◌∷◌, ◌++◌, ◌⊎◌, inl, inr, Bool-cases, Option-cases, Text, text_eq, ◌==◌, eq_iff, nat_eq,
}
use goto.Prelude.Dict.{get}
use goto.Locker.Labels.{labels_eq, is_prefix, is_prefix-snoc}
use goto.Locker.Labeled.{LabeledLockers, child_at, path_of}
use goto.Locker.Labeled.Linked.{IsLinked, IsRooted}
use goto.Locker.Labeled.Cutting.{Within, child_at-Within, path_of-Within}

-- The lockers fit together, and every linked locker hangs on the top.
pub record IsSound (s : LabeledLockers) : Type 0 where
  pub linked : IsLinked s
  pub rooted : IsRooted (λ _. false) s

module _ {q : List Text} {s t : LabeledLockers} (lk : IsLinked s) (lk' : IsLinked t)
    (w : Within q s t) where
  -- No entry is new.
  pub entry-Within :
      (p : List Text) (b : ℕ) → get p t.all_lockers ≡ some b → get p s.all_lockers ≡ some b
  entry-Within p b h =
      let (o, l, c, e) = lk'.entry p b h in
      ap (λ r. get r s.all_lockers) (e ∙ ap (λ r. r ++ l ∷ []) (path_of-Within o w))
      ∙ lk.has_entry o l b (child_at-Within o l b w c)

  -- An entry whose path does not begin with q stays.
  entry_outside :
      (p : List Text) (b : ℕ)
      → is_prefix q p ≡ false
      → get p s.all_lockers ≡ some b
      → get p t.all_lockers ≡ some b
  entry_outside p b h k =
      let (o, l, c, e) = lk.entry p b k in
      let c' : child_at o l t ≡ some b = ground (arith, w.links o l, ap (is_prefix q) e) in
      ap (λ r. get r t.all_lockers) (e ∙ sym (ap (λ r. r ++ l ∷ []) (path_of-Within o w)))
      ∙ lk'.has_entry o l b c'

  pub get-outside :
      (p : List Text) → is_prefix q p ≡ false → get p t.all_lockers ≡ get p s.all_lockers
  get-outside p h = elim (Option-cases (get p t.all_lockers)) [
    | inr (b, x) ↦ x ∙ sym (entry-Within p b x)
    | inl x ↦ elim (Option-cases (get p s.all_lockers)) [
      | inl y ↦ x ∙ sym y
      | inr (b, y) ↦ entry_outside p b h y ∙ sym y
    ]
  ]

-- Up from a linked locker to one whose path its path begins with: that is the locker, or has lockers below.
module _ (q : List Text) (t : LabeledLockers) (sound : IsSound t)
    (some_label : is_prefix q [] ≡ false) where
  abbrev pub Climbed : List Text → Type 0
  Climbed p =
      (x : ℕ) × (get q t.all_lockers ≡ some x)
      × (((q == p) ≡ true) ⊎ ((k : Text) × (c : ℕ) × (child_at (some x) k t ≡ some c)))

  climb_to :
      (o : Option ℕ) (l : Text) (b : ℕ)
      → child_at o l t ≡ some b
      → (q == path_of o t ++ l ∷ []) ≡ true
      → Climbed (path_of o t ++ l ∷ [])
  climb_to o l b h same = (
    b,
    ap (λ r. get r t.all_lockers) ((eq_iff q (path_of o t ++ l ∷ [])).0 same)
        ∙ sound.linked.has_entry o l b h,
    inl same,
  )

  same_locker :
      (x y : ℕ) (o : Option ℕ) (k : Text)
      → child_at o k t ≡ some y
      → get q t.all_lockers ≡ some x
      → (q == path_of o t ++ k ∷ []) ≡ true
      → x ≡ y
  same_locker x y o k c e same =
      let z : some x ≡ some y =
        sym e
        ∙ ap (λ r. get r t.all_lockers) ((eq_iff q (path_of o t ++ k ∷ [])).0 same)
        ∙ sound.linked.has_entry o k y c in
      cc

  climb_past :
      (y : ℕ) (l : Text) (b : ℕ) (o : Option ℕ) (k : Text)
      → child_at (some y) l t ≡ some b
      → child_at o k t ≡ some y
      → Climbed (path_of o t ++ k ∷ [])
      → Climbed (path_of (some y) t ++ l ∷ [])
  climb_past y l b o k h c (x, e, inl same) =
      (x, e, inr (l, b, ap (λ z. child_at (some z) l t) (same_locker x y o k c e same) ∙ h))
  climb_past y l b o k h c (x, e, inr below) = (x, e, inr below)

  parent_prefix :
      (y : ℕ) (l : Text) (b : ℕ) (o : Option ℕ) (m : Text)
      → child_at (some y) l t ≡ some b
      → child_at o m t ≡ some y
      → is_prefix q (path_of (some y) t ++ l ∷ []) ≡ true
      → (q == path_of (some y) t ++ l ∷ []) ≡ false
      → is_prefix q (path_of o t ++ m ∷ []) ≡ true
  parent_prefix y l b o m h c k other =
      ground (arith, is_prefix-snoc q (path_of (some y) t) l, sound.linked.has_info o m y c)

  climb :
      (fuel : ℕ) (o : Option ℕ) (l : Text) (b : ℕ)
      → b < fuel
      → child_at o l t ≡ some b
      → is_prefix q (path_of o t ++ l ∷ []) ≡ true
      → Climbed (path_of o t ++ l ∷ [])
  climb zero o l b lt h k = absurd (omega arith)
  climb (suc fuel) none l b lt h k = climb_to none l b h (ground (arith, is_prefix-snoc q [] l))
  climb (suc fuel) (some y) l b lt h k = elim (Bool-cases (q == path_of (some y) t ++ l ∷ [])) [
    | inl same ↦ climb_to (some y) l b h same
    | inr other ↦
        let (o, m, c) = sound.rooted y l b h refl in
        climb_past y l b o m h c (
          climb fuel o m y (omega (arith, sound.linked.below y l b h)) c
            (parent_prefix y l b o m h c k other))
  ]

  pub climbed :
      (p : List Text) (b : ℕ) → get p t.all_lockers ≡ some b → is_prefix q p ≡ true → Climbed p
  climbed p b h k =
      let (o, l, c, e) = sound.linked.entry p b h in
      subst Climbed (sym e) (climb (suc b) o l b (omega arith) c (ap (is_prefix q) (sym e) ∙ k))
