-- ===== src/Locker/Labeled/Unlinking.antt =====
-- A locker taken out of its parent's map and of allLockers (locker.go, the first part of deleteLocker).
use goto.Prelude.{
  ℕ, ◌≡◌, ap, sym, ◌∙◌, arith, Bool, true, false, ◌&&◌, ◌||◌, Option, none, some, List, [], ◌∷◌,
  ◌++◌, inl, inr, if◌then◌else◌, Bool-cases, Text, text_eq, ◌==◌, eq_iff, eq_refl, nat_beq, nat_eq,
}
use goto.Prelude.Dict.{get, get-delete}
use goto.Locker.Labels.{labels_eq}
use goto.Locker.Labeled.{Node, LabeledLockers, child_at, path_of, cut_link}
use goto.Locker.Labeled.Clearing.{unlink}
use goto.Locker.Labeled.Linked.{
  IsLinked, IsRooted, info, same_parent, same_parent_iff, same_parent_refl, path_of-info,
  info-cut_link, child_at-cut_link, cut_link-rest, fresh-cut_link,
}

module _ (a : ℕ) (n : Node) (s : LabeledLockers) where
  pub child_at-unlink :
      (o : Option ℕ) (l : Text)
      → child_at o l (unlink n s)
        ≡ (if same_parent n.parent o && n.locker.label == l then none else child_at o l s)
  unfolding child_at
  child_at-unlink none l = child_at-cut_link n.parent none n.locker.label l s
  child_at-unlink (some b) l = child_at-cut_link n.parent (some b) n.locker.label l s

  pub info-unlink : (b : ℕ) → info b (unlink n s) ≡ info b s
  info-unlink b = info-cut_link b n.parent n.locker.label s

  pub path_of-unlink : (o : Option ℕ) → path_of o (unlink n s) ≡ path_of o s
  path_of-unlink o = path_of-info o s (unlink n s) info-unlink

  entry-unlink :
      (p : List Text)
      → get p (unlink n s).all_lockers ≡ (if n.path_label == p then none else get p s.all_lockers)
  entry-unlink p = ground (
    arith,
    get-delete n.path_label p (cut_link n.parent n.locker.label s).all_lockers,
    cut_link-rest n.parent n.locker.label s,
  )

  -- What is linked then was linked before, from elsewhere.
  pub child_at-unlink-some :
      (o : Option ℕ) (l : Text) (b : ℕ)
      → child_at o l (unlink n s) ≡ some b
      → (child_at o l s ≡ some b) × ((same_parent n.parent o && n.locker.label == l) ≡ false)
  child_at-unlink-some o l b h = ground (arith, child_at-unlink o l)

  module _ (lk : IsLinked s) (here : get a s.store ≡ some n)
      (at : child_at n.parent n.locker.label s ≡ some a) where
    node_path : n.path_label ≡ path_of n.parent s ++ n.locker.label ∷ []
    node_path = ground (arith, here, lk.has_info n.parent n.locker.label a at)

    -- No other link leads to the locker.
    pub link_unique :
        (o : Option ℕ) (l : Text)
        → child_at o l s ≡ some a
        → (same_parent n.parent o && n.locker.label == l) ≡ true
    link_unique o l h = ground (arith, here, lk.has_info o l a h, same_parent_refl o, eq_refl l)

    -- No other locker has its path.
    path_unique :
        (o : Option ℕ) (l : Text) (b : ℕ)
        → child_at o l s ≡ some b
        → n.path_label ≡ path_of o s ++ l ∷ []
        → b ≡ a
    path_unique o l b h e =
        let x : some b ≡ some a =
          sym (lk.has_entry o l b h)
          ∙ ap (λ p. get p s.all_lockers) (sym e ∙ node_path)
          ∙ lk.has_entry n.parent n.locker.label a at in
        cc

    -- All other links stay.
    pub child_at-unlink_ne :
        (o : Option ℕ) (l : Text) (b : ℕ)
        → child_at o l s ≡ some b
        → nat_beq a b ≡ false
        → child_at o l (unlink n s) ≡ some b
    child_at-unlink_ne o l b h ne =
        elim (Bool-cases (same_parent n.parent o && n.locker.label == l)) [
          | inl same ↦ ground (arith, at, same, same_parent_iff n.parent o, eq_iff n.locker.label l)
          | inr other ↦ ground (arith, other, child_at-unlink o l)
        ]

    entry_stays :
        (o : Option ℕ) (l : Text) (b : ℕ)
        → child_at o l (unlink n s) ≡ some b
        → get (path_of o s ++ l ∷ []) (unlink n s).all_lockers ≡ some b
    entry_stays o l b h =
        let (h', off) = child_at-unlink-some o l b h in
        elim (Bool-cases (n.path_label == path_of o s ++ l ∷ [])) [
          | inl same ↦
              let e = path_unique o l b h' ((eq_iff n.path_label (path_of o s ++ l ∷ [])).0 same) in
              ground (arith, e, link_unique o l)
          | inr other ↦
              ground (arith, other, entry-unlink (path_of o s ++ l ∷ []), lk.has_entry o l b)
        ]

    entry_was :
        (p : List Text) (b : ℕ)
        → get p (unlink n s).all_lockers ≡ some b
        → (get p s.all_lockers ≡ some b) × ((n.path_label == p) ≡ false)
    entry_was p b h = ground (arith, entry-unlink p)

    ne_of_path :
        (o : Option ℕ) (l : Text) (b : ℕ)
        → child_at o l s ≡ some b
        → (n.path_label == path_of o s ++ l ∷ []) ≡ false
        → nat_beq a b ≡ false
    ne_of_path o l b h off =
        ground (arith, lk.has_info o l b h, here, eq_iff n.path_label (path_of o s ++ l ∷ []))

    pub unlink-IsLinked : IsLinked (unlink n s)
    unlink-IsLinked = record {
      fresh = λ b h.
          fresh-cut_link b n.parent n.locker.label s
            (lk.fresh b (ground (arith, cut_link-rest n.parent n.locker.label s)));
      has_info = λ o l b h.
          ground (
            arith,
            child_at-unlink-some o l b h,
            info-unlink b,
            path_of-unlink o,
            lk.has_info o l b,
          );
      below = λ x l b h. lk.below x l b (child_at-unlink-some (some x) l b h).0;
      has_entry = λ o l b h.
          ap (λ q. get (q ++ l ∷ []) (unlink n s).all_lockers) (path_of-unlink o)
          ∙ entry_stays o l b h;
      entry = λ p b h.
          let (h', off) = entry_was p b h in
          let (o, l, c, e) = lk.entry p b h' in
          (
            o,
            l,
            child_at-unlink_ne o l b c
                (ne_of_path o l b c (ap (λ q. n.path_label == q) (sym e) ∙ off)),
            e ∙ ap (λ q. q ++ l ∷ []) (sym (path_of-unlink o)),
          );
    }

    pub unlink-IsRooted :
        (e : ℕ → Bool) → IsRooted e s → IsRooted (λ x. e x || nat_beq a x) (unlink n s)
    unlink-IsRooted e r x l b h k =
        let (h', off) = child_at-unlink-some (some x) l b h in
        let (o, m, c) = r x l b h' (ground arith) in
        (o, m, child_at-unlink_ne o m x c (ground arith))
