-- ===== src/Locker/Labeled/Made.antt =====
-- That a locker made keeps the others and fits with them (locker.go, unsafeCreateOrGetLocker).
use goto.Prelude.{
  ℕ, ◌≡◌, ◌≤◌, ◌<◌, refl, ap, ap₂, subst, sym, ◌∙◌, arith, false, ◌&&◌, Option, none, some, List,
  [], ◌∷◌, ◌++◌, ◌⊎◌, inl, inr, if◌then◌else◌, Bool-cases, Text, text_eq, ◌==◌, eq_iff, eq_refl,
  nat_eq,
}
use goto.Prelude.Dict.{get, get-put}
use goto.Locker.Labels.{labels_eq}
use goto.Locker.Labeled.{LabeledLockers, child_at, path_of, make_locker}
use goto.Locker.Labeled.Linked.{IsRooted, info, same_parent, same_parent_iff, same_parent_refl}
use goto.Locker.Labeled.Entries.{IsSound}
use goto.Locker.Labeled.Making.{
  Hangs, in_store, BelowNext, Hangs-BelowNext, store-made, child_at-made, rest-made, path_of-made,
  parent-Hangs, free_entry,
}

module _ (now : ℕ) (s : LabeledLockers) (sound : IsSound s) (path : List Text) (o : Option ℕ)
    (l : Text) (hangs : Hangs o s) (free : child_at o l s ≡ none)
    (named : path ≡ path_of o s ++ l ∷ []) where
  abbrev t : LabeledLockers
  t = make_locker now path o l s

  -- A link is the new one or an old one.
  child_at-made_some :
      (o' : Option ℕ) (l' : Text) (b : ℕ)
      → child_at o' l' t ≡ some b
      → ((b ≡ s.next) × (o ≡ o') × (l ≡ l')) ⊎ (child_at o' l' s ≡ some b)
  child_at-made_some o' l' b h = elim (Bool-cases (same_parent o o' && l == l')) [
    | inl same ↦ inl (
        ground (
          arith,
          h,
          same,
          child_at-made now s sound.linked path o l o' l' hangs,
          same_parent_iff o o',
          eq_iff l l',
        ))
    | inr other ↦
        inr (ground (arith, h, other, child_at-made now s sound.linked path o l o' l' hangs))
  ]

  old_stays :
      (o' : Option ℕ) (l' : Text) (b : ℕ) → child_at o' l' s ≡ some b → child_at o' l' t ≡ some b
  old_stays o' l' b h = elim (Bool-cases (same_parent o o' && l == l')) [
    | inl same ↦ absurd (ground (arith, h, same, free, same_parent_iff o o', eq_iff l l'))
    | inr other ↦ ground (arith, h, other, child_at-made now s sound.linked path o l o' l' hangs)
  ]

  pub new_there : child_at o l t ≡ some s.next
  new_there =
      ground
        (arith, child_at-made now s sound.linked path o l o l hangs, same_parent_refl o, eq_refl l)

  pub make_locker-entries :
      (p : List Text)
      → get p t.all_lockers ≡ (if path == p then some s.next else get p s.all_lockers)
  make_locker-entries p =
      ground (arith, get-put path p s.next s.all_lockers, rest-made now s sound.linked path o l)

  store_below : BelowNext now s sound.linked o
  store_below = Hangs-BelowNext now s sound.linked o hangs

  pub paths_stay : (o' : Option ℕ) → Hangs o' s → path_of o' t ≡ path_of o' s
  paths_stay o' h =
      path_of-made now s sound.linked path o l o' store_below
        (Hangs-BelowNext now s sound.linked o' h)

  info_stays : (b : ℕ) → b < s.next → info b t ≡ info b s
  info_stays b h =
      ground (arith, store-made now s sound.linked path o l b store_below, eq_iff s.next b)

  has_info-made :
      (o' : Option ℕ) (l' : Text) (b : ℕ)
      → child_at o' l' t ≡ some b
      → info b t ≡ some (record { parent = o'; label = l'; path = path_of o' t ++ l' ∷ [] })
  has_info-made o' l' b h = elim (child_at-made_some o' l' b h) [
    | inl (e, f, g) ↦ ground (
      arith,
      e,
      f,
      g,
      store-made now s sound.linked path o l b store_below,
      eq_iff s.next b,
      paths_stay o hangs,
    )
    | inr c ↦
        let k = parent-Hangs now s sound o' l' b c in
        ground (
          arith,
          info_stays b (in_store now s sound.linked o' l' b c),
          sound.linked.has_info o' l' b c,
          paths_stay o' k,
        )
  ]

  below-made : (a : ℕ) (l' : Text) (b : ℕ) → child_at (some a) l' t ≡ some b → a < b
  below-made a l' b h = elim (child_at-made_some (some a) l' b h) [
    | inl (e, f, g) ↦ rw e (subst (BelowNext now s sound.linked) f store_below)
    | inr c ↦ sound.linked.below a l' b c
  ]

  has_entry-made :
      (o' : Option ℕ) (l' : Text) (b : ℕ)
      → child_at o' l' t ≡ some b
      → get (path_of o' t ++ l' ∷ []) t.all_lockers ≡ some b
  has_entry-made o' l' b h = elim (child_at-made_some o' l' b h) [
    | inl (e, f, g) ↦
        let p : path_of o' t ++ l' ∷ [] ≡ path =
          ap (λ q. path_of q t ++ l' ∷ []) (sym f)
          ∙ ap₂ (λ q k. q ++ k ∷ []) (paths_stay o hangs) (sym g)
          ∙ sym named in
        ground (arith, e, p, make_locker-entries path, eq_refl path)
    | inr c ↦
        let p = ap (λ q. q ++ l' ∷ []) (paths_stay o' (parent-Hangs now s sound o' l' b c)) in
        ground (
          arith,
          p,
          make_locker-entries (path_of o' s ++ l' ∷ []),
          eq_iff path (path_of o' s ++ l' ∷ []),
          sound.linked.has_entry o' l' b c,
          free_entry now s sound o l hangs free,
          named,
        )
  ]

  entry-made :
      (p : List Text) (b : ℕ)
      → get p t.all_lockers ≡ some b
      → (o' : Option ℕ) × (l' : Text) × (child_at o' l' t ≡ some b) × (p ≡ path_of o' t ++ l' ∷ [])
  entry-made p b h = elim (Bool-cases (path == p)) [
    | inl same ↦
        let e : s.next ≡ b = ground (arith, same, h, make_locker-entries p) in
        (
          o,
          l,
          new_there ∙ ap some e,
          sym ((eq_iff path p).0 same) ∙ named ∙ ap (λ q. q ++ l ∷ []) (sym (paths_stay o hangs)),
        )
    | inr other ↦
        let (o', l', c, e) =
          sound.linked.entry p b (ground (arith, other, h, make_locker-entries p)) in
        (
          o',
          l',
          old_stays o' l' b c,
          e ∙ ap (λ q. q ++ l' ∷ []) (sym (paths_stay o' (parent-Hangs now s sound o' l' b c))),
        )
  ]

  fresh-made : (a : ℕ) → t.next ≤ a → get a t.store ≡ none
  fresh-made a h =
      let lt : s.next < a = ground (arith, h, rest-made now s sound.linked path o l) in
      ground (
        arith,
        sound.linked.fresh a,
        store-made now s sound.linked path o l a store_below,
        eq_iff s.next a,
      )

  Hangs-made : (o' : Option ℕ) → Hangs o' s → Hangs o' t
  Hangs-made none h = tt
  Hangs-made (some a) (o', l', c) = (o', l', old_stays o' l' a c)

  IsRooted-made : IsRooted (λ _. false) t
  IsRooted-made a l' b h e = elim (child_at-made_some (some a) l' b h) [
    | inl (_, f, _) ↦ Hangs-made (some a) (subst (λ q. Hangs q s) f hangs)
    | inr c ↦ Hangs-made (some a) (sound.rooted a l' b c refl)
  ]

  pub make_locker-IsSound : IsSound t
  make_locker-IsSound = record {
    linked = record {
      fresh = fresh-made;
      has_info = has_info-made;
      below = below-made;
      has_entry = has_entry-made;
      entry = entry-made;
    };
    rooted = IsRooted-made;
  }
