-- ===== src/Locker/Labeled/Making.antt =====
-- A locker made below another, or at the top (locker.go, unsafeCreateOrGetLocker).
use goto.Prelude.{
  ℕ, suc, ◌≡◌, ◌<◌, refl, ap, ap₂, sym, ◌∙◌, arith, ◌&&◌, Option, none, some, List, [], ◌∷◌, ◌++◌,
  inl, inr, if◌then◌else◌, Option-cases, Text, text_eq, ◌==◌, eq_iff, nat_eq,
}
use goto.Prelude.Dict.{get, put, get-put, get_empty}
use goto.Locker.Tree.{empty}
use goto.Locker.Labels.{labels_eq, nil_ne_snoc, snoc_inj}
use goto.Locker.Labeled.{
  LabeledLockers, child_at, path_of, new_node, with_sub, link, allocate, make_locker,
}
use goto.Locker.Labeled.Linked.{
  IsLinked, info, own_data, own_data-with_node, same_parent, get-with_node, with_node-rest,
  info-with_node,
}
use goto.Locker.Labeled.Deleting.{linked_node}
use goto.Locker.Labeled.Entries.{IsSound}

-- The parent of a locker that is made: the top, or a linked locker.
abbrev pub Hangs : Option ℕ → LabeledLockers → Type 0
Hangs none s = Unit {0}
Hangs (some b) s = (o : Option ℕ) × (l : Text) × (child_at o l s ≡ some b)

module _ (now : ℕ) (s : LabeledLockers) (lk : IsLinked s) where
  -- A linked locker is in the store.
  pub in_store : (o : Option ℕ) (l : Text) (b : ℕ) → child_at o l s ≡ some b → b < s.next
  in_store o l b h = ground (arith, lk.has_info o l b h, lk.fresh b)

  abbrev pub BelowNext : Option ℕ → Type 0
  BelowNext none = Unit {0}
  BelowNext (some b) = b < s.next

  pub Hangs-BelowNext : (o : Option ℕ) → Hangs o s → BelowNext o
  Hangs-BelowNext none h = tt
  Hangs-BelowNext (some b) (o, l, c) = in_store o l b c

  abbrev pub made : List Text → Option ℕ → Text → LabeledLockers
  made path o l = make_locker now path o l s

  pub store-made :
      (path : List Text) (o : Option ℕ) (l : Text) (b : ℕ)
      → BelowNext o
      → info b (made path o l) ≡ (
          if s.next == b
          then some (record { parent = o; label = l; path = path_of o s ++ l ∷ [] })
          else info b s)
  unfolding make_locker link
  store-made path none l b h =
      ground (arith, get-put s.next b (new_node now none l s) s.store, eq_iff s.next b)
  store-made path (some x) l b h =
      info-with_node x b (with_sub l s.next) (allocate (new_node now (some x) l s) s) (λ n. refl)
      ∙ ground (arith, get-put s.next b (new_node now (some x) l s) s.store, eq_iff s.next b)

  pub own_data-made :
      (path : List Text) (o : Option ℕ) (l : Text) (b : ℕ)
      → Hangs o s
      → own_data b (made path o l) ≡ (if s.next == b then empty else own_data b s)
  unfolding make_locker link
  own_data-made path none l b h =
      ground (arith, get-put s.next b (new_node now none l s) s.store, eq_iff s.next b)
  own_data-made path (some x) l b h =
      own_data-with_node x b (with_sub l s.next) (allocate (new_node now (some x) l s) s)
        (λ n. refl)
      ∙ ground (arith, get-put s.next b (new_node now (some x) l s) s.store, eq_iff s.next b)

  pub child_at-made :
      (path : List Text) (o : Option ℕ) (l : Text) (o' : Option ℕ) (l' : Text)
      → Hangs o s
      → child_at o' l' (made path o l)
        ≡ (if same_parent o o' && l == l' then some s.next else child_at o' l' s)
  unfolding make_locker link child_at
  child_at-made path none l none l' h = ground (arith, get-put l l' s.next s.lockers)
  child_at-made path none l (some y) l' h = ground (
    arith,
    get-put s.next y (new_node now none l s) s.store,
    eq_iff s.next y,
    lk.fresh y,
    get_empty {V = ℕ} l',
  )
  child_at-made path (some x) l none l' h =
      ap (λ m. get l' m)
        (with_node-rest x (with_sub l s.next) (allocate (new_node now (some x) l s) s)).0
  child_at-made path (some x) l (some y) l' (o, m, c) =
      let (n, e, _, _) = linked_node o m x s lk c in
      ground (
        arith,
        e,
        in_store o m x c,
        get-with_node x y (with_sub l s.next) (allocate (new_node now (some x) l s) s),
        get-put s.next y (new_node now (some x) l s) s.store,
        get-put s.next x (new_node now (some x) l s) s.store,
        eq_iff s.next y,
        eq_iff s.next x,
        eq_iff x y,
        lk.fresh y,
        get_empty {V = ℕ} l',
        get-put l l' s.next n.sub_lockers,
      )

  pub rest-made :
      (path : List Text) (o : Option ℕ) (l : Text)
      → ((made path o l).all_lockers ≡ put path s.next s.all_lockers)
        × ((made path o l).next ≡ suc s.next)
        × ((made path o l).current_locker ≡ s.current_locker)
  unfolding make_locker link
  rest-made path none l = (refl, refl, refl)
  rest-made path (some x) l =
      let (_, e, f, g) =
        with_node-rest x (with_sub l s.next) (allocate (new_node now (some x) l s) s) in
      (ap (put path s.next) e, f, g)

  pub path_of-made :
      (path : List Text) (o : Option ℕ) (l : Text) (o' : Option ℕ)
      → BelowNext o
      → BelowNext o'
      → path_of o' (made path o l) ≡ path_of o' s
  path_of-made path o l none h k = refl
  path_of-made path o l (some y) h k = ground (arith, store-made path o l y h, eq_iff s.next y)

module _ (now : ℕ) (s : LabeledLockers) (sound : IsSound s) where
  pub path_of-linked :
      (o : Option ℕ) (l : Text) (b : ℕ)
      → child_at o l s ≡ some b
      → path_of (some b) s ≡ path_of o s ++ l ∷ []
  path_of-linked o l b h = ground (arith, sound.linked.has_info o l b h)

  -- The parent of a linked locker is the top, or linked.
  pub parent-Hangs : (o : Option ℕ) (l : Text) (b : ℕ) → child_at o l s ≡ some b → Hangs o s
  parent-Hangs none l b h = tt
  parent-Hangs (some a) l b h = sound.rooted a l b h refl

  pub entry_in_store : (p : List Text) (b : ℕ) → get p s.all_lockers ≡ some b → b < s.next
  entry_in_store p b h =
      let (o, l, c, e) = sound.linked.entry p b h in in_store now s sound.linked o l b c

  pub path_of-entry : (b : ℕ) → Hangs (some b) s → get (path_of (some b) s) s.all_lockers ≡ some b
  path_of-entry b (o, l, c) =
      ap (λ p. get p s.all_lockers) (path_of-linked o l b c) ∙ sound.linked.has_entry o l b c

  -- Its path tells a locker from others.
  path_of-inj : (o o' : Option ℕ) → Hangs o s → Hangs o' s → path_of o s ≡ path_of o' s → o ≡ o'
  path_of-inj none none h k e = refl
  path_of-inj none (some b) h (o, l, c) e =
      absurd (nil_ne_snoc (path_of o s) l (e ∙ path_of-linked o l b c))
  path_of-inj (some a) none (o, l, c) k e =
      absurd (nil_ne_snoc (path_of o s) l (sym e ∙ path_of-linked o l a c))
  path_of-inj (some a) (some b) h k e =
      sym (path_of-entry a h) ∙ ap (λ p. get p s.all_lockers) e ∙ path_of-entry b k

  -- Where no locker is linked, allLockers has none.
  pub free_entry :
      (o : Option ℕ) (l : Text)
      → Hangs o s
      → child_at o l s ≡ none
      → get (path_of o s ++ l ∷ []) s.all_lockers ≡ none
  free_entry o l h free = elim (Option-cases (get (path_of o s ++ l ∷ []) s.all_lockers)) [
    | inl x ↦ x
    | inr (b, x) ↦
        let (o', l', c, e) = sound.linked.entry (path_of o s ++ l ∷ []) b x in
        let (p, m) = snoc_inj (path_of o s) (path_of o' s) l l' e in
        let same = path_of-inj o o' h (parent-Hangs o' l' b c) p in
        let c' : none ≡ some b = sym free ∙ ap₂ (λ q k. child_at q k s) same m ∙ c in absurd (cc)
  ]
