-- ===== src/Filter/Entries.antt =====
-- A test of all entries of one of a filter's maps, by the keys that can have one.
use goto.Prelude.{
  ◌≡◌, refl, arith, Bool, true, false, ◌&&◌, ◌||◌, Option, none, some, List, [], ◌∷◌, any, Text,
  text_eq, ◌==◌, eq_iff, eq_refl, if◌then◌else◌, Bool-cases, inl, inr, ap, sym,
}
use goto.Prelude.Dict.{Dict, get, put, delete, values, get-put, get-delete, get_empty}

abbrev pub is_named : Text → List Text → Bool
is_named k = any (λ i. i == k)

module _ {V : Type 0} where
  -- Each key has one entry.
  abbrev pub AreDistinct : Dict Text V → Type 0
  AreDistinct [] = Unit
  AreDistinct ((k, v) ∷ m) = (get k m ≡ none) × AreDistinct m

  pub put-AreDistinct :
      (k : Text) (v : V) (m : Dict Text V) → AreDistinct m → AreDistinct (put k v m)
  unfolding put
  put-AreDistinct k v [] d = (get_empty k, tt)
  put-AreDistinct k v ((j, w) ∷ m) d =
      ground (arith, put-AreDistinct k v m d.1, get-put k j v m, eq_iff j k, eq_iff k j)

  pub delete-AreDistinct : (k : Text) (m : Dict Text V) → AreDistinct m → AreDistinct (delete k m)
  unfolding delete
  delete-AreDistinct k [] d = tt
  delete-AreDistinct k ((j, w) ∷ m) d =
      ground (arith, delete-AreDistinct k m d.1, get-delete k j m, eq_iff j k, eq_iff k j)

  -- Whether there is an entry and it passes the test.
  abbrev pub holds : (V → Bool) → Option V → Bool
  holds p none = false
  holds p (some v) = p v

  any_or :
      (f : Text → Option V) (p : V → Bool) (v : V) (j : Text) (ks : List Text)
      → f j ≡ none
      → any (λ k. holds p (if j == k then some v else f k)) ks
        ≡ (is_named j ks && p v || any (λ k. holds p (f k)) ks)
  any_or f p v j [] e = refl
  any_or f p v j (k ∷ ks) e = elim (Bool-cases (j == k)) [
    | inl same ↦
        ground
          (arith, any_or f p v j ks e, same, eq_iff j k, eq_iff k j, ap f ((eq_iff j k).0 same))
    | inr other ↦ ground (arith, any_or f p v j ks e, other, eq_iff j k, eq_iff k j)
  ]

  get_tail : (j k : Text) (v : V) (m : Dict Text V) → get k ((j, v) ∷ m) ≡ none → get k m ≡ none
  unfolding get
  get_tail j k v m e = ground arith

  get_head : (j : Text) (v : V) (m : Dict Text V) → ¬ (get j ((j, v) ∷ m) ≡ none)
  unfolding get
  get_head j v m e = ground (arith, eq_refl j)

  any_none : (p : V → Bool) (ks : List Text) → any (λ k. holds p (get k [])) ks ≡ false
  unfolding get
  any_none p [] = refl
  any_none p (k ∷ ks) = any_none p ks

  -- The test of all entries is the test of the entry of each key, in any list of keys that leaves out no
  -- entry's key.
  pub any-values :
      (p : V → Bool) (m : Dict Text V) (ks : List Text)
      → AreDistinct m
      → ((k : Text) → is_named k ks ≡ false → get k m ≡ none)
      → any p (values m) ≡ any (λ k. holds p (get k m)) ks
  unfolding get
  any-values p [] ks d named = sym (any_none p ks)
  any-values p ((j, v) ∷ m) ks d named =
      let rest = any-values p m ks d.1 (λ k e. get_tail j k v m (named k e)) in
      let there : is_named j ks ≡ true = elim (Bool-cases (is_named j ks)) [
        | inl e ↦ e
        | inr e ↦ absurd (get_head j v m (named j e))
      ] in
      ground (arith, rest, there, any_or (λ k. get k m) p v j ks d.0)
