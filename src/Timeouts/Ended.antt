-- ===== src/Timeouts/Ended.antt =====
-- A request that ends with no other in between (timeout.go, middlewareFunc).
use goto.Prelude.{
  ℕ, ◌≡◌, refl, ap, sym, subst, arith, Bool, true, false, Option, none, some, [], ◌∷◌, Text,
  text_eq, eq_iff, eq_refl, ◌∙◌, Option-cases, inl, inr, ◌⊎◌, All,
}
use goto.Prelude.Dict.{Dict, get, put, get-put, get_empty}
use goto.Timeouts.{
  TimeoutData, new_timeout_data, HeadersMap, TimeoutTracking, Tracked, or_no_values, with_value,
  see_value, see_headers, arrive, counted, count_value, count_values, count_all, end_request,
}

abbrev pub is_some : Option TimeoutData → Bool
is_some none = false
is_some (some d) = true

-- There is an entry for a header's value.
abbrev pub is_seen : Text → Text → HeadersMap → Bool
is_seen h v m = is_some (get v (or_no_values (get h m)))

get-with_value :
    (v w : Text) (m : Dict Text TimeoutData)
    → is_some (get w m) ≡ true
    → is_some (get w (with_value v m)) ≡ true
get-with_value v w m e = ground (arith, e, get-put v w new_timeout_data m)

with_value-there : (v : Text) (m : Dict Text TimeoutData) → is_some (get v (with_value v m)) ≡ true
with_value-there v m = ground (arith, get-put v v new_timeout_data m, eq_refl v)

see_value-there : (h v : Text) (m : HeadersMap) → is_seen h v (see_value h v m) ≡ true
see_value-there h v m = ground (
  arith,
  get-put h h (with_value v (or_no_values (get h m))) m,
  eq_refl h,
  with_value-there v (or_no_values (get h m)),
)

see_value-keeps :
    (h v j w : Text) (m : HeadersMap) → is_seen j w m ≡ true → is_seen j w (see_value h v m) ≡ true
see_value-keeps h v j w m e = ground (
  arith,
  e,
  get-put h j (with_value v (or_no_values (get h m))) m,
  eq_iff h j,
  get-with_value v w (or_no_values (get h m)),
)

pub Text-cases : (t : Text) → (t ≡ []) ⊎ ((c : ℕ) × (s : Text) × (t ≡ c ∷ s))
Text-cases [] = inl refl
Text-cases (c ∷ s) = inr (c, s, refl)

module _ (header_get : Text → Text) (h : Text) (values : Dict Text TimeoutData)
    (rest m : HeadersMap) where
  pub see_headers-skip :
      header_get h ≡ []
      → see_headers header_get ((h, values) ∷ rest) m ≡ see_headers header_get rest m
  unfolding see_headers
  see_headers-skip e = ground (arith, e)

  pub see_headers-see :
      (c : ℕ) (v : Text)
      → header_get h ≡ c ∷ v
      → see_headers header_get ((h, values) ∷ rest) m ≡ (
        (see_headers header_get rest (see_value h (c ∷ v) m)).0,
        (h, c ∷ v) ∷ (see_headers header_get rest (see_value h (c ∷ v) m)).1,
      )
  unfolding see_headers
  see_headers-see c v e = ground (arith, e)

module _ (header_get : Text → Text) where
  see_headers-keeps :
      (rest m : HeadersMap) (j w : Text)
      → is_seen j w m ≡ true
      → is_seen j w (see_headers header_get rest m).0 ≡ true
  unfolding see_headers
  see_headers-keeps [] m j w e = e
  see_headers-keeps ((h, values) ∷ rest) m j w e = elim (Text-cases (header_get h)) [
    | inl n ↦
        ap (λ r. is_seen j w r.0) (see_headers-skip header_get h values rest m n)
        ∙ see_headers-keeps rest m j w e
    | inr (c, v, y) ↦
        ap (λ r. is_seen j w r.0) (see_headers-see header_get h values rest m c v y)
        ∙ see_headers-keeps rest (see_value h (c ∷ v) m) j w (see_value-keeps h (c ∷ v) j w m e)
  ]

  abbrev AllSeen : Tracked → HeadersMap → Type 0
  AllSeen tracked m = All (λ e. is_seen e.0 e.1 m ≡ true) tracked

  see_headers-AllSeen :
      (rest m : HeadersMap)
      → AllSeen (see_headers header_get rest m).1 (see_headers header_get rest m).0
  unfolding see_headers
  see_headers-AllSeen [] m = tt
  see_headers-AllSeen ((h, values) ∷ rest) m = elim (Text-cases (header_get h)) [
    | inl n ↦
        subst (λ r. AllSeen r.1 r.0) (sym (see_headers-skip header_get h values rest m n))
          (see_headers-AllSeen rest m)
    | inr (c, v, y) ↦
        subst (λ r. AllSeen r.1 r.0) (sym (see_headers-see header_get h values rest m c v y))
          (
            see_headers-keeps rest (see_value h (c ∷ v) m) h (c ∷ v) (see_value-there h (c ∷ v) m),
            see_headers-AllSeen rest (see_value h (c ∷ v) m),
          )
  ]

-- A value that is there is counted, and none goes.
count_value-some :
    (closed : Bool) (h v : Text) (m : HeadersMap)
    → is_seen h v m ≡ true
    → (m' : HeadersMap) × (count_value closed h v m ≡ some m')
      × ((j w : Text) → is_seen j w m ≡ true → is_seen j w m' ≡ true)
count_value-some closed h v m e = elim (Option-cases (get h m)) [
  | inl n ↦ absurd (ground (arith, n, e, get_empty {V = TimeoutData} v))
  | inr (values, y) ↦ elim (Option-cases (get v values)) [
    | inl n ↦ absurd (ground (arith, n, y, e))
    | inr (d, z) ↦ (
      put h (put v (counted closed d) values) m,
      ground (arith, y, z),
      λ j w there. ground (
        arith,
        there,
        y,
        get-put h j (put v (counted closed d) values) m,
        get-put v w (counted closed d) values,
        eq_iff h j,
      ),
    )
  ]
]

All-map :
    (P Q : (Text × Text) → Type 0) (xs : Tracked)
    → ((e : Text × Text) → P e → Q e)
    → All P xs
    → All Q xs
All-map P Q [] f ps = tt
All-map P Q (x ∷ xs) f ps = (f x ps.0, All-map P Q xs f ps.1)

count_values-some :
    (closed : Bool) (tracked : Tracked) (m : HeadersMap)
    → All (λ e. is_seen e.0 e.1 m ≡ true) tracked
    → (m' : HeadersMap) × (count_values closed tracked m ≡ some m')
unfolding count_values
count_values-some closed [] m seen = (m, refl)
count_values-some closed ((h, v) ∷ tracked) m seen =
    let (m', e, keeps) = count_value-some closed h v m seen.0 in
    let (m'', e') = count_values-some closed tracked m' (
      All-map (λ x. is_seen x.0 x.1 m ≡ true) (λ x. is_seen x.0 x.1 m' ≡ true) tracked
        (λ x there. keeps x.0 x.1 there) seen.1) in
    (m'', ground (arith, e, e'))

-- The end of a request that has just arrived does not panic, whatever headers it has and are tracked.
pub end_request-arrive :
    (closed : Bool) (header_get : Text → Text) (t : TimeoutTracking)
    → (t' : TimeoutTracking) × (end_request closed (arrive header_get t).1 (arrive header_get t).0
        ≡ some t')
unfolding end_request arrive
end_request-arrive closed header_get t =
    let seen = see_headers header_get t.headers_map t.headers_map in
    let (m, e) =
      count_values-some closed seen.1 seen.0
        (see_headers-AllSeen header_get t.headers_map t.headers_map) in
    (record { headers_map = m; all_timeouts = count_all closed t.all_timeouts }, rw e refl)
