-- ===== src/Timeouts/InFlight.antt =====
-- A request that ends, after others came in between or after none (timeout.go).
use goto.Prelude.{
  ◌≡◌, refl, arith, Bool, true, false, Option, none, some, List, [], ◌∷◌, if◌then◌else◌, Text,
  codes, text_eq, ◌==◌, eq_iff, any, ◌∙◌, Option-cases, Bool-cases, inl, inr, ap, ◌&&◌,
}
use goto.Prelude.Dict.{Dict, get, put, get-put, get_empty}
use goto.Params.Mux.{Request, get_string_param, split}
use goto.Timeouts.{
  TimeoutData, HeadersMap, TimeoutTracking, track_from_now, add_headers, Tracked, or_no_values,
  counted, count_in, count_value, count_values, end_request, arrive, see_value, see_headers,
  with_value, new_timeout_data,
}
use goto.Timeouts.Ended.{is_some, is_seen, Text-cases, see_headers-skip, see_headers-see}

get-track_from_now :
    (hs : List Text) (h : Text) (m : HeadersMap)
    → get h (track_from_now hs m) ≡ (if any (λ j. j == h) hs then some [] else get h m)
unfolding track_from_now
get-track_from_now [] h m = refl
get-track_from_now (j ∷ hs) h m =
    ground (arith, get-track_from_now hs h (put j [] m), get-put j h [] m)

-- Whether a header's value is among the tracked ones.
abbrev pub has_value : Text → Text → Tracked → Bool
has_value h v = any (λ e. e.0 == h && e.1 == v)

see_value-unseen :
    (h v j w : Text) (m : HeadersMap)
    → is_seen h v m ≡ false
    → (j == h && w == v) ≡ false
    → is_seen h v (see_value j w m) ≡ false
see_value-unseen h v j w m e other = ground (
  arith,
  e,
  other,
  eq_iff j h,
  get-put j h (with_value w (or_no_values (get j m))) m,
  get-put w v new_timeout_data (or_no_values (get j m)),
)

other_value :
    (header_get : Text → Text) (h v j w : Text)
    → header_get j ≡ w
    → (header_get h == v) ≡ false
    → (j == h && w == v) ≡ false
other_value header_get h v j w e other = elim (Bool-cases (j == h)) [
  | inl same ↦ ground (arith, other, e, same, ap header_get ((eq_iff j h).0 same))
  | inr n ↦ ground (arith, n)
]

-- A request that has another value of a header, or none, makes no entry for the one.
see_headers-unseen :
    (header_get : Text → Text) (h v : Text) (rest m : HeadersMap)
    → (header_get h == v) ≡ false
    → is_seen h v m ≡ false
    → is_seen h v (see_headers header_get rest m).0 ≡ false
see_headers-unseen header_get h v [] m other e = unfold see_headers in e
see_headers-unseen header_get h v ((j, values) ∷ rest) m other e =
    elim (Text-cases (header_get j)) [
      | inl n ↦
          ap (λ r. is_seen h v r.0) (see_headers-skip header_get j values rest m n)
          ∙ see_headers-unseen header_get h v rest m other e
      | inr (c, w, y) ↦
          ap (λ r. is_seen h v r.0) (see_headers-see header_get j values rest m c w y)
          ∙ see_headers-unseen header_get h v rest (see_value j (c ∷ w) m) other
              (see_value-unseen h v j (c ∷ w) m e (other_value header_get h v j (c ∷ w) y other))
    ]

-- The requests of a list arrive, each with its headers.
unfoldable pub arrive_all : List (Text → Text) → TimeoutTracking → TimeoutTracking
arrive_all [] t = t
arrive_all (header_get ∷ gets) t = arrive_all gets (arrive header_get t).0

arrive_all-unseen :
    (gets : List (Text → Text)) (h v : Text) (t : TimeoutTracking)
    → any (λ g. g h == v) gets ≡ false
    → is_seen h v t.headers_map ≡ false
    → is_seen h v (arrive_all gets t).headers_map ≡ false
unfolding arrive_all arrive
arrive_all-unseen [] h v t others e = e
arrive_all-unseen (header_get ∷ gets) h v t others e =
    let other : (header_get h == v) ≡ false = ground (arith, others) in
    arrive_all-unseen gets h v (arrive header_get t).0 (ground (arith, others, other))
      (see_headers-unseen header_get h v t.headers_map t.headers_map other e)

count_in-unseen :
    (closed : Bool) (j w h v : Text) (o : Option (Dict Text TimeoutData)) (x : Option TimeoutData)
    (m m' : HeadersMap)
    → get j m ≡ o
    → (j == h && w == v) ≡ false
    → is_seen h v m ≡ false
    → count_in closed j w o x m ≡ some m'
    → is_seen h v m' ≡ false
count_in-unseen closed j w h v none x m m' eo other unseen e = cc
count_in-unseen closed j w h v (some values) none m m' eo other unseen e = cc
count_in-unseen closed j w h v (some values) (some d) m m' eo other unseen e = ground (
  arith,
  e,
  eo,
  other,
  unseen,
  eq_iff j h,
  get-put j h (put w (counted closed d) values) m,
  get-put w v (counted closed d) values,
)

count_in-none :
    (closed : Bool) (j w : Text) (o : Option (Dict Text TimeoutData)) (m : HeadersMap)
    → is_some (get w (or_no_values o)) ≡ false
    → count_in closed j w o (get w (or_no_values o)) m ≡ none
count_in-none closed j w none m e = refl
count_in-none closed j w (some values) m e = elim (Option-cases (get w values)) [
  | inl n ↦ ground (arith, n)
  | inr (d, y) ↦ ground (arith, y, e)
]

-- With a value that has no entry among those tracked, nothing is counted.
count_values-none :
    (closed : Bool) (tracked : Tracked) (h v : Text) (m : HeadersMap)
    → is_seen h v m ≡ false
    → has_value h v tracked ≡ true
    → count_values closed tracked m ≡ none
unfolding count_values
count_values-none closed [] h v m e there = cc
count_values-none closed ((j, w) ∷ tracked) h v m e there = elim (Bool-cases (j == h && w == v)) [
  | inl same ↦
      ground (arith, e, same, eq_iff j h, eq_iff w v, count_in-none closed h v (get h m) m e)
  | inr other ↦ elim (Option-cases (count_value closed j w m)) [
    | inl n ↦ ground (arith, n)
    | inr (m', s) ↦ ground (
      arith,
      s,
      there,
      other,
      count_values-none closed tracked h v m',
      count_in-unseen closed j w h v (get j m) (get w (or_no_values (get j m))) m m' refl other e s,
    )
  ]
]

add_headers-unseen :
    (r : Request) (t : TimeoutTracking) (h v : Text)
    → (get_string_param r (codes "headers")).1 ≡ true
    → any (λ j. j == h) (split b',' (get_string_param r (codes "headers")).0) ≡ true
    → is_seen h v (add_headers r t).0.headers_map ≡ false
unfolding add_headers
add_headers-unseen r t h v present named =
    let names = split b',' (get_string_param r (codes "headers")).0 in
    ground (
      arith,
      present,
      named,
      get-track_from_now names h t.headers_map,
      get_empty {V = TimeoutData} v,
    )

-- A request that is to be counted with a header's value ends after the header was named in a request to
-- track headers, with nothing since but requests that arrived with other values of the header or none:
-- the end panics.
pub end_request-retracked :
    (closed : Bool) (tracked : Tracked) (h v : Text) (r : Request) (t : TimeoutTracking)
    (gets : List (Text → Text))
    → has_value h v tracked ≡ true
    → (get_string_param r (codes "headers")).1 ≡ true
    → any (λ j. j == h) (split b',' (get_string_param r (codes "headers")).0) ≡ true
    → any (λ g. g h == v) gets ≡ false
    → end_request closed tracked (arrive_all gets (add_headers r t).0) ≡ none
unfolding end_request
end_request-retracked closed tracked h v r t gets there present named others =
    let t' = arrive_all gets (add_headers r t).0 in
    ground (
      arith,
      count_values-none closed tracked h v t'.headers_map
          (arrive_all-unseen gets h v (add_headers r t).0 others
            (add_headers-unseen r t h v present named))
          there,
    )
