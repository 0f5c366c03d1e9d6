-- ===== src/Tracking/Counting.antt =====
-- What the counts of the tracked headers add up to, over all operations (tracking.go).
use goto.Prelude.{
  ℕ, suc, ◌+◌, ◌≤◌, ◌≡◌, arith, Option, none, some, List, [], ◌∷◌, int_eq, Text, text_eq, Eq, All,
}
use goto.Prelude.Dict.{Dict, get, put, delete, values}
use goto.Tracking.{
  HeaderData, new_header_data, increment, track_request, track_requests, fresh_headers, add_headers,
  present_or_new, map_headers, track_nonempty,
}

abbrev pub IsGood : {V : Type 0} → (V → Type 0) → Option V → Type 0
IsGood P none = Unit
IsGood P (some v) = P v

-- Every entry of a map has a property; an operation on the map keeps it.
module _ {K V : Type 0} ⦃e : Eq K⦄ (P : V → Type 0) where
  abbrev pub AllValues : Dict K V → Type 0
  AllValues m = All P (values m)

  pub put-AllValues : (k : K) (v : V) (m : Dict K V) → P v → AllValues m → AllValues (put k v m)
  unfolding put
  put-AllValues k v [] p ps = (p, tt)
  put-AllValues k v ((j, w) ∷ m) p ps = ground (arith, put-AllValues k v m p ps.1)

  pub delete-AllValues : (k : K) (m : Dict K V) → AllValues m → AllValues (delete k m)
  unfolding delete
  delete-AllValues k [] ps = tt
  delete-AllValues k ((j, w) ∷ m) ps = ground (arith, delete-AllValues k m ps.1)

  pub get-IsGood : (k : K) (m : Dict K V) → AllValues m → IsGood P (get k m)
  unfolding get
  get-IsGood k [] ps = tt
  get-IsGood k ((j, w) ∷ m) ps = ground (arith, get-IsGood k m ps.1)

abbrev pub sum : List ℕ → ℕ
sum [] = 0
sum (n ∷ ns) = n + sum ns

sum-increment : (k : Text) (m : Dict Text ℕ) → sum (values (increment k m)) ≡ suc (sum (values m))
unfolding increment put get
sum-increment k [] = omega arith
sum-increment k ((j, n) ∷ m) = ground (arith, sum-increment k m)

-- The values counted are at most the occurrences counted.
abbrev pub IsCounted : HeaderData → Type 0
IsCounted hd = sum (values hd.request_counts_by_header_value) ≤ hd.request_counts_by_header

pub track_request-IsCounted :
    (v : Text) (hd : HeaderData) → IsCounted hd → IsCounted (track_request v hd)
unfolding track_request
track_request-IsCounted [] hd h = omega arith
track_request-IsCounted (c ∷ v) hd h =
    omega (arith, sum-increment (c ∷ v) hd.request_counts_by_header_value)

pub track_requests-IsCounted :
    (vs : List Text) (hd : HeaderData) → IsCounted hd → IsCounted (track_requests vs hd)
unfolding track_requests
track_requests-IsCounted [] hd h = h
track_requests-IsCounted (v ∷ vs) hd h =
    track_requests-IsCounted vs (track_request v hd) (track_request-IsCounted v hd h)

pub track_nonempty-IsCounted :
    (v : Text) (hd : HeaderData) → IsCounted hd → IsCounted (track_nonempty v hd)
track_nonempty-IsCounted [] hd h = h
track_nonempty-IsCounted (c ∷ v) hd h = track_request-IsCounted (c ∷ v) hd h

abbrev pub AreCounted : Dict Text HeaderData → Type 0
AreCounted = AllValues IsCounted

pub map_headers-AreCounted :
    (f : Text → HeaderData → HeaderData) (m : Dict Text HeaderData)
    → ((h : Text) (hd : HeaderData) → IsCounted hd → IsCounted (f h hd))
    → AreCounted m
    → AreCounted (map_headers f m)
unfolding map_headers
map_headers-AreCounted f [] keeps ps = tt
map_headers-AreCounted f ((h, hd) ∷ m) keeps ps =
    (keeps h hd ps.0, map_headers-AreCounted f m keeps ps.1)

pub fresh_headers-AreCounted :
    (hs : List Text) (m : Dict Text HeaderData) → AreCounted m → AreCounted (fresh_headers hs m)
unfolding fresh_headers
fresh_headers-AreCounted [] m ps = ps
fresh_headers-AreCounted (h ∷ hs) m ps =
    fresh_headers-AreCounted hs (put h new_header_data m)
      (put-AllValues IsCounted h new_header_data m (omega arith) ps)

present_or_new-AreCounted :
    (h : Text) (m : Dict Text HeaderData) → AreCounted m → AreCounted (present_or_new h m)
present_or_new-AreCounted h m ps =
    ground (arith, put-AllValues IsCounted h new_header_data m (omega arith) ps)

pub add_headers-AreCounted :
    (hs : List Text) (m : Dict Text HeaderData) → AreCounted m → AreCounted (add_headers hs m)
unfolding add_headers
add_headers-AreCounted [] m ps = ps
add_headers-AreCounted (h ∷ hs) m ps =
    add_headers-AreCounted hs (present_or_new h m) (present_or_new-AreCounted h m ps)
