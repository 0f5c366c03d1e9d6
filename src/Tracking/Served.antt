-- ===== src/Tracking/Served.antt =====
-- The counts that served requests leave (tracking.go, middlewareFunc and track).
use goto.Prelude.{
  ℕ, suc, ◌+◌, ◌≡◌, refl, arith, Bool, true, false, ◌&&◌, not, Option, some, List, [], ◌∷◌,
  if◌then◌else◌, ℤ, int_eq, Text, text_eq, ◌==◌, eq_iff, eq_refl, sym,
}
use goto.Prelude.Dict.{get, get-put}
use goto.Params.Mux.{Request}
use goto.Params.Port.{port_num}
use goto.Tracking.{
  HeaderData, count_of, increment, track_request, track_nonempty, track_request_of, RequestTracking,
  tracking_data, middleware_func,
}
use goto.Tracking.Clearing.{map_option, get-map_headers, tracking_data-update_port, header_at}

-- A request, with what http.Header.Get reads of its headers.
abbrev pub Served : Type 0
Served = (Text → Text) × Request

unfoldable pub serve_all : List Served → RequestTracking → RequestTracking
serve_all [] rt = rt
serve_all ((header_get, r) ∷ qs) rt = serve_all qs (middleware_func header_get r rt)

-- The request is traffic of the port.
abbrev pub is_traffic : ℤ → Served → Bool
is_traffic port (header_get, r) = not r.store.is_known_non_traffic && (port_num r == port)

abbrev pub has_header : Text → ℤ → Served → Bool
has_header h port q = is_traffic port q && not (q.0 h == [])

abbrev pub has_value : Text → Text → ℤ → Served → Bool
has_value h v port q = is_traffic port q && (q.0 h == v)

abbrev pub count : (Served → Bool) → List Served → ℕ
count p [] = 0
count p (q ∷ qs) = if p q then suc (count p qs) else count p qs

abbrev pub total : HeaderData → ℕ
total hd = hd.request_counts_by_header

abbrev pub total_of_value : Text → HeaderData → ℕ
total_of_value v hd = count_of (get v hd.request_counts_by_header_value)

header_at-served :
    (h : Text) (port : ℤ) (header_get : Text → Text) (r : Request) (rt : RequestTracking)
    → header_at h [] port (middleware_func header_get r rt) ≡ (
        if is_traffic port (header_get, r)
        then map_option (track_nonempty (header_get h)) (header_at h [] port rt)
        else header_at h [] port rt)
unfolding middleware_func track_request_of
header_at-served h port header_get r rt = ground (
  arith,
  tracking_data-update_port [] [] (port_num r) port (track_request_of header_get r.request_uri) rt,
  eq_refl {T = Text} [],
  get-map_headers (λ h. track_nonempty (header_get h)) h (tracking_data [] port rt).by_header,
)

-- What a header is tracked with: so many occurrences, and so many of a value.
abbrev pub IsTracked : Text → ℕ → ℕ → Option HeaderData → Type 0
IsTracked v n m o = (hd : HeaderData) × (o ≡ some hd) × (total hd ≡ n) × (total_of_value v hd ≡ m)

module _ (c : ℕ) (v : Text) where
  abbrev Tracks : (Text → Bool) → Text → HeaderData → Option HeaderData → Type 0
  Tracks p s hd =
      IsTracked (c ∷ v) (if p s then suc (total hd) else total hd)
        (if s == (c ∷ v) then suc (total_of_value (c ∷ v) hd) else total_of_value (c ∷ v) hd)

  track_nonempty-IsTracked :
      (s : Text) (hd : HeaderData) → Tracks (λ s. not (s == [])) s hd (some (track_nonempty s hd))
  unfolding track_request increment text_eq
  track_nonempty-IsTracked [] hd = (hd, refl, refl, refl)
  track_nonempty-IsTracked (d ∷ s) hd = (
    track_request (d ∷ s) hd,
    refl,
    omega arith,
    ground (
      arith,
      get-put (d ∷ s) (c ∷ v) (count_of (get (d ∷ s) hd.request_counts_by_header_value) + 1)
          hd.request_counts_by_header_value,
      eq_iff (d ∷ s) (c ∷ v),
    ),
  )

  served-IsTracked :
      (b : Bool) (s : Text) (n m : ℕ) (o : Option HeaderData)
      → IsTracked (c ∷ v) n m o
      → IsTracked
          (c ∷ v)
          (if b && not (s == []) then suc n else n)
          (if b && (s == (c ∷ v)) then suc m else m)
          (if b then map_option (track_nonempty s) o else o)
  served-IsTracked false s n m o h = h
  served-IsTracked true s n m o (hd, e, en, em) =
      rw e (rw (sym en) (rw (sym em) (track_nonempty-IsTracked s hd)))

-- Served requests add, to what a tracked header of a port has, one occurrence for each of them that is
-- traffic of the port and has the header, and one of a value for each that has it with the value.
pub served_counts :
    (qs : List Served) (h : Text) (c : ℕ) (v : Text) (port : ℤ) (n m : ℕ) (rt : RequestTracking)
    → IsTracked (c ∷ v) n m (header_at h [] port rt)
    → IsTracked
        (c ∷ v)
        (n + count (has_header h port) qs)
        (m + count (has_value h (c ∷ v) port) qs)
        (header_at h [] port (serve_all qs rt))
unfolding serve_all
served_counts [] h c v port n m rt (hd, e, en, em) = (hd, e, omega arith, omega arith)
served_counts (q ∷ qs) h c v port n m rt (hd, e, en, em) =
    let (hd', e', en', em') =
      served_counts qs h c v port (if has_header h port q then suc n else n)
        (if has_value h (c ∷ v) port q then suc m else m) (middleware_func q.0 q.1 rt)
        (rw (header_at-served h port q.0 q.1 rt) (
          served-IsTracked c v (is_traffic port q) (q.0 h) n m (header_at h [] port rt)
            (hd, e, en, em))) in
    (hd', e', ground (arith, en'), ground (arith, em'))
