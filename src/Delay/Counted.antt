-- ===== src/Delay/Counted.antt =====
-- How many requests a port's delay is for (server/response/delay/delay.go).
use goto.Prelude.{
  ℕ, zero, suc, ◌≡◌, arith, true, false, ◌||◌, Option, none, some, List, [], ◌∷◌, length, nat_beq,
  ltb, if◌then◌else◌, pos, negsuc, int_eq, Text, codes, text_eq, eq_iff, eq_refl, ◌∙◌,
}
use goto.Prelude.Dict.{put, get-put, get-delete}
use goto.Params.Mux.{Request}
use goto.Params.Port.{port}
use goto.Delay.{random_duration}
use goto.Delay.Server.{
  Delays, set_delay, get_duration_param, middleware_func, range_at, count_at, passed, outcome_of,
}

-- A port's requests, each with its random number.
unfoldable pub requests : List ℕ → Request → Delays → Delays
requests [] q s = s
requests (x ∷ xs) q s = requests xs q (middleware_func x false q s).0

module _ (q : Request) (traffic : q.store.is_known_non_traffic ≡ false) (l h : ℕ) where
  abbrev HasDelay : ℕ → Delays → Type 0
  HasDelay c s = (range_at (port q) s ≡ some (suc l, h)) × (count_at (port q) s ≡ pos c)

  served_more :
      (x c : ℕ) (s : Delays)
      → HasDelay (suc (suc c)) s
      → ((middleware_func x false q s).1 ≡ outcome_of (random_duration x (suc l) h))
        × HasDelay (suc c) (middleware_func x false q s).0
  unfolding middleware_func
  served_more x c s set = ground (
    arith,
    traffic,
    set,
    get-put (port q) (port q) (pos (suc c)) s.delay_count_by_port,
    eq_refl (port q),
  )

  served_last :
      (x : ℕ) (s : Delays)
      → HasDelay 1 s
      → ((middleware_func x false q s).1 ≡ outcome_of (random_duration x (suc l) h))
        × (range_at (port q) (middleware_func x false q s).0 ≡ none)
  unfolding middleware_func
  served_last x s set =
      ground (arith, traffic, set, get-delete (port q) (port q) s.delay_by_port, eq_refl (port q))

  served_forever :
      (x : ℕ) (s : Delays)
      → HasDelay 0 s
      → ((middleware_func x false q s).1 ≡ outcome_of (random_duration x (suc l) h))
        × ((middleware_func x false q s).0 ≡ s)
  unfolding middleware_func
  served_forever x s set = ground (arith, traffic, set)

  not_served :
      (x : ℕ) (s : Delays) → range_at (port q) s ≡ none → middleware_func x false q s ≡ (s, passed)
  unfolding middleware_func
  not_served x s off = ground (arith, traffic, off)

  after_off :
      (x : ℕ) (xs : List ℕ) (s : Delays)
      → range_at (port q) s ≡ none
      → (middleware_func x false q (requests xs q s)).1 ≡ passed
  unfolding requests
  after_off x [] s off = ground (arith, not_served x s off)
  after_off x (y ∷ xs) s off = rw (not_served y s off) (after_off x xs s off)

  countdown :
      (x c : ℕ) (xs : List ℕ) (s : Delays)
      → HasDelay c s
      → (middleware_func x false q (requests xs q s)).1 ≡ (
          if nat_beq c 0 || ltb (length xs) c
          then outcome_of (random_duration x (suc l) h)
          else passed)
  unfolding requests
  countdown x zero [] s set = (served_forever x s set).0
  countdown x zero (y ∷ xs) s set = rw (served_forever y s set).1 (countdown x zero xs s set)
  countdown x (suc zero) [] s set = (served_last x s set).0
  countdown x (suc zero) (y ∷ xs) s set =
      after_off x xs (middleware_func y false q s).0 (served_last y s set).1 ∙ ground arith
  countdown x (suc (suc c)) [] s set = (served_more x c s set).0 ∙ ground arith
  countdown x (suc (suc c)) (y ∷ xs) s set =
      countdown x (suc c) xs (middleware_func y false q s).0 (served_more y c s set).1
      ∙ ground arith

set_delay-HasDelay :
    (parse_duration : Text → Option ℕ) (r q : Request) (s : Delays) (l h n : ℕ)
    → get_duration_param parse_duration r (codes "delay")
      ≡ record { low = suc l; high = h; count = pos n; ok = true }
    → port r ≡ port q
    → (range_at (port q) (set_delay parse_duration r s).0 ≡ some (suc l, h))
      × (count_at (port q) (set_delay parse_duration r s).0 ≡ pos n)
unfolding set_delay
set_delay-HasDelay parse_duration r q s l h n e p = ground (
  arith,
  e,
  p,
  get-put (port r) (port q) (some (suc l, h)) (put (port r) none s.delay_by_port),
  get-put (port r) (port q) (pos n) (put (port r) (negsuc 0) s.delay_count_by_port),
  eq_iff (port r) (port q),
)

-- After /delay/set with a range from low > 0 and a count n: of the requests to that port the one that
-- others, as many as xs has entries, came before is delayed by a choice of the range, if n is 0 or
-- there are more than that many to be delayed, and is not delayed else.
pub delay_countdown :
    (parse_duration : Text → Option ℕ) (r q : Request) (s : Delays) (l h n x : ℕ) (xs : List ℕ)
    → get_duration_param parse_duration r (codes "delay")
      ≡ record { low = suc l; high = h; count = pos n; ok = true }
    → port r ≡ port q
    → q.store.is_known_non_traffic ≡ false
    → (middleware_func x false q (requests xs q (set_delay parse_duration r s).0)).1 ≡ (
        if nat_beq n 0 || ltb (length xs) n
        then outcome_of (random_duration x (suc l) h)
        else passed)
delay_countdown parse_duration r q s l h n x xs e p traffic =
    countdown q traffic l h x n xs (set_delay parse_duration r s).0
      (set_delay-HasDelay parse_duration r q s l h n e p)
