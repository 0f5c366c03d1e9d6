-- ===== src/Status/FlipFlop/Cycle.antt =====
-- The order of the statuses that flip-flop requests get (status.go, PortStatus.flipflop).
use goto.Prelude.{
  ℕ, zero, suc, ◌+◌, ◌-◌, ◌<◌, ◌≡◌, refl, arith, Bool, false, Option, none, some, List, [], ◌∷◌,
  length, drop, ◌++◌, get_elem?, get_elem?-lt, get_elem?-ge, ℤ, pos, text_eq, int_eq, ◌∙◌, sym,
  Text, Option-cases, inl, inr, eq_iff, eq_refl, if◌then◌else◌, ◌==◌,
}
use goto.Prelude.Dict.{Dict, get, get-put, get-delete}
use goto.Status.FlipFlop.{
  FlipFlopConfig, Flip, new_config, flip_many, flip_one, flip, config_or_new, store, flipflop,
}

-- A list of statuses that is shorter than one that the same request id went through before: the
-- handler panics.
pub flip_many_panics :
    (statuses : List ℤ) (c : FlipFlopConfig)
    → length statuses < c.last_status_index
    → flip_many statuses c ≡ none
unfolding flip_many
flip_many_panics statuses c h = ground (arith, get_elem?-ge statuses (c.last_status_index - 1))

-- The statuses of k calls of one id, the first one first, and the configs after them; a panic ends the
-- calls.
unfoldable pub flipflop_run :
    ℕ → Text → List ℤ → ℤ → Bool → Dict Text FlipFlopConfig → List ℤ × Dict Text FlipFlopConfig
flipflop_run zero id statuses times restart m = ([], m)
flipflop_run (suc k) id statuses times restart m = elim (flipflop id statuses times restart m) [
  | none ↦ ([], m)
  | some (m', f) ↦
      let (later, kept) = flipflop_run k id statuses times restart m' in (f.status ∷ later, kept)
]

-- The same of the one id alone: what is kept for it is handed on.
unfoldable pub flip_run :
    ℕ → List ℤ → ℤ → Bool → Option FlipFlopConfig → List ℤ × Option FlipFlopConfig
flip_run zero statuses times restart o = ([], o)
flip_run (suc k) statuses times restart o =
    elim (flip statuses times restart (config_or_new times o)) [
      | none ↦ ([], o)
      | some f ↦
          let (later, kept) = flip_run k statuses times restart f.kept in (f.status ∷ later, kept)
    ]

flip_run_once :
    (flip_run 5 (pos 500 ∷ []) (pos 2) false none).0
    ≡ pos 500 ∷ pos 500 ∷ pos 200 ∷ pos 200 ∷ pos 200 ∷ []
unfolding flip_run flip_one
flip_run_once = refl

-- One call in front of the others.
pub flip_run-step :
    (k : ℕ) (statuses : List ℤ) (times : ℤ) (restart : Bool) (o : Option FlipFlopConfig) (f : Flip)
    → flip statuses times restart (config_or_new times o) ≡ some f
    → flip_run (suc k) statuses times restart o ≡ (
      f.status ∷ (flip_run k statuses times restart f.kept).0,
      (flip_run k statuses times restart f.kept).1,
    )
unfolding flip_run
flip_run-step k statuses times restart o f e = ground (arith, e)

drop-get_elem? :
    (l : List ℤ) (i : ℕ) (x : ℤ) → get_elem? l i ≡ some x → drop i l ≡ x ∷ drop (suc i) l
drop-get_elem? [] i x e = cc
drop-get_elem? (y ∷ l) zero x e = ground arith
drop-get_elem? (y ∷ l) (suc i) x e = drop-get_elem? l i x e

drop-length : (l : List ℤ) (i : ℕ) → i ≡ length l → drop i l ≡ []
drop-length [] zero e = refl
drop-length [] (suc i) e = refl
drop-length (x ∷ l) zero e = absurd (omega arith)
drop-length (x ∷ l) (suc i) e = drop-length l i (omega arith)

module _ (s t : ℤ) (ss : List ℤ) (times : ℤ) (restart : Bool) where
  abbrev many : List ℤ
  many = s ∷ t ∷ ss

  flip_many_next :
      (c : FlipFlopConfig) (x : ℤ)
      → get_elem? many c.last_status_index ≡ some x
      → c.last_status_index < length many
      → flip_many many c
        ≡ some (record {
          kept = some (record c { last_status_index = suc c.last_status_index });
          status = x;
          flip_header = none;
        })
  unfolding flip_many
  flip_many_next c x e h = ground (arith, e)

  flip_many_back :
      (c : FlipFlopConfig)
      → c.last_status_index ≡ length many
      → (x : ℤ) × (flip_many many c
          ≡ some (record { kept = none; status = pos 200; flip_header = some x }))
  unfolding flip_many
  flip_many_back c e =
      let (x, last) = get_elem?-lt many (c.last_status_index - 1) (omega arith) in
      (x, ground (arith, last))

  flip_run-many :
      (j : ℕ) (c : FlipFlopConfig)
      → c.last_status_index + j ≡ length many
      → flip_run (suc j) many times restart (some c)
        ≡ (drop c.last_status_index many ++ pos 200 ∷ [], none)
  flip_run-many zero c e =
      let (x, back) = flip_many_back c (omega arith) in
      flip_run-step 0 many times restart (some c) _ back
      ∙ rw (drop-length many c.last_status_index (omega arith)) (unfold flip_run in refl)
  flip_run-many (suc j) c e =
      let (x, at') = get_elem?-lt many c.last_status_index (omega arith) in
      let c' = record c { last_status_index = suc c.last_status_index } in
      flip_run-step (suc j) many times restart (some c) _ (flip_many_next c x at' (omega arith))
      ∙ rw (drop-get_elem? many c.last_status_index x at', flip_run-many j c' (omega arith))

  flip_run-new :
      (k : ℕ)
      → flip_run (suc k) many times restart none
        ≡ flip_run (suc k) many times restart (some (new_config times))
  flip_run-new k =
      let first = flip_many_next (new_config times) s refl (omega arith) in
      flip_run-step k many times restart none _ first
      ∙ sym (flip_run-step k many times restart (some (new_config times)) _ first)

  flip_cycle : flip_run (suc (length many)) many times restart none ≡ (many ++ pos 200 ∷ [], none)
  flip_cycle =
      flip_run-new (length many) ∙ flip_run-many (length many) (new_config times) (omega arith)

get-store :
    (id other : Text) (o : Option FlipFlopConfig) (m : Dict Text FlipFlopConfig)
    → get other (store id o m) ≡ (if id == other then o else get other m)
get-store id other none m = get-delete id other m
get-store id other (some c) m = get-put id other c m

flip_run-panic :
    (k : ℕ) (statuses : List ℤ) (times : ℤ) (restart : Bool) (o : Option FlipFlopConfig)
    → flip statuses times restart (config_or_new times o) ≡ none
    → flip_run (suc k) statuses times restart o ≡ ([], o)
unfolding flip_run
flip_run-panic k statuses times restart o e = ground (arith, e)

flipflop_run-panic :
    (k : ℕ) (id : Text) (statuses : List ℤ) (times : ℤ) (restart : Bool)
    (m : Dict Text FlipFlopConfig)
    → flip statuses times restart (config_or_new times (get id m)) ≡ none
    → flipflop_run (suc k) id statuses times restart m ≡ ([], m)
unfolding flipflop_run flipflop
flipflop_run-panic k id statuses times restart m e = ground (arith, e)

flipflop_run-step :
    (k : ℕ) (id : Text) (statuses : List ℤ) (times : ℤ) (restart : Bool)
    (m : Dict Text FlipFlopConfig) (f : Flip)
    → flip statuses times restart (config_or_new times (get id m)) ≡ some f
    → let later = flipflop_run k id statuses times restart (store id f.kept m) in
      flipflop_run (suc k) id statuses times restart m ≡ (f.status ∷ later.0, later.1)
unfolding flipflop_run flipflop
flipflop_run-step k id statuses times restart m f e = ground (arith, e)

-- An id's calls give it the statuses of its own config, and touch no other id's config.
flipflop_run-flip_run :
    (k : ℕ) (id : Text) (statuses : List ℤ) (times : ℤ) (restart : Bool)
    (m : Dict Text FlipFlopConfig) (other : Text)
    → let alone = flip_run k statuses times restart (get id m) in
      ((flipflop_run k id statuses times restart m).0 ≡ alone.0)
      × (get other (flipflop_run k id statuses times restart m).1
          ≡ (if id == other then alone.1 else get other m))
flipflop_run-flip_run zero id statuses times restart m other =
    unfold flip_run flipflop_run in (refl, ground (arith, eq_iff id other))
flipflop_run-flip_run (suc k) id statuses times restart m other =
    elim (Option-cases (flip statuses times restart (config_or_new times (get id m)))) [
      | inl e ↦ ground (
        arith,
        eq_iff id other,
        flip_run-panic k statuses times restart (get id m) e,
        flipflop_run-panic k id statuses times restart m e,
      )
      | inr (f, e) ↦
          let m' = store id f.kept m in
          ground (
            arith,
            flip_run-step k statuses times restart (get id m) f e,
            flipflop_run-step k id statuses times restart m f e,
            get-store id id f.kept m,
            get-store id other f.kept m,
            eq_refl id,
            flipflop_run-flip_run k id statuses times restart m' other,
          )
    ]

-- A list of two or more statuses is gone through in order by the calls of an id that has no config, one
-- status a call; the next call gets 200, and after it every id, this one too, has the config that it had
-- before, so the calls go round and round.
pub flip_cycle_many :
    (s t : ℤ) (ss : List ℤ) (times : ℤ) (restart : Bool) (id : Text) (m : Dict Text FlipFlopConfig)
    (other : Text)
    → get id m ≡ none
    → let after = flipflop_run (suc (length (s ∷ t ∷ ss))) id (s ∷ t ∷ ss) times restart m in
      (after.0 ≡ (s ∷ t ∷ ss) ++ pos 200 ∷ []) × (get other after.1 ≡ get other m)
flip_cycle_many s t ss times restart id m other e =
    let k = suc (length (s ∷ t ∷ ss)) in
    ground (
      arith,
      e,
      eq_iff id other,
      flipflop_run-flip_run k id (s ∷ t ∷ ss) times restart m other,
      flip_cycle s t ss times restart,
    )
