-- ===== src/Status/FlipFlop/Single.antt =====
-- One status that is to be given a number of times, and then no more (status.go, PortStatus.flipflop).
use Prim.Native.Nat.add
use goto.Prelude.{
  ℕ, zero, suc, ◌+◌, ◌≡◌, refl, arith, Bool, true, false, none, some, List, [], ◌∷◌, ◌++◌,
  replicate, if◌then◌else◌, ℤ, pos, negsuc, int_eq, eq_refl, ◌∙◌, ap,
}
use goto.Status.FlipFlop.{FlipFlopConfig, new_config, flip_one}
use goto.Status.FlipFlop.Cycle.{flip_run, flip_run-step}

module _ (s : ℤ) (n : ℕ) (restart : Bool) where
  abbrev one : List ℤ
  one = s ∷ []

  -- The config that has j more times to go.
  abbrev left : ℤ → FlipFlopConfig → FlipFlopConfig
  left j c = record {
    times = pos (suc n);
    status_count = j;
    last_status_index = c.last_status_index;
    last_status = s;
  }

  flip_one_next :
      (j : ℕ) (c : FlipFlopConfig)
      → flip_one s (pos (suc n)) restart (left (pos (suc j)) c)
        ≡ record { kept = some (left (pos j) c); status = s; flip_header = none }
  unfolding flip_one
  flip_one_next j c = ground (arith, eq_refl s)

  flip_one_back :
      (c : FlipFlopConfig)
      → flip_one s (pos (suc n)) restart (left (pos 0) c) ≡ record {
        kept = if restart then none else some (left (negsuc 0) c);
        status = pos 200;
        flip_header = some s;
      }
  unfolding flip_one
  flip_one_back c = ground (arith, eq_refl s)

  flip_one_idle :
      (c : FlipFlopConfig)
      → restart ≡ false
      → flip_one s (pos (suc n)) restart (left (negsuc 0) c)
        ≡ record { kept = some (left (negsuc 0) c); status = pos 200; flip_header = some s }
  unfolding flip_one
  flip_one_idle c r = ground (arith, eq_refl s)

  -- The first call of an id.
  flip_one_first : flip_one s (pos (suc n)) restart (new_config (pos (suc n))) ≡ record {
    kept = some (left (pos n) (new_config (pos (suc n))));
    status = s;
    flip_header = none;
  }
  unfolding flip_one
  flip_one_first = ground arith

  flip_run-left :
      (j k : ℕ) (c : FlipFlopConfig)
      → flip_run (j + k) one (pos (suc n)) restart (some (left (pos j) c)) ≡ (
        replicate j s ++ (flip_run k one (pos (suc n)) restart (some (left (pos 0) c))).0,
        (flip_run k one (pos (suc n)) restart (some (left (pos 0) c))).1,
      )
  flip_run-left zero k c = rw (add.zero k) refl
  flip_run-left (suc j) k c = rw (add.suc j k) (
      flip_run-step (j + k) one (pos (suc n)) restart (some (left (pos (suc j)) c)) _
        (ap some (flip_one_next j c))
      ∙ rw (flip_run-left j k c))

  -- All the calls of a new id but the last ones, which come after the status was given suc n times.
  flip_run-first :
      (k : ℕ)
      → let c = new_config (pos (suc n)) in
        flip_run (suc n + k) one (pos (suc n)) restart none ≡ (
          replicate (suc n) s ++ (flip_run k one (pos (suc n)) restart (some (left (pos 0) c))).0,
          (flip_run k one (pos (suc n)) restart (some (left (pos 0) c))).1,
        )
  flip_run-first k = rw (add.suc n k) (
      flip_run-step (n + k) one (pos (suc n)) restart none _ (ap some flip_one_first)
      ∙ rw (flip_run-left n k (new_config (pos (suc n)))))

module _ (s : ℤ) (n : ℕ) where
  -- With a restart, a new id gets its status n times (n > 0) and then 200, and is as if it had never
  -- been used, so the calls go round and round.
  pub flip_cycle_single :
      flip_run (suc n + 1) (s ∷ []) (pos (suc n)) true none
      ≡ (replicate (suc n) s ++ pos 200 ∷ [], none)
  flip_cycle_single =
      flip_run-first s n true 1
      ∙ rw
          (flip_run-step 0 (s ∷ []) (pos (suc n)) true
            (some (left s n true (pos 0) (new_config (pos (suc n))))) _
            (ap some (flip_one_back s n true (new_config (pos (suc n))))))
          (unfold flip_run in refl)

  flip_run-idle :
      (k : ℕ) (c : FlipFlopConfig)
      → (flip_run k (s ∷ []) (pos (suc n)) false (some (left s n false (negsuc 0) c))).0
        ≡ replicate k (pos 200)
  flip_run-idle zero c = unfold flip_run in refl
  flip_run-idle (suc k) c =
      rw
        (flip_run-step k (s ∷ []) (pos (suc n)) false (some (left s n false (negsuc 0) c)) _
          (ap some (flip_one_idle s n false c refl)))
        (ap (λ (l : List ℤ). pos 200 ∷ l) (flip_run-idle k c))

  flip_run-back :
      (k : ℕ) (c : FlipFlopConfig)
      → (flip_run k (s ∷ []) (pos (suc n)) false (some (left s n false (pos 0) c))).0
        ≡ replicate k (pos 200)
  flip_run-back zero c = unfold flip_run in refl
  flip_run-back (suc k) c =
      rw
        (flip_run-step k (s ∷ []) (pos (suc n)) false (some (left s n false (pos 0) c)) _
          (ap some (flip_one_back s n false c)))
        (ap (λ (l : List ℤ). pos 200 ∷ l) (flip_run-idle k c))

  -- Without a restart, a new id gets its status n times (n > 0), and 200 from then on.
  pub flip_single_ends :
      (k : ℕ)
      → (flip_run (suc n + k) (s ∷ []) (pos (suc n)) false none).0
        ≡ replicate (suc n) s ++ replicate k (pos 200)
  flip_single_ends k = rw (flip_run-first s n false k, flip_run-back k (new_config (pos (suc n))))
