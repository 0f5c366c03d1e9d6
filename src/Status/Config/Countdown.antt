-- ===== src/Status/Config/Countdown.antt =====
-- How often a forced status is given (statusManager.go, SetStatus and GetStatus).
use goto.Prelude.{
  ℕ, zero, suc, ◌+◌, ◌-◌, ◌≡◌, refl, arith, ltb, if◌then◌else◌, ℤ, pos, negsuc, [], ◌∷◌, int_eq,
}
use goto.Status.Config.{StatusConfig, get_status}

-- The config after k calls.
unfoldable pub spent : ℕ → StatusConfig → StatusConfig
spent zero sc = sc
spent (suc k) sc = spent k (get_status 0 sc).0

get_status_forever :
    (seed : ℕ) (sc : StatusConfig) → sc.times ≡ negsuc 0 → (get_status seed sc).0 ≡ sc
unfolding get_status
get_status_forever seed sc e = ground arith

get_status_used_up :
    (seed : ℕ) (sc : StatusConfig) → sc.times ≡ pos 0 → get_status seed sc ≡ (sc, (pos 0, pos 0))
unfolding get_status
get_status_used_up seed sc e = ground arith

pub get_status_step :
    (seed n : ℕ) (sc : StatusConfig)
    → sc.times ≡ pos (suc n)
    → (get_status seed sc).0 ≡ record sc { times = pos n }
unfolding get_status
get_status_step seed n sc e = ground arith

pub get_status_single :
    (seed n : ℕ) (c : ℤ) (sc : StatusConfig)
    → sc.statuses ≡ c ∷ []
    → sc.times ≡ pos (suc n)
    → (get_status seed sc).1 ≡ (c, pos n)
unfolding get_status
get_status_single seed n c sc e h = rw (e, h) (ground arith)

-- A config with one status that is to be given n times: the call that k others came before gets it,
-- with n - k - 1 left, if k < n, and no status from then on.
pub forced_countdown :
    (seed k n : ℕ) (c : ℤ) (sc : StatusConfig)
    → sc.statuses ≡ c ∷ []
    → sc.times ≡ pos n
    → (get_status seed (spent k sc)).1
      ≡ (if ltb k n then (c, pos (n - (k + 1))) else (pos 0, pos 0))
unfolding spent
forced_countdown seed zero zero c sc e h = ground (arith, get_status_used_up seed sc h)
forced_countdown seed zero (suc n) c sc e h = ground (arith, get_status_single seed n c sc e h)
forced_countdown seed (suc k) zero c sc e h =
    ground (arith, get_status_used_up 0 sc h, forced_countdown seed k zero c sc e h)
forced_countdown seed (suc k) (suc n) c sc e h =
    rw (get_status_step 0 n sc h)
      (ground (arith, forced_countdown seed k n c (record sc { times = pos n }) e refl))
