-- ===== src/Delay/Choice.antt =====
-- The random choice of a delay (random.go, RandomDuration; delay.go, ParseDurationRange).
use goto.Prelude.{ℕ, ◌-◌, ◌≤◌, ◌<◌, ◌≡◌, arith, ◌⊎◌, Option, none, some}
use goto.Delay.{random_duration, millisecond}

-- A choice of a range: in the range, or a panic.
abbrev pub IsChoice : ℕ → ℕ → Option ℕ → Type 0
IsChoice min max none = (min < max) × (max - min < millisecond)
IsChoice min max (some d) =
    ((max ≤ min) ⊎ (millisecond ≤ max - min)) × (min ≤ d) × ((d ≡ min) ⊎ (d < max))

-- What is chosen for a range lies in it; nothing is chosen, for a panic, exactly if the range is wider
-- than a point and less than a millisecond wide.
pub random_duration-IsChoice : (seed min max : ℕ) → IsChoice min max (random_duration seed min max)
unfolding random_duration
random_duration-IsChoice seed min max = grind (arith)
