-- ===== src/Delay.antt =====
-- Delays: ranges, their parsing and their random choice (pkg/types/delay.go, pkg/types/random.go).
-- A duration is a number of nanoseconds that is not negative; time.ParseDuration is an argument, and so
-- is each random number. A panic is none.
pub mod Server
pub mod Choice
pub mod Counted
use goto.Prelude.{
  ℕ, ◌+◌, ◌-◌, ◌*◌, ◌/◌, ◌%◌, Bool, true, false, ◌&&◌, ◌||◌, not, Option, none, some, List, [], ◌∷◌,
  nat_beq, ltb, if◌then◌else◌, ℤ, pos, negsuc, is_positive, leb_ℤ, int_eq, pred_ℤ, Text, ◌==◌,
}
use goto.Params.Numbers.{Parsed, parsed, parse_int, half_32}
use goto.Params.Mux.{split}

abbrev pub millisecond : ℕ
millisecond = 1000000

-- RandomDuration without a fallback: Int63n panics at 0.
unfoldable pub random_duration : ℕ → ℕ → ℕ → Option ℕ
random_duration seed min max =
    if nat_beq min 0 && nat_beq max 0
    then some 0
    else if ltb min max
    then (if nat_beq ((max - min) / millisecond) 0
        then none
        else some (min + millisecond * (seed % ((max - min) / millisecond))))
    else some min

pub record DurationRange : Type 0 where
  pub low : ℕ
  pub high : ℕ
  pub count : ℤ
  pub ok : Bool

abbrev invalid_range : DurationRange
invalid_range = record { low = 0; high = 0; count = pos 0; ok = false }

-- The bounds in their order; a bound that is no duration counts as 0 and stays high.
abbrev with_high : ℕ → List (Option ℕ) → ℕ × ℕ
with_high low [] = (low, low)
with_high low (none ∷ ds) = (low, 0)
with_high low (some d ∷ ds) = if ltb d low then (d, low) else (low, d)

abbrev count_of : Parsed → ℤ
count_of (parsed c) = if is_positive c then c else pos 0
count_of _ = pos 0

abbrev range_count : List Text → ℤ
range_count [] = pos 0
range_count (c ∷ cs) = count_of (parse_int half_32 c)

abbrev range_of : List (Option ℕ) → ℤ → DurationRange
range_of [] count = invalid_range
range_of (none ∷ ds) count = invalid_range
range_of (some low ∷ ds) count =
    let (l, h) = with_high low ds in record { low = l; high = h; count = count; ok = true }

abbrev parse_all : (Text → Option ℕ) → List Text → List (Option ℕ)
parse_all parse_duration [] = []
parse_all parse_duration (t ∷ ts) = parse_duration t ∷ parse_all parse_duration ts

abbrev range_pieces : (Text → Option ℕ) → List Text → DurationRange
range_pieces parse_duration [] = invalid_range
range_pieces parse_duration (r ∷ rest) =
    range_of (parse_all parse_duration (split b'-' r)) (range_count rest)

-- ParseDurationRange
unfoldable pub parse_duration_range : (Text → Option ℕ) → Text → DurationRange
parse_duration_range parse_duration val = range_pieces parse_duration (split b':' val)

pub record Delay : Type 0 where
  pub min : ℕ
  pub max : ℕ
  pub count : ℤ
  pub computed_delay : ℕ
  pub has_computed : Bool

-- Count > 0 || Count == -1
abbrev pub is_live : ℤ → Bool
is_live count = is_positive count || count == negsuc 0

-- NewDelay
unfoldable pub new_delay : ℕ → ℕ → ℤ → Option Delay
new_delay min max count =
    if ltb 0 max && leb_ℤ (negsuc 0) count
    then some (record {
      min = min;
      max = max;
      count = if count == pos 0 then negsuc 0 else count;
      computed_delay = 0;
      has_computed = false;
    })
    else none

-- ParseDelay
unfoldable pub parse_delay : (Text → Option ℕ) → Text → Option Delay
parse_delay parse_duration val =
    let r = parse_duration_range parse_duration val in
    if r.ok then new_delay r.low r.high r.count else none

unfoldable pub is_non_zero : Delay → Bool
is_non_zero d = ltb 0 d.min && (ltb 0 d.max && is_live d.count)

unfoldable pub is_larger_than : Delay → Delay → Bool
is_larger_than d d2 = ltb d2.max d.max || nat_beq d.max d2.max && ltb d2.min d.min

-- Prepare
unfoldable pub prepare : Delay → Delay
prepare d = record d {
  min = if ltb d.max d.min then d.max else d.min;
  count = if d.count == pos 0 || not (leb_ℤ (negsuc 0) d.count) then negsuc 0 else d.count;
}

abbrev computed : Delay → Option ℕ → Option Delay
computed d none = none
computed d (some t) = some (record d { computed_delay = t; has_computed = true })

-- Compute: the delay with its computed time.
unfoldable pub compute : ℕ → Delay → Option Delay
compute seed d =
    if not d.has_computed && is_live d.count
    then computed d (random_duration seed d.min d.max)
    else some d

abbrev applied : Delay → Delay × ℕ
applied d =
    if is_live d.count
    then (if ltb 0 d.computed_delay
        then (
          record d {
            has_computed = false;
            count = if is_positive d.count then pred_ℤ d.count else d.count;
          },
          d.computed_delay,
        )
        else (record d { has_computed = false }, 0))
    else (record d { has_computed = false; computed_delay = 0 }, 0)

abbrev then_apply : Option Delay → Option (Delay × ℕ)
then_apply none = none
then_apply (some d) = some (applied d)

-- Apply: the time that it sleeps.
unfoldable pub apply : ℕ → Delay → Option (Delay × ℕ)
apply seed d = then_apply (compute seed d)

abbrev told : ℕ → Option Delay → Option (Delay × ℕ × ℕ)
told seed none = none
told seed (some d) = elim (apply seed d) [
  | none ↦ none
  | some (d', slept) ↦ some (d', d.computed_delay, slept)
]

-- ComputeAndApply: the time that the callback is told, and the time that is slept.
unfoldable pub compute_and_apply : ℕ → Delay → Option (Delay × ℕ × ℕ)
compute_and_apply seed d = told seed (compute seed d)
