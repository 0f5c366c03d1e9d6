-- ===== src/Status/FlipFlop.antt =====
-- Statuses that follow one another over the requests of one id (status.go, PortStatus.flipflop).
pub mod Cycle
pub mod Single
use goto.Prelude.{
  ℕ, zero, suc, ◌+◌, ◌-◌, Bool, true, false, ◌&&◌, ◌||◌, not, Option, none, some, List, [], ◌∷◌,
  length, get_elem?, ltb, if◌then◌else◌, ℤ, pos, negsuc, is_positive, pred_ℤ, leb_ℤ, ◌==◌, int_eq,
  Text, text_eq,
}
use mathlib.Core.Option
use goto.Prelude.Dict.{Dict, get, put, delete}

pub record FlipFlopConfig : Type 0 where
  pub times : ℤ
  pub status_count : ℤ
  pub last_status_index : ℕ
  pub last_status : ℤ

-- A call's outcome: the config to keep under the request's id, if any, the status, and the value of
-- the header that marks the flip back.
pub record Flip : Type 0 where
  pub kept : Option FlipFlopConfig
  pub status : ℤ
  pub flip_header : Option ℤ

abbrev pub new_config : ℤ → FlipFlopConfig
new_config times = record {
  times = times;
  status_count = times;
  last_status_index = 0;
  last_status = pos 0;
}

-- Two statuses or more: one after the other, then 200, and from the start again. The header of the
-- flip names the status before; none is the panic of an index out of range.
unfoldable pub flip_many : List ℤ → FlipFlopConfig → Option Flip
flip_many statuses c =
    if ltb c.last_status_index (length statuses)
    then Option.map
        (λ s. record {
          kept = some (record c { last_status_index = suc c.last_status_index });
          status = s;
          flip_header = none;
        })
        (get_elem? statuses c.last_status_index)
    else Option.map (λ s. record { kept = none; status = pos 200; flip_header = some s })
        (get_elem? statuses (c.last_status_index - 1))

abbrev restated : ℤ → ℤ → FlipFlopConfig → FlipFlopConfig
restated s times c =
    if not (times == c.times) || not (s == c.last_status)
    then record c { status_count = times; times = times; last_status = s }
    else c

abbrev count_down : ℤ → FlipFlopConfig → FlipFlopConfig
count_down times c =
    if is_positive times then record c { status_count = pred_ℤ c.status_count } else c

-- The config stays in the map with what was written to it, unless its count is below 0 at a restart.
abbrev keep : Bool → FlipFlopConfig → Option FlipFlopConfig
keep restart c = if leb_ℤ (pos 0) c.status_count then some c else if restart then none else some c

abbrev counted : ℤ → ℤ → Bool → FlipFlopConfig → Flip
counted s times restart c = record { kept = keep restart c; status = s; flip_header = none }

abbrev flip_back : ℤ → Bool → FlipFlopConfig → Flip
flip_back s restart c = record {
  kept = keep restart (record c { status_count = negsuc 0 });
  status = pos 200;
  flip_header = some s;
}

abbrev flip_restated : ℤ → ℤ → Bool → FlipFlopConfig → Flip
flip_restated s times restart c =
    if c.status_count == negsuc 0 && restart
    then counted s times restart (count_down times (record c { status_count = times }))
    else if c.status_count == pos 0 || not restart && c.status_count == negsuc 0
    then flip_back s restart c
    else counted s times restart (count_down times c)

-- One status, a number of times.
unfoldable pub flip_one : ℤ → ℤ → Bool → FlipFlopConfig → Flip
flip_one s times restart c = flip_restated s times restart (restated s times c)

abbrev pub flip : List ℤ → ℤ → Bool → FlipFlopConfig → Option Flip
flip [] times restart c = some (record { kept = some c; status = pos 200; flip_header = none })
flip (s ∷ []) times restart c = some (flip_one s times restart c)
flip (s ∷ t ∷ ss) times restart c = flip_many (s ∷ t ∷ ss) c

abbrev pub config_or_new : ℤ → Option FlipFlopConfig → FlipFlopConfig
config_or_new times none = new_config times
config_or_new times (some c) = c

abbrev pub store :
    Text → Option FlipFlopConfig → Dict Text FlipFlopConfig → Dict Text FlipFlopConfig
store id none m = delete id m
store id (some c) m = put id c m

-- PortStatus.flipflop: the configs after the call and its outcome, or a panic.
unfoldable pub flipflop :
    Text → List ℤ → ℤ → Bool → Dict Text FlipFlopConfig → Option (Dict Text FlipFlopConfig × Flip)
flipflop id statuses times restart m =
    Option.map (λ f. (store id f.kept m, f))
      (flip statuses times restart (config_or_new times (get id m)))
