-- ===== src/Status/Config.antt =====
-- One forced status and the requests that it is for (statusManager.go).
-- LastStatusIndex, LastStatus and StatusCount of a StatusConfig are never read or written there.
pub mod Countdown
pub mod Match
use goto.Prelude.{
  ℕ, zero, suc, ◌%◌, ◌+◌, Bool, true, false, ◌&&◌, ◌||◌, not, Option, none, some, List, [], ◌∷◌,
  length, get_elem?, all, if◌then◌else◌, ℤ, pos, negsuc, ltb_ℤ, leb_ℤ, is_positive, pred_ℤ, ◌==◌,
  int_eq, Text, text_eq, to_lower, equal_fold, has_prefix,
}
use goto.Prelude.Dict.{Dict, get, put}

pub record StatusHeaderMatch : Type 0 where
  pub header : Text
  pub header_value : Text
  pub present : Bool

pub record StatusUriMatch : Type 0 where
  pub prefix : Text
  pub exact : Text
  pub regex : Text
  pub negated : Bool

pub record StatusMatch : Type 0 where
  pub uri_match : StatusUriMatch
  pub header_matches : List StatusHeaderMatch
  pub method_match : List Text

-- A config of the manager, whose pointers are all set.
pub record StatusConfig : Type 0 where
  pub port : ℤ
  pub statuses : List ℤ
  pub times : ℤ
  pub match : StatusMatch

abbrev pub is_empty {ℓ} : {A : Type ℓ} → List A → Bool
is_empty [] = true
is_empty (x ∷ xs) = false

-- util.ToLowerHeadersValues: each header's first value, under its name in lower case.
unfoldable pub to_lower_headers_values : Dict Text (List Text) → Dict Text Text
to_lower_headers_values [] = []
to_lower_headers_values ((h, []) ∷ rest) = to_lower_headers_values rest
to_lower_headers_values ((h, v ∷ vs) ∷ rest) = put (to_lower h) v (to_lower_headers_values rest)

abbrev value_matches : StatusHeaderMatch → Option Text → Bool
value_matches m none = not m.present
value_matches m (some hv) = m.present && (is_empty m.header_value || equal_fold hv m.header_value)

-- StatusHeaderMatch.match
unfoldable pub header_match : StatusHeaderMatch → Dict Text Text → Bool
header_match m headers = value_matches m (get m.header headers)

abbrev pub bool_eq : Bool → Bool → Bool
bool_eq true b = b
bool_eq false b = not b

-- StatusHeaderMatch.matchOne
unfoldable pub match_one : StatusHeaderMatch → Text → Text → Bool → Bool
match_one m h hv present =
    bool_eq m.present present && (equal_fold h m.header && equal_fold hv m.header_value)

-- StatusMatch.match: the prefix, the exact URI and the headers; neither the regex nor the methods.
unfoldable pub status_match : StatusMatch → Text → Dict Text Text → Bool
status_match sm uri headers =
    let u = sm.uri_match in
    (is_empty u.prefix || not (bool_eq (has_prefix uri u.prefix) u.negated))
    && ((is_empty u.exact || not (bool_eq (equal_fold uri u.exact) u.negated))
        && all (λ m. header_match m headers) sm.header_matches)

-- types.RandomFrom: Intn(n) is `seed % n`, for a number that the environment chooses.
abbrev pub random_from : ℕ → List ℤ → ℤ
random_from seed vals = elim (get_elem? vals (seed % length vals)) [ none ↦ pos 0 | some v ↦ v ]

abbrev pick : ℕ → List ℤ → ℤ → ℤ × ℤ
pick seed [] times = (pos 0, pos 0)
pick seed (s ∷ []) times = (s, times)
pick seed (s ∷ t ∷ ss) times = (random_from seed (s ∷ t ∷ ss), times)

abbrev is_live : ℤ → Bool
is_live times = is_positive times || times == negsuc 0

abbrev spend : ℤ → ℤ
spend times = if is_positive times then pred_ℤ times else times

-- StatusConfig.GetStatus: the config after the call, the status and the times that are left.
unfoldable pub get_status : ℕ → StatusConfig → StatusConfig × (ℤ × ℤ)
get_status seed sc =
    if is_live sc.times
    then (record sc { times = spend sc.times }, pick seed sc.statuses (spend sc.times))
    else (sc, (pos 0, pos 0))

abbrev pub first_positive : List ℤ → Bool
first_positive [] = false
first_positive (c ∷ cs) = is_positive c

-- StatusConfig.SetStatus
unfoldable pub set_status : List ℤ → ℤ → StatusConfig → StatusConfig
set_status codes times sc =
    if first_positive codes
    then record sc { statuses = codes; times = if leb_ℤ (pos 1) times then times else negsuc 0 }
    else record sc { statuses = []; times = pos 0 }
