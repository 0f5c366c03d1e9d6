-- ===== src/Status/Manager/Payload.antt =====
-- A config that is read from JSON and applied (statusManager.go, ApplyStatusConfig).
use goto.Prelude.{
  Bool, true, false, ◌||◌, not, Option, none, some, List, [], ◌∷◌, ◌++◌, map, all, if◌then◌else◌, ℤ,
  pos, negsuc, leb_ℤ, ◌==◌, int_eq, Text, text_eq,
}
use goto.Prelude.Dict.{put}
use goto.Params.Regexp.{RegexpLib}
use goto.Status.Config.{StatusHeaderMatch, StatusUriMatch, StatusMatch, StatusConfig, is_empty}
use goto.Status.Manager.{StatusManager, configs}

-- A config as it is read from JSON, where a part that is not given is nil.
pub record HeaderPayload : Type 0 where
  pub header : Text
  pub header_value : Text
  pub present : Option Bool

pub record MatchPayload : Type 0 where
  pub uri_match : Option StatusUriMatch
  pub header_matches : Option (List HeaderPayload)
  pub method_match : List Text

pub record StatusPayload : Type 0 where
  pub port : ℤ
  pub statuses : List ℤ
  pub times : ℤ
  pub match : Option MatchPayload

pub data Error : Type 0 where
  no_status invalid_status invalid_status_times invalid_regex : Error

-- The manager with the config, or why it is refused.
pub data Outcome : Type 0 where
  accepted : StatusManager → Outcome
  refused : Error → Outcome

abbrev pub require : Bool → Error → Outcome → Outcome
require false why next = refused why
require true why next = next

abbrev pub zero_is_ok : ℤ → ℤ
zero_is_ok s = if s == pos 0 then pos 200 else s

abbrev filled_headers : Option (List HeaderPayload) → List StatusHeaderMatch
filled_headers none = []
filled_headers (some l) =
    map
      (λ h. record {
        header = h.header;
        header_value = h.header_value;
        present = elim h.present [ none ↦ true | some b ↦ b ];
      })
      l

abbrev no_uri_match : StatusUriMatch
no_uri_match = record { prefix = []; exact = []; regex = []; negated = false }

abbrev filled_uri : Option StatusUriMatch → StatusUriMatch
filled_uri none = no_uri_match
filled_uri (some u) = u

abbrev pub filled_match : Option MatchPayload → StatusMatch
filled_match none = record { uri_match = no_uri_match; header_matches = []; method_match = [] }
filled_match (some p) = record {
  uri_match = filled_uri p.uri_match;
  header_matches = filled_headers p.header_matches;
  method_match = p.method_match;
}

-- The config after ApplyStatusConfig has filled it.
abbrev pub applied : ℤ → StatusPayload → StatusConfig
applied port sc = record {
  port = if leb_ℤ sc.port (pos 0) then port else sc.port;
  statuses = map zero_is_ok sc.statuses;
  times = if sc.times == pos 0 then negsuc 0 else sc.times;
  match = filled_match sc.match;
}

abbrev pub append_config : StatusConfig → StatusManager → StatusManager
append_config sc m = put sc.port (configs sc.port m ++ sc ∷ []) m

module _ (re : RegexpLib) where
  abbrev pub compiles : Text → Bool
  compiles regex = is_empty regex || elim (re.compile regex) [ none ↦ false | some x ↦ true ]

  unfoldable pub apply_status_config : ℤ → StatusPayload → StatusManager → Outcome
  apply_status_config port sc m = require (not (is_empty sc.statuses)) no_status (
      require (all (λ s. leb_ℤ (pos 0) s) sc.statuses) invalid_status (
        require (leb_ℤ (negsuc 0) sc.times) invalid_status_times (
          require (compiles (filled_match sc.match).uri_match.regex) invalid_regex
            (accepted (append_config (applied port sc) m)))))
