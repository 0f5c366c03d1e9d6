-- ===== src/Status/Manager.antt =====
-- The forced statuses of all ports (statusManager.go). Calls are taken one after the other: the
-- manager's lock is not modelled.
pub mod Payload
pub mod Apply
pub mod Setting
pub mod Serving
use goto.Prelude.{
  ℕ, zero, suc, ◌+◌, Bool, true, false, ◌&&◌, ◌||◌, not, Option, none, some, List, [], ◌∷◌, ◌++◌,
  map, take, drop, all, any, if◌then◌else◌, ℤ, pos, negsuc, ltb_ℤ, leb_ℤ, is_positive, ◌==◌, int_eq,
  Text, codes, text_eq, to_lower, equal_fold, nat_beq,
}
use mathlib.Core.Option
use goto.Prelude.Dict.{Dict, get, put}
use goto.Params.Regexp.{RegexpLib}
use goto.Status.Config.{
  StatusHeaderMatch, StatusUriMatch, StatusMatch, StatusConfig, is_empty, to_lower_headers_values,
  match_one, status_match, get_status, set_status,
}

-- StatusManager.PortStatus.
abbrev pub StatusManager : Type 0
StatusManager = Dict ℤ (List StatusConfig)

abbrev pub or_nil : Option (List StatusConfig) → List StatusConfig
or_nil none = []
or_nil (some l) = l

unfoldable pub configs : ℤ → StatusManager → List StatusConfig
configs port m = or_nil (get port m)

-- strings.TrimSpace, for the ASCII blanks.
is_space : ℕ → Bool
is_space c =
    nat_beq c 32
    || (nat_beq c 9 || (nat_beq c 10 || (nat_beq c 11 || (nat_beq c 12 || nat_beq c 13))))

trim_left : Text → Text
trim_left [] = []
trim_left (c ∷ s) = let rest = trim_left s in if is_space c then rest else c ∷ s

trim_right : Text → Text
trim_right [] = []
trim_right (c ∷ s) = let rest = trim_right s in if is_space c && is_empty rest then [] else c ∷ rest

unfoldable pub trim_space : Text → Text
unfolding trim_left trim_right is_space
trim_space s = trim_right (trim_left s)

abbrev pub header_list : Text → Text → Bool → List StatusHeaderMatch
header_list [] hv present = []
header_list (c ∷ h) hv present =
    record { header = c ∷ h; header_value = hv; present = present } ∷ []

-- What the callers of SetStatusFor ask for.
pub record Target : Type 0 where
  pub uri_exact : Text
  pub uri_prefix : Text
  pub header : Text
  pub header_value : Text
  pub present : Bool

unfoldable pub new_status_config : Target → List Text → List ℤ → ℤ → StatusConfig
new_status_config t methods codes times = record {
  port = pos 0;
  statuses = codes;
  times = times;
  match = record {
    uri_match = record { prefix = t.uri_prefix; exact = t.uri_exact; regex = []; negated = false };
    header_matches = header_list (trim_space t.header) t.header_value t.present;
    method_match = methods;
  };
}

-- Whether a config is the one that a target names.
unfoldable pub names : Target → StatusConfig → Bool
names t sc =
    equal_fold sc.match.uri_match.exact t.uri_exact
    && (equal_fold sc.match.uri_match.prefix t.uri_prefix
        && all (λ m. match_one m t.header t.header_value t.present) sc.match.header_matches)

-- The loop of findOrRemoveStatusConfig: the index of the first config that the target names.
unfoldable pub find_config : Target → List StatusConfig → Option ℕ
find_config t [] = none
find_config t (sc ∷ rest) =
    let later = Option.map suc (find_config t rest) in if names t sc then some 0 else later

-- `statuses[0:i]` and `statuses[i+1:]`, joined.
unfoldable pub remove_at : ℕ → List StatusConfig → List StatusConfig
remove_at i l = take i l ++ drop (suc i) l

abbrev removed : ℤ → StatusManager → List StatusConfig → Option ℕ → StatusManager
removed port m l none = m
removed port m l (some i) = put port (remove_at i l) m

unfoldable pub remove_status_config : ℤ → Target → StatusManager → StatusManager
remove_status_config port t m = let l = configs port m in removed port m l (find_config t l)

abbrev pub clear_target : Text → Text → Target
clear_target uri_exact uri_prefix = record {
  uri_exact = uri_exact;
  uri_prefix = uri_prefix;
  header = [];
  header_value = [];
  present = false;
}

unfoldable pub clear : ℤ → Text → Text → StatusManager → StatusManager
clear port uri_exact uri_prefix m =
    if is_empty uri_exact
    then put port [] m
    else remove_status_config port (clear_target uri_exact uri_prefix) m

-- The write through the pointer that findOrRemoveStatusConfig returned.
unfoldable pub update_at : ℕ → (StatusConfig → StatusConfig) → List StatusConfig → List StatusConfig
update_at i f [] = []
update_at zero f (sc ∷ l) = f sc ∷ l
update_at (suc i) f (sc ∷ l) = sc ∷ update_at i f l

abbrev pub lower_target : Target → Target
lower_target t = record t {
  uri_exact = to_lower t.uri_exact;
  uri_prefix = to_lower t.uri_prefix;
  header = to_lower t.header;
}

abbrev pub set_or_append :
    Option ℕ → Target → List Text → List ℤ → ℤ → List StatusConfig → List StatusConfig
set_or_append none t methods codes times l = l ++ new_status_config t methods codes times ∷ []
set_or_append (some i) t methods codes times l = update_at i (set_status codes times) l

unfoldable pub set_status_for : ℤ → Target → List Text → List ℤ → ℤ → StatusManager → StatusManager
set_status_for port t methods codes times m =
    let l = configs port m in
    let t' = lower_target t in
    put port (set_or_append (find_config t' l) t' methods codes times l) m

-- The loop of GetStatusFor: the first config that matches gives the status, and pays for it.
unfoldable pub serve_first :
    Text → Dict Text Text → ℕ → List StatusConfig → List StatusConfig × (ℤ × ℤ)
serve_first uri headers seed [] = ([], (pos 0, pos 0))
serve_first uri headers seed (sc ∷ rest) =
    let (sc', result) = get_status seed sc in
    let (rest', later) = serve_first uri headers seed rest in
    if status_match sc.match uri headers then (sc' ∷ rest, result) else (sc ∷ rest', later)

-- The method of the request is not looked at.
unfoldable pub get_status_for :
    ℤ → Text → Dict Text (List Text) → Text → ℕ → StatusManager → StatusManager × (ℤ × ℤ)
get_status_for port uri headers method seed m = elim (get port m) [
  | none ↦ (m, (pos 0, pos 0))
  | some l ↦
      let (l', result) = serve_first (to_lower uri) (to_lower_headers_values headers) seed l in
      (put port l' m, result)
]
