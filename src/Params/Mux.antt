-- ===== src/Params/Mux.antt =====
-- pkg/util/muxutil.go: the parameters of a request, of which only GetStatusParam parses.
use goto.Prelude.{
  ℕ, ◌≡◌, refl, Bool, true, false, Option, none, some, List, [], ◌∷◌, nat_beq, if◌then◌else◌, ℤ,
  pos, negsuc, String, Text, codes, ◌==◌, int_eq, text_eq,
}
use goto.Prelude.Dict.{Dict, get}
use goto.Params.Numbers.{
  parsed, bad_syntax, out_of_range, parse_int, parse_unsigned, parse_digits, signed, value, half_32,
}

-- The fields of util.RequestStore that the modelled handlers read or write.
pub record RequestStore : Type 0 where
  pub request_port : Text
  pub request_port_num : ℤ
  pub request_port_checked : Bool
  pub is_admin_request : Bool
  pub is_known_non_traffic : Bool

abbrev pub fresh_store : RequestStore
fresh_store = record {
  request_port = [];
  request_port_num = pos 0;
  request_port_checked = false;
  is_admin_request = false;
  is_known_non_traffic = false;
}

-- What the handlers read of an http.Request: mux.Vars, the URI, the headers and the listener's port,
-- which the connection's context carries. The middleware chain has put a store into the context.
pub record Request : Type 0 where
  pub vars : Dict Text Text
  pub request_uri : Text
  pub headers : Dict Text (List Text)
  pub method : Text
  pub listener_port : ℤ
  pub store : RequestStore

-- strings.Split(s, sep) for one byte `sep`: never empty.
abbrev pub split_cons : ℕ → List Text → List Text
split_cons c [] = (c ∷ []) ∷ []
split_cons c (w ∷ ws) = (c ∷ w) ∷ ws

unfoldable pub split : ℕ → Text → List Text
split sep [] = [] ∷ []
split sep (c ∷ s) = let rest = split sep s in if nat_beq c sep then [] ∷ rest else split_cons c rest

abbrev or_empty : Option Text → Text
or_empty none = []
or_empty (some s) = s

-- A map access without the comma gives "" for a key that is not there.
unfoldable pub var : Request → Text → Text
var r param = or_empty (get param r.vars)

abbrev is_empty {ℓ} : {A : Type ℓ} → List A → Bool
is_empty [] = true
is_empty (x ∷ xs) = false

unfoldable pub get_string_param : Request → Text → Text × Bool
unfolding var
get_string_param r param = let v = var r param in if is_empty v then ([], false) else (v, true)

unfoldable pub get_string_param_value : Request → Text → Text
unfolding get_string_param
get_string_param_value r param = (get_string_param r param).0

status_codes : List Text → List ℤ
status_codes [] = []
status_codes (s ∷ ss) =
    let rest = status_codes ss in
    elim (parse_int half_32 s) [ parsed n ↦ n ∷ rest | bad_syntax ↦ rest | out_of_range n ↦ rest ]

pub record StatusParam : Type 0 where
  pub statuses : List ℤ
  pub times : ℤ
  pub present : Bool

status_times : List Text → ℤ
status_times [] = pos 0
status_times (s ∷ ss) = value (parse_int half_32 s)

abbrev never_zero : ℤ → ℤ
never_zero n = if n == pos 0 then negsuc 0 else n

status_pieces : List Text → StatusParam
unfolding status_codes status_times
status_pieces [] = record { statuses = []; times = negsuc 0; present = true }
status_pieces ([] ∷ rest) = record { statuses = []; times = negsuc 0; present = true }
status_pieces ((c ∷ s) ∷ rest) = record {
  statuses = status_codes (split b',' (c ∷ s));
  times = never_zero (status_times rest);
  present = true;
}

parse_status : Text → StatusParam
unfolding status_pieces
parse_status [] = record { statuses = []; times = pos 0; present = false }
parse_status (c ∷ s) = status_pieces (split b':' (c ∷ s))

unfoldable pub get_status_param : Request → StatusParam
unfolding parse_status var
get_status_param r = parse_status (var r (codes "status"))

abbrev pub status_request : String → Request
status_request s = record {
  vars = (codes "status", codes s) ∷ [];
  request_uri = codes "/status";
  headers = [];
  method = codes "GET";
  listener_port = pos 8080;
  store = fresh_store;
}

get_status_param_runs :
    get_status_param (status_request "502,x,503:4")
    ≡ record { statuses = pos 502 ∷ pos 503 ∷ []; times = pos 4; present = true }
unfolding get_status_param split get text_eq parse_int parse_unsigned parse_digits signed
get_status_param_runs = refl
