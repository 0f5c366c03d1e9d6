-- ===== src/Status/Config/Match.antt =====
-- Which requests a config is for (statusManager.go, match).
use goto.Prelude.{
  ◌≡◌, ◌≢◌, refl, arith, true, false, not, Bool-cases, inl, inr, none, List, [], ◌∷◌, Text, text_eq,
  to_lower, to_lower_idem, has_prefix, eq_iff,
}
use goto.Prelude.Dict.{Dict, get, get-put, get_empty}
use goto.Status.Config.{
  StatusHeaderMatch, StatusMatch, status_match, header_match, to_lower_headers_values,
}

get-to_lower_headers :
    (h : Text) (headers : Dict Text (List Text))
    → to_lower h ≢ h
    → get h (to_lower_headers_values headers) ≡ none
unfolding to_lower_headers_values
get-to_lower_headers h [] n = get_empty h
get-to_lower_headers h ((j, []) ∷ rest) n = get-to_lower_headers h rest n
get-to_lower_headers h ((j, v ∷ vs) ∷ rest) n = ground (
  arith,
  get-put (to_lower j) h v (to_lower_headers_values rest),
  eq_iff (to_lower j) h,
  to_lower_idem j,
  get-to_lower_headers h rest n,
)

-- A header that a config names with a capital letter is never found: the request's headers are kept
-- in lower case.
pub header_match_capital :
    (m : StatusHeaderMatch) (headers : Dict Text (List Text))
    → to_lower m.header ≢ m.header
    → header_match m (to_lower_headers_values headers) ≡ not m.present
unfolding header_match
header_match_capital m headers n = rw (get-to_lower_headers m.header headers n)

prefix-lower :
    (uri prefix : Text) → has_prefix (to_lower uri) prefix ≡ true → to_lower prefix ≡ prefix
unfolding has_prefix to_lower
prefix-lower uri [] h = refl
prefix-lower [] (d ∷ p) h = cc
prefix-lower (c ∷ uri) (d ∷ p) h = ground (arith, prefix-lower uri p)

-- A prefix with a capital letter is no prefix of any URI, since URIs are put in lower case first.
pub prefix_capital :
    (uri prefix : Text) → to_lower prefix ≢ prefix → has_prefix (to_lower uri) prefix ≡ false
prefix_capital uri prefix n = elim (Bool-cases (has_prefix (to_lower uri) prefix)) [
  | inl yes' ↦ absurd (n (prefix-lower uri prefix yes'))
  | inr no' ↦ no'
]

to_lower_empty : to_lower [] ≡ []
unfolding to_lower
to_lower_empty = refl

-- A config whose prefix has a capital letter, and is not negated, is for no request at all.
pub status_match_capital_prefix :
    (sm : StatusMatch) (uri : Text) (headers : Dict Text Text)
    → to_lower sm.uri_match.prefix ≢ sm.uri_match.prefix
    → sm.uri_match.negated ≡ false
    → status_match sm (to_lower uri) headers ≡ false
unfolding status_match
status_match_capital_prefix sm uri headers n f =
    ground (arith, prefix_capital uri sm.uri_match.prefix n, to_lower_empty)

-- Nor is one that wants a header to be present whose name it gives with a capital letter.
pub status_match_capital_header :
    (sm : StatusMatch) (m : StatusHeaderMatch) (ms : List StatusHeaderMatch) (uri : Text)
    (headers : Dict Text (List Text))
    → sm.header_matches ≡ m ∷ ms
    → to_lower m.header ≢ m.header
    → m.present ≡ true
    → status_match sm uri (to_lower_headers_values headers) ≡ false
unfolding status_match
status_match_capital_header sm m ms uri headers e n p =
    rw (e, header_match_capital m headers n, p) (ground arith)
