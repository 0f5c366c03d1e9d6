-- ===== src/Filter/Promised.antt =====
-- What the calls of a filter's handlers promise of its entries (filter.go): an addition enters one, a
-- removal takes one away, a clearing takes all.
use goto.Prelude.{
  Bool, true, false, ◌&&◌, ◌||◌, not, Option, none, some, List, [], ◌∷◌, any, Text, codes, text_eq,
  ◌==◌, if◌then◌else◌, to_lower,
}
use goto.Prelude.Dict.{Dict}
use goto.Params.Mux.{Request, get_string_param_value}
use goto.Filter.{RegexpLib}
use goto.Filter.Patterns.{uri_pattern, header_pattern, is_negative, match_uri_text}
use goto.Filter.Entries.{holds}
use goto.Filter.History.{Call, resets, clears, adds, removes, sets_status, asks_uri, asks_headers}

abbrev pub uri_of : Request → Text
uri_of r = get_string_param_value r (codes "uri")

abbrev pub header_of : Request → Text
header_of r = get_string_param_value r (codes "header")

abbrev pub value_of : Request → Text
value_of r = get_string_param_value r (codes "value")

module _ (re : RegexpLib) where
  open re use {Regexp, compile, match_string}

  -- The expression of each URI that has an entry.
  abbrev pub UriEntries : Type 0
  UriEntries = Text → Option Regexp

  -- The expression of each value of a header, in lower case, that has an entry.
  abbrev pub HeaderEntries : Type 0
  HeaderEntries = Text → Text → Option Regexp

  abbrev pub with_uri : Text → Option Regexp → UriEntries → UriEntries
  with_uri uri none e = e
  with_uri uri (some x) e = λ k. if uri == k then some x else e k

  -- A URI is entered as it is given.
  abbrev pub uri_added : Text → UriEntries → UriEntries
  uri_added [] e = e
  uri_added (c ∷ uri) e = with_uri (c ∷ uri) (compile (uri_pattern (match_uri_text (c ∷ uri)))) e

  -- A removal takes away the entry of the URI in lower case.
  abbrev pub uri_removed : Text → UriEntries → UriEntries
  uri_removed [] e = e
  uri_removed (c ∷ uri) e = λ k. if to_lower (c ∷ uri) == k then none else e k

  abbrev pub uri_call : Call re → UriEntries → UriEntries
  uri_call clears e = λ k. none
  uri_call (adds r) e = uri_added (uri_of r) e
  uri_call (removes r) e = uri_removed (uri_of r) e
  uri_call resets e = e
  uri_call (sets_status r) e = e
  uri_call (asks_uri r) e = e
  uri_call (asks_headers r) e = e

  unfoldable pub promised_uris : List (Call re) → UriEntries → UriEntries
  promised_uris [] e = e
  promised_uris (c ∷ cs) e = promised_uris cs (uri_call c e)

  abbrev pub with_value : Text → Text → Option Regexp → HeaderEntries → HeaderEntries
  with_value header value none e = e
  with_value header value (some x) e = λ h v. if header == h && value == v then some x else e h v

  -- A header is entered in lower case, its value as it is given; a call with a URI is about the URI.
  abbrev pub value_added : Text → Text → Text → HeaderEntries → HeaderEntries
  value_added (c ∷ uri) header value e = e
  value_added [] [] value e = e
  value_added [] (c ∷ header) value e =
      with_value (to_lower (c ∷ header)) value (compile (header_pattern value)) e

  abbrev pub value_removed : Text → Text → Text → HeaderEntries → HeaderEntries
  value_removed (c ∷ uri) header value e = e
  value_removed [] [] value e = e
  value_removed [] (c ∷ header) value e =
      λ h v. if to_lower (c ∷ header) == h && to_lower value == v then none else e h v

  abbrev pub header_call : Call re → HeaderEntries → HeaderEntries
  header_call clears e = λ h v. none
  header_call (adds r) e = value_added (uri_of r) (header_of r) (value_of r) e
  header_call (removes r) e = value_removed (uri_of r) (header_of r) (value_of r) e
  header_call resets e = e
  header_call (sets_status r) e = e
  header_call (asks_uri r) e = e
  header_call (asks_headers r) e = e

  unfoldable pub promised_headers : List (Call re) → HeaderEntries → HeaderEntries
  promised_headers [] e = e
  promised_headers (c ∷ cs) e = promised_headers cs (header_call c e)

  -- The texts that the calls give by one parameter of an addition.
  abbrev pub given : (Request → Text) → Call re → List Text → List Text
  given param (adds r) ks = param r ∷ ks
  given param resets ks = ks
  given param clears ks = ks
  given param (removes r) ks = ks
  given param (sets_status r) ks = ks
  given param (asks_uri r) ks = ks
  given param (asks_headers r) ks = ks

  unfoldable pub all_given : (Request → Text) → List (Call re) → List Text
  all_given param [] = []
  all_given param (c ∷ cs) = given param c (all_given param cs)

  -- Some entry of a URI without `!` matches, or there are entries of URIs with it and none of them does.
  abbrev pub entries_hit : UriEntries → List Text → Text → Bool
  entries_hit e ks uri =
      any (λ k. not (is_negative k) && holds (λ x. match_string x uri) (e k)) ks
      || any (λ k. is_negative k && holds (λ x. true) (e k)) ks
        && not (any (λ k. is_negative k && holds (λ x. match_string x uri) (e k)) ks)

  -- Whether a URI is to match after the calls.
  unfoldable pub promised_uri_hit : List (Call re) → Text → Bool
  unfolding promised_uris all_given
  promised_uri_hit cs = entries_hit (promised_uris cs (λ k. none)) (all_given uri_of cs)

  -- Some header has an entry that takes any value, or one that matches a value of it.
  abbrev pub values_hit : HeaderEntries → List Text → Dict Text (List Text) → Bool
  values_hit e ks [] = false
  values_hit e ks ((h, vs) ∷ rest) =
      (holds (λ x. true) (e (to_lower h) [])
        || any (λ v. holds (λ x. any (match_string x) vs) (e (to_lower h) v)) ks)
      || values_hit e ks rest

  -- Whether headers are to match after the calls.
  unfoldable pub promised_headers_hit : List (Call re) → Dict Text (List Text) → Bool
  unfolding promised_headers all_given
  promised_headers_hit cs = values_hit (promised_headers cs (λ h v. none)) (all_given value_of cs)
