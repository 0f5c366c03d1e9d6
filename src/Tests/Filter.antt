-- ===== src/Tests/Filter.antt =====
-- The filters at concrete histories, with a regular expression that matches the texts of its own
-- letters in either case, and does not compile from `[`.
use goto.Prelude.{
  ◌≡◌, refl, true, false, some, none, List, [], ◌∷◌, ◌++◌, if◌then◌else◌, ◌+◌, String, Text, codes,
  text_eq, ◌==◌, to_lower, contains,
}
use goto.Prelude.Dict.{get, put, delete}
use goto.Params.Mux.{Request, status_request, get_string_param_value}
use goto.Params.Regexp.{RegexpLib}
use goto.Filter.{
  RequestFilter, new_request_filter, add_uri, add_header, add_filter_header_or_uri,
  remove_ignore_header_or_uri, remove_uri,
}
use goto.Filter.Serving.{match_uri, match_headers, apply_updates, clone_uris}
use goto.Filter.Patterns.{header_pattern, match_uri_text, is_negative}
use goto.Filter.History.{Call, step, run}
use goto.Filter.Matching.{match_uri_exact, match_headers_exact}
use goto.Filter.Promised.{
  promised_uri_hit, promised_headers_hit, promised_uris, promised_headers, all_given,
}
use goto.Filter.Lockout.{AreLockedOut, bad_header_locks_out}
use goto.Filter.Chain.{
  Filters, filter_request, filters_after, filter_request_exact, decision, any_hit, counted,
}

abbrev literal : RegexpLib
literal = record {
  Regexp = Text;
  compile = λ s. if contains s (codes "[") then none else some s;
  match_string = λ p s. p == codes "(?i)^" ++ (to_lower s ++ codes "$");
}

abbrev uri_request : String → Request
uri_request uri = record (status_request "200") {
  vars = (codes "uri", codes uri) ∷ [];
  request_uri = codes uri;
}

abbrev header_request : String → String → Request
header_request header value = record (status_request "200") {
  vars = (codes "header", codes header) ∷ (codes "value", codes value) ∷ [];
  headers = (codes header, codes value ∷ []) ∷ [];
}

-- /foo is added, then removed and added again; the header is wanted with one value.
abbrev history : List (Call literal)
history =
    Call.adds (uri_request "/foo")
    ∷ Call.asks_uri (uri_request "/foo")
    ∷ Call.removes (uri_request "/foo")
    ∷ Call.adds (uri_request "/bar")
    ∷ Call.adds (header_request "X-Tag" "dev")
    ∷ []

abbrev filter : RequestFilter literal
filter = run literal (new_request_filter literal) history

filter-locked : filter.locked ≡ false
unfolding run step add_filter_header_or_uri add_uri add_header remove_ignore_header_or_uri
    remove_uri match_uri get_string_param_value get put delete text_eq contains header_pattern
    to_lower match_uri_text is_negative apply_updates clone_uris
filter-locked = refl

match_uri_exact_example :
    let hit = promised_uri_hit literal history (codes "/bar") in
    ((match_uri literal (uri_request "/bar") filter).1 ≡ some hit)
    × ((match_uri literal (uri_request "/bar") filter).0.filtered_count
        ≡ (if hit then filter.filtered_count + 1 else filter.filtered_count))
match_uri_exact_example = match_uri_exact literal history (uri_request "/bar") filter-locked

match_headers_exact_example :
    let hit = promised_headers_hit literal history (header_request "X-Tag" "DEV").headers in
    ((match_headers literal (header_request "X-Tag" "DEV") filter).1 ≡ some hit)
    × ((match_headers literal (header_request "X-Tag" "DEV") filter).0.filtered_count
        ≡ (if hit then filter.filtered_count + 1 else filter.filtered_count))
match_headers_exact_example =
    match_headers_exact literal history (header_request "X-Tag" "DEV") filter-locked

-- /foo was removed, /bar was not; the header's value is wanted in either case.
promised_hits :
    (promised_uri_hit literal history (codes "/foo") ≡ false)
    × (promised_uri_hit literal history (codes "/bar") ≡ true)
    × (promised_headers_hit literal history (header_request "x-tag" "DEV").headers ≡ true)
unfolding promised_uri_hit promised_uris promised_headers_hit promised_headers all_given
    get_string_param_value get text_eq contains header_pattern to_lower match_uri_text is_negative
promised_hits = (refl, refl, refl)

abbrev both : Filters literal
both = filters_after literal history []

filter_request_exact_example :
    ((filter_request literal (uri_request "/bar") both).1
      ≡ decision literal (uri_request "/bar") both)
    × (counted literal (filter_request literal (uri_request "/bar") both).0 ≡ (
        if any_hit literal (uri_request "/bar") both
        then counted literal both + 1
        else counted literal both))
unfolding run
filter_request_exact_example =
    filter_request_exact literal history [] (uri_request "/bar") filter-locked refl

abbrev capital : RequestFilter literal
capital = (add_uri literal (new_request_filter literal) (codes "/Bar")).0

bad_header_locks_out_example :
    AreLockedOut literal
      (run literal (add_header literal filter (codes "X-Tag") (codes "[")).0 history)
      filter.has_uris
      filter.has_headers
      (uri_request "/bar")
unfolding header_pattern contains to_lower
bad_header_locks_out_example =
    bad_header_locks_out literal filter (codes "X-Tag") (codes "[") history (uri_request "/bar")
      filter-locked refl
