-- ===== src/Filter/Serving.antt =====
-- The tests of a request (filter.go, applyUpdates, matchURI and matchHeaders).
use goto.Prelude.{
  ◌+◌, Bool, true, false, ◌&&◌, ◌||◌, not, Option, none, some, List, [], ◌∷◌, any, if◌then◌else◌,
  Text, text_eq, to_lower,
}
use goto.Prelude.Dict.{Dict, get, values}
use goto.Params.Mux.{Request}
use goto.Filter.{RegexpLib, RequestFilter, is_empty}

module _ (re : RegexpLib) where
  open re use {Regexp, match_string}

  -- The keys of a map are distinct, so the loop makes the same entries.
  unfoldable pub clone_uris : Dict Text Regexp → Dict Text Regexp
  clone_uris [] = []
  clone_uris ((k, v) ∷ orig) = (k, v) ∷ clone_uris orig

  unfoldable pub clone_headers : Dict Text (Dict Text Regexp) → Dict Text (Dict Text Regexp)
  clone_headers [] = []
  clone_headers ((h, m) ∷ orig) = (h, clone_uris m) ∷ clone_headers orig

  unfoldable pub apply_updates : RequestFilter re → RequestFilter re
  apply_updates rf =
      if rf.pending_updates
      then record rf {
        uris = clone_uris rf.uri_updates;
        not_uris = clone_uris rf.not_uri_updates;
        headers = clone_headers rf.header_updates;
        pending_updates = false;
        has_uris =
            not (is_empty (clone_uris rf.uri_updates))
            || not (is_empty (clone_uris rf.not_uri_updates));
      }
      else rf

  abbrev pub matches : Text → Regexp → Bool
  matches uri m = match_string m uri

  -- Some filter matches, or there are negative filters and none of them matches.
  abbrev pub uri_hit : Dict Text Regexp → Dict Text Regexp → Text → Bool
  uri_hit uris not_uris uri =
      any (matches uri) (values uris)
      || not (is_empty not_uris) && not (any (matches uri) (values not_uris))

  abbrev pub header_values_hit : Option (Dict Text Regexp) → List Text → Bool
  header_values_hit none vs = false
  header_values_hit (some m) vs =
      (elim (get [] m) [ none ↦ false | some x ↦ true ])
      || any (λ x. any (match_string x) vs) (values m)

  abbrev pub header_hit : Dict Text (Dict Text Regexp) → Dict Text (List Text) → Bool
  header_hit headers [] = false
  header_hit headers ((h, vs) ∷ rest) =
      header_values_hit (get (to_lower h) headers) vs || header_hit headers rest

  abbrev pub count_hit : RequestFilter re → Bool → RequestFilter re
  count_hit rf hit = if hit then record rf { filtered_count = rf.filtered_count + 1 } else rf

  -- The answer, or none where the caller waits for the lock forever.
  unfoldable pub match_uri : Request → RequestFilter re → RequestFilter re × Option Bool
  match_uri r rf =
      if not rf.has_uris
      then (rf, some false)
      else if rf.locked
      then (rf, none)
      else let rf' = apply_updates rf in
        let hit = uri_hit rf'.uris rf'.not_uris r.request_uri in (count_hit rf' hit, some hit)

  unfoldable pub match_headers : Request → RequestFilter re → RequestFilter re × Option Bool
  match_headers r rf =
      if not rf.has_headers
      then (rf, some false)
      else if rf.locked
      then (rf, none)
      else let rf' = apply_updates rf in
        let hit = header_hit rf'.headers r.headers in (count_hit rf' hit, some hit)
