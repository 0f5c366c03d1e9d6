-- ===== src/Filter/Kept/UriHit.antt =====
-- The test of URIs after any calls of a filter's handlers (filter.go, matchURI).
use goto.Prelude.{
  ◌≡◌, refl, sym, arith, Bool, true, false, ◌&&◌, not, Option, none, List, [], ◌∷◌, any, Text,
  text_eq, ◌==◌, if◌then◌else◌, Bool-cases, Option-cases, inl, inr, ◌∙◌, ap, fun_ext,
}
use goto.Prelude.Dict.{Dict, get, values}
use goto.Filter.{RegexpLib, RequestFilter, new_request_filter, is_empty}
use goto.Filter.Serving.{uri_hit}
use goto.Filter.Patterns.{uri_pattern, is_negative, match_uri_text}
use goto.Filter.Entries.{holds, is_named, any-values}
use goto.Filter.History.{
  Call, resets, clears, adds, removes, sets_status, asks_uri, asks_headers, run,
}
use goto.Filter.Kept.Uris.{HasUris, run-HasUris, new-HasUris}
use goto.Filter.Promised.{
  uri_of, UriEntries, uri_added, uri_removed, promised_uris, all_given, promised_uri_hit,
  entries_hit,
}

module _ (re : RegexpLib) where
  open re use {Regexp, compile, match_string}

  pos_holds :
      (p : Regexp → Bool) (k : Text) (o : Option Regexp) {got : Option Regexp}
      → got ≡ (if is_negative k then none else o)
      → holds p got ≡ (not (is_negative k) && holds p o)
  pos_holds p k o e = rw e (ground (arith, Bool-cases (is_negative k)))

  neg_holds :
      (p : Regexp → Bool) (k : Text) (o : Option Regexp) {got : Option Regexp}
      → got ≡ (if is_negative k then o else none)
      → holds p got ≡ (is_negative k && holds p o)
  neg_holds p k o e = rw e (ground (arith, Bool-cases (is_negative k)))

  uri_added-other :
      (uri : Text) (e : UriEntries re) (k : Text)
      → (uri == k) ≡ false
      → e k ≡ none
      → uri_added re uri e k ≡ none
  uri_added-other [] e k other none_yet = none_yet
  uri_added-other (c ∷ uri) e k other none_yet =
      elim (Option-cases (compile (uri_pattern (match_uri_text (c ∷ uri))))) [
        | inl n ↦ rw n none_yet
        | inr (x, n) ↦ rw (n, other) none_yet
      ]

  uri_removed-none :
      (uri : Text) (e : UriEntries re) (k : Text) → e k ≡ none → uri_removed re uri e k ≡ none
  uri_removed-none [] e k none_yet = none_yet
  uri_removed-none (c ∷ uri) e k none_yet = ground (arith, none_yet)

  some_value : (m : Dict Text Regexp) → any (λ x. true) (values m) ≡ not (is_empty m)
  some_value [] = refl
  some_value ((k, v) ∷ m) = refl

  -- The test of the URIs, by the entries.
  uri_hit-HasUris :
      (rf : RequestFilter re) (e : UriEntries re) (ks : List Text) (uri : Text)
      → HasUris re rf e
      → ((k : Text) → is_named k ks ≡ false → e k ≡ none)
      → uri_hit re rf.uri_updates rf.not_uri_updates uri ≡ entries_hit re e ks uri
  uri_hit-HasUris rf e ks uri (pos, neg, d, n) named =
      let p = λ (x : Regexp). match_string x uri in
      let pos_named : (k : Text) → is_named k ks ≡ false → get k rf.uri_updates ≡ none =
        λ k q. ground (arith, pos k, named k q) in
      let neg_named : (k : Text) → is_named k ks ≡ false → get k rf.not_uri_updates ≡ none =
        λ k q. ground (arith, neg k, named k q) in
      let pos_test =
        any-values p rf.uri_updates ks d pos_named
        ∙ ap (λ (f : Text → Bool). any f ks) (fun_ext (λ k. pos_holds p k (e k) (pos k))) in
      let neg_test =
        any-values p rf.not_uri_updates ks n neg_named
        ∙ ap (λ (f : Text → Bool). any f ks) (fun_ext (λ k. neg_holds p k (e k) (neg k))) in
      let neg_some =
        any-values (λ x. true) rf.not_uri_updates ks n neg_named
        ∙ ap (λ (f : Text → Bool). any f ks)
            (fun_ext (λ k. neg_holds (λ x. true) k (e k) (neg k))) in
      rw (pos_test, neg_test) (rw (sym neg_some) (rw (some_value rf.not_uri_updates) refl))

  promised_uris-named :
      (cs : List (Call re)) (e : UriEntries re) (k : Text)
      → is_named k (all_given re uri_of cs) ≡ false
      → e k ≡ none
      → promised_uris re cs e k ≡ none
  unfolding promised_uris all_given
  promised_uris-named [] e k out none_yet = none_yet
  promised_uris-named (resets ∷ cs) e k out none_yet = promised_uris-named cs e k out none_yet
  promised_uris-named (clears ∷ cs) e k out none_yet = promised_uris-named cs _ k out refl
  promised_uris-named (adds r ∷ cs) e k out none_yet =
      promised_uris-named cs (uri_added re (uri_of r) e) k (ground arith)
        (uri_added-other (uri_of r) e k (ground arith) none_yet)
  promised_uris-named (removes r ∷ cs) e k out none_yet =
      promised_uris-named cs (uri_removed re (uri_of r) e) k out
        (uri_removed-none (uri_of r) e k none_yet)
  promised_uris-named (sets_status r ∷ cs) e k out none_yet =
      promised_uris-named cs e k out none_yet
  promised_uris-named (asks_uri r ∷ cs) e k out none_yet = promised_uris-named cs e k out none_yet
  promised_uris-named (asks_headers r ∷ cs) e k out none_yet =
      promised_uris-named cs e k out none_yet

  -- After any calls that leave the lock free, the entries are those that the calls promise.
  pub run-promised_uri_hit :
      (cs : List (Call re)) (uri : Text)
      → (run re (new_request_filter re) cs).locked ≡ false
      → let rf = run re (new_request_filter re) cs in
        uri_hit re rf.uri_updates rf.not_uri_updates uri ≡ promised_uri_hit re cs uri
  unfolding promised_uri_hit
  run-promised_uri_hit cs uri free =
      uri_hit-HasUris (run re (new_request_filter re) cs) (promised_uris re cs (λ k. none))
        (all_given re uri_of cs) uri
        (run-HasUris re (new_request_filter re) cs (λ k. none) free (new-HasUris re))
        (λ k out. promised_uris-named cs (λ k. none) k out refl)
