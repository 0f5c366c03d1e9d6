-- ===== src/Filter/Kept/HeaderHit.antt =====
-- The test of headers after any calls of a filter's handlers (filter.go, matchHeaders).
use goto.Prelude.{
  ◌≡◌, refl, arith, Bool, true, false, ◌||◌, Option, none, some, List, [], ◌∷◌, any, Text, text_eq,
  ◌==◌, to_lower, Option-cases, inl, inr, ◌∙◌, ap, fun_ext,
}
use goto.Prelude.Dict.{Dict, get, values, get_empty}
use goto.Filter.{RegexpLib, new_request_filter, or_empty}
use goto.Filter.Serving.{header_hit, header_values_hit}
use goto.Filter.Patterns.{header_pattern}
use goto.Filter.Entries.{holds, is_named, any-values}
use goto.Filter.History.{
  Call, resets, clears, adds, removes, sets_status, asks_uri, asks_headers, run,
}
use goto.Filter.Kept.Headers.{values_at, HasValues, run-HasValues, new-HasValues}
use goto.Filter.Promised.{
  uri_of, header_of, value_of, HeaderEntries, value_added, value_removed, promised_headers,
  all_given, promised_headers_hit, values_hit,
}

module _ (re : RegexpLib) where
  open re use {Regexp, compile, match_string}

  header_values_hit-or_empty :
      (o : Option (Dict Text Regexp)) (vs : List Text)
      → header_values_hit re o vs ≡ (
          holds (λ x. true) (get [] (or_empty re o))
          || any (λ x. any (match_string x) vs) (values (or_empty re o)))
  header_values_hit-or_empty none vs = ground (arith, get_empty {K = Text} {V = Regexp} [])
  header_values_hit-or_empty (some m) vs = elim (Option-cases (get [] m)) [
    | inl e ↦ ground (arith, e)
    | inr (x, e) ↦ ground (arith, e)
  ]

  -- The test of the headers, by the entries.
  header_hit-HasValues :
      (u : Dict Text (Dict Text Regexp)) (e : HeaderEntries re) (ks : List Text)
      (headers : Dict Text (List Text))
      → HasValues re u e
      → ((h k : Text) → is_named k ks ≡ false → e h k ≡ none)
      → header_hit re u headers ≡ values_hit re e ks headers
  header_hit-HasValues u e ks [] has named = refl
  header_hit-HasValues u e ks ((h, vs) ∷ rest) (got, d) named =
      let p = λ (x : Regexp). any (match_string x) vs in
      let here = to_lower h in
      let out : (k : Text) → is_named k ks ≡ false → get k (values_at re here u) ≡ none =
        λ k q. got here k ∙ named here k q in
      let test =
        any-values p (values_at re here u) ks (d here) out
        ∙ ap (λ (f : Text → Bool). any f ks) (fun_ext (λ k. ap (holds p) (got here k))) in
      rw (header_values_hit-or_empty (get here u) vs, test, got here [])
        (rw (header_hit-HasValues u e ks rest (got, d) named) refl)

  value_added-other :
      (uri header value : Text) (e : HeaderEntries re) (h k : Text)
      → (value == k) ≡ false
      → e h k ≡ none
      → value_added re uri header value e h k ≡ none
  value_added-other (c ∷ uri) header value e h k other none_yet = none_yet
  value_added-other [] [] value e h k other none_yet = none_yet
  value_added-other [] (c ∷ header) value e h k other none_yet =
      elim (Option-cases (compile (header_pattern value))) [
        | inl n ↦ rw n none_yet
        | inr (x, n) ↦ rw (n, other) (ground (arith, none_yet))
      ]

  value_removed-none :
      (uri header value : Text) (e : HeaderEntries re) (h k : Text)
      → e h k ≡ none
      → value_removed re uri header value e h k ≡ none
  value_removed-none (c ∷ uri) header value e h k none_yet = none_yet
  value_removed-none [] [] value e h k none_yet = none_yet
  value_removed-none [] (c ∷ header) value e h k none_yet = ground (arith, none_yet)

  promised_headers-named :
      (cs : List (Call re)) (e : HeaderEntries re) (h k : Text)
      → is_named k (all_given re value_of cs) ≡ false
      → e h k ≡ none
      → promised_headers re cs e h k ≡ none
  unfolding promised_headers all_given
  promised_headers-named [] e h k out none_yet = none_yet
  promised_headers-named (resets ∷ cs) e h k out none_yet =
      promised_headers-named cs e h k out none_yet
  promised_headers-named (clears ∷ cs) e h k out none_yet =
      promised_headers-named cs (λ h' k'. none) h k out refl
  promised_headers-named (adds r ∷ cs) e h k out none_yet =
      promised_headers-named cs (value_added re (uri_of r) (header_of r) (value_of r) e) h k
        (ground arith)
        (value_added-other (uri_of r) (header_of r) (value_of r) e h k (ground arith) none_yet)
  promised_headers-named (removes r ∷ cs) e h k out none_yet =
      promised_headers-named cs (value_removed re (uri_of r) (header_of r) (value_of r) e) h k out
        (value_removed-none (uri_of r) (header_of r) (value_of r) e h k none_yet)
  promised_headers-named (sets_status r ∷ cs) e h k out none_yet =
      promised_headers-named cs e h k out none_yet
  promised_headers-named (asks_uri r ∷ cs) e h k out none_yet =
      promised_headers-named cs e h k out none_yet
  promised_headers-named (asks_headers r ∷ cs) e h k out none_yet =
      promised_headers-named cs e h k out none_yet

  pub run-promised_headers_hit :
      (cs : List (Call re)) (headers : Dict Text (List Text))
      → (run re (new_request_filter re) cs).locked ≡ false
      → header_hit re (run re (new_request_filter re) cs).header_updates headers
        ≡ promised_headers_hit re cs headers
  unfolding promised_headers_hit
  run-promised_headers_hit cs headers free =
      header_hit-HasValues (run re (new_request_filter re) cs).header_updates
        (promised_headers re cs (λ h k. none)) (all_given re value_of cs) headers
        (run-HasValues re (new_request_filter re) cs (λ h k. none) free (new-HasValues re))
        (λ h k out. promised_headers-named cs (λ h' k'. none) h k out refl)
