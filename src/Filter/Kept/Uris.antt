-- ===== src/Filter/Kept/Uris.antt =====
-- The entries of URIs that a filter has after any calls of its handlers (filter.go).
use goto.Prelude.{
  ◌≡◌, arith, false, none, some, List, [], ◌∷◌, Text, text_eq, ◌==◌, eq_iff, if◌then◌else◌,
  to_lower, Bool-cases, Option-cases, inl, inr,
}
use goto.Prelude.Dict.{get, get-put, get-delete, get_empty}
use goto.Params.Mux.{Request}
use goto.Filter.{
  RegexpLib, RequestFilter, new_request_filter, enter_uri, add_uri, remove_uri, add_header,
  remove_header, add_either, remove_either, add_filter_header_or_uri, remove_ignore_header_or_uri,
  set_or_get_ignore_status, reset_count, clear,
}
use goto.Filter.Serving.{match_uri, match_headers, apply_updates}
use goto.Filter.Patterns.{uri_pattern, is_negative, match_uri_text}
use goto.Filter.Entries.{AreDistinct, put-AreDistinct, delete-AreDistinct}
use goto.Filter.History.{
  Call, resets, clears, adds, removes, sets_status, asks_uri, asks_headers, step, run,
}
use goto.Filter.Kept.{was_free}
use goto.Filter.Promised.{UriEntries, with_uri, uri_added, uri_removed, uri_call, promised_uris}

module _ (re : RegexpLib) where
  open re use {Regexp, compile, match_string}

  -- The two maps of URIs have the entries e: of the URIs with `!` in one, of the others in the other.
  abbrev pub HasUris : RequestFilter re → UriEntries re → Type 0
  HasUris rf e =
      ((k : Text) → get k rf.uri_updates ≡ (if is_negative k then none else e k))
      × ((k : Text) → get k rf.not_uri_updates ≡ (if is_negative k then e k else none))
      × AreDistinct rf.uri_updates
      × AreDistinct rf.not_uri_updates

  enter_uri-HasUris :
      (rf : RequestFilter re) (e : UriEntries re) (uri : Text) (x : Regexp)
      → HasUris rf e
      → HasUris (enter_uri re rf uri x) (with_uri re uri (some x) e)
  enter_uri-HasUris rf e uri x (pos, neg, d, n) = elim (Bool-cases (is_negative uri)) [
    | inl b ↦ (
      λ k. ground (arith, b, pos k, eq_iff uri k),
      λ k. ground (arith, b, neg k, get-put uri k x rf.not_uri_updates, eq_iff uri k),
      ground (arith, b, d),
      ground (arith, b, put-AreDistinct uri x rf.not_uri_updates n),
    )
    | inr b ↦ (
      λ k. ground (arith, b, pos k, get-put uri k x rf.uri_updates, eq_iff uri k),
      λ k. ground (arith, b, neg k, eq_iff uri k),
      ground (arith, b, put-AreDistinct uri x rf.uri_updates d),
      ground (arith, b, n),
    )
  ]

  add_uri-panic :
      (rf : RequestFilter re) (uri : Text)
      → compile (uri_pattern (match_uri_text uri)) ≡ none
      → (add_uri re rf uri).0 ≡ rf
  unfolding add_uri
  add_uri-panic rf uri c = ground (arith, c)

  add_uri-done :
      (rf : RequestFilter re) (uri : Text) (x : Regexp)
      → rf.locked ≡ false
      → compile (uri_pattern (match_uri_text uri)) ≡ some x
      → (add_uri re rf uri).0 ≡ enter_uri re rf uri x
  unfolding add_uri
  add_uri-done rf uri x l c = ground (arith, c, l)

  add_uri-HasUris :
      (rf : RequestFilter re) (e : UriEntries re) (uri : Text)
      → rf.locked ≡ false
      → HasUris rf e
      → HasUris
          (add_uri re rf uri).0
          (with_uri re uri (compile (uri_pattern (match_uri_text uri))) e)
  add_uri-HasUris rf e uri l has =
      elim (Option-cases (compile (uri_pattern (match_uri_text uri)))) [
        | inl c ↦ rw (add_uri-panic rf uri c) (rw c has)
        | inr (x, c) ↦ rw (add_uri-done rf uri x l c) (rw c (enter_uri-HasUris rf e uri x has))
      ]

  remove_uri-HasUris :
      (rf : RequestFilter re) (e : UriEntries re) (uri : Text)
      → rf.locked ≡ false
      → HasUris rf e
      → HasUris (remove_uri re rf uri).0 (λ k. if to_lower uri == k then none else e k)
  unfolding remove_uri
  remove_uri-HasUris rf e uri l (pos, neg, d, n) = rw l (
    λ k. ground (arith, pos k, get-delete (to_lower uri) k rf.uri_updates),
    λ k. ground (arith, neg k, get-delete (to_lower uri) k rf.not_uri_updates),
    delete-AreDistinct (to_lower uri) rf.uri_updates d,
    delete-AreDistinct (to_lower uri) rf.not_uri_updates n,
  )

  -- A call about a header leaves the URIs.
  abbrev SameUris : RequestFilter re → RequestFilter re → Type 0
  SameUris rf rf' = (rf'.uri_updates ≡ rf.uri_updates) × (rf'.not_uri_updates ≡ rf.not_uri_updates)

  SameUris-HasUris :
      (rf rf' : RequestFilter re) (e : UriEntries re)
      → SameUris rf rf'
      → HasUris rf e
      → HasUris rf' e
  SameUris-HasUris rf rf' e (u, n) has = rw (u, n) has

  add_header-SameUris : (rf : RequestFilter re) (h v : Text) → SameUris rf (add_header re rf h v).0
  unfolding add_header
  add_header-SameUris rf h v = ground arith

  remove_header-SameUris :
      (rf : RequestFilter re) (h v : Text) → SameUris rf (remove_header re rf h v).0
  unfolding remove_header
  remove_header-SameUris rf h v = ground arith

  add_either-HasUris :
      (rf : RequestFilter re) (e : UriEntries re) (uri h v : Text)
      → rf.locked ≡ false
      → HasUris rf e
      → HasUris (add_either re rf uri h v).0 (uri_added re uri e)
  add_either-HasUris rf e (c ∷ uri) h v l has = add_uri-HasUris rf e (c ∷ uri) l has
  add_either-HasUris rf e [] (c ∷ h) v l has =
      SameUris-HasUris rf (add_header re rf (c ∷ h) v).0 e (add_header-SameUris rf (c ∷ h) v) has
  add_either-HasUris rf e [] [] v l has = has

  remove_either-HasUris :
      (rf : RequestFilter re) (e : UriEntries re) (uri h v : Text)
      → rf.locked ≡ false
      → HasUris rf e
      → HasUris (remove_either re rf uri h v).0 (uri_removed re uri e)
  remove_either-HasUris rf e (c ∷ uri) h v l has = remove_uri-HasUris rf e (c ∷ uri) l has
  remove_either-HasUris rf e [] (c ∷ h) v l has =
      SameUris-HasUris rf (remove_header re rf (c ∷ h) v).0 e (remove_header-SameUris rf (c ∷ h) v)
        has
  remove_either-HasUris rf e [] [] v l has = has

  asks-SameUris :
      (rf : RequestFilter re) (r : Request)
      → SameUris rf (match_uri re r rf).0
        × SameUris rf (match_headers re r rf).0
        × SameUris rf (set_or_get_ignore_status re r rf).0
  unfolding match_uri match_headers apply_updates set_or_get_ignore_status
  asks-SameUris rf r = (ground arith, ground arith, ground arith)

  reset_count-SameUris : (rf : RequestFilter re) → SameUris rf (reset_count re rf).0
  unfolding reset_count
  reset_count-SameUris rf = ground arith

  step-HasUris :
      (rf : RequestFilter re) (c : Call re) (e : UriEntries re)
      → rf.locked ≡ false
      → HasUris rf e
      → HasUris (step re rf c) (uri_call re c e)
  unfolding step clear add_filter_header_or_uri remove_ignore_header_or_uri
  step-HasUris rf resets e l has =
      SameUris-HasUris rf (reset_count re rf).0 e (reset_count-SameUris rf) has
  step-HasUris rf clears e l has = rw l (
    λ k. ground (arith, get_empty {V = Regexp} k),
    λ k. ground (arith, get_empty {V = Regexp} k),
    tt,
    tt,
  )
  step-HasUris rf (adds r) e l has = add_either-HasUris rf e _ _ _ l has
  step-HasUris rf (removes r) e l has = remove_either-HasUris rf e _ _ _ l has
  step-HasUris rf (sets_status r) e l has =
      SameUris-HasUris rf (set_or_get_ignore_status re r rf).0 e (asks-SameUris rf r).2 has
  step-HasUris rf (asks_uri r) e l has =
      SameUris-HasUris rf (match_uri re r rf).0 e (asks-SameUris rf r).0 has
  step-HasUris rf (asks_headers r) e l has =
      SameUris-HasUris rf (match_headers re r rf).0 e (asks-SameUris rf r).1 has

  pub run-HasUris :
      (rf : RequestFilter re) (cs : List (Call re)) (e : UriEntries re)
      → (run re rf cs).locked ≡ false
      → HasUris rf e
      → HasUris (run re rf cs) (promised_uris re cs e)
  unfolding promised_uris run
  run-HasUris rf [] e free has = has
  run-HasUris rf (c ∷ cs) e free has =
      run-HasUris (step re rf c) cs (uri_call re c e) free
        (step-HasUris rf c e (was_free re rf (c ∷ cs) free) has)

  pub new-HasUris : HasUris (new_request_filter re) (λ k. none)
  new-HasUris = (
    λ k. ground (arith, get_empty {V = Regexp} k),
    λ k. ground (arith, get_empty {V = Regexp} k),
    tt,
    tt,
  )
