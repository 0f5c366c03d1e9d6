-- ===== src/Filter/Lockout.antt =====
-- A header value that is no regular expression (filter.go, addFilterHeaderOrURI).
use goto.Prelude.{
  ◌≡◌, refl, arith, Bool, true, false, ◌||◌, not, codes, Option-cases, inl, inr, none, some, List,
  [], ◌∷◌, Text, ◌∙◌, if◌then◌else◌,
}
use goto.Params.Mux.{Request, get_string_param_value}
use goto.Filter.{
  RegexpLib, RequestFilter, Answer, panicked, blocked, bad_request, is_empty, add_header,
  remove_uri, remove_header, clear, reset_count, add_either, remove_either, add_uri,
  add_filter_header_or_uri, remove_ignore_header_or_uri, set_or_get_ignore_status,
}
use goto.Filter.Serving.{match_uri, match_headers}
use goto.Filter.Patterns.{header_pattern, uri_pattern, match_uri_text}
use goto.Filter.History.{
  Call, resets, clears, adds, removes, sets_status, asks_uri, asks_headers, step, run,
}

module _ (re : RegexpLib) where
  open re use {Regexp, compile}

  -- The panic leaves the filter locked.
  pub add_header_locks :
      (rf : RequestFilter re) (header value : Text)
      → rf.locked ≡ false
      → compile (header_pattern value) ≡ none
      → ((add_header re rf header value).1 ≡ panicked)
        × ((add_header re rf header value).0.locked ≡ true)
        × ((add_header re rf header value).0.has_uris ≡ rf.has_uris)
        × ((add_header re rf header value).0.has_headers ≡ rf.has_headers)
  unfolding add_header
  add_header_locks rf header value l e = rw (l, e) (refl, refl, refl, refl)

  add_either-locked :
      (rf : RequestFilter re) (uri h v : Text)
      → rf.locked ≡ true
      → (add_either re rf uri h v).0 ≡ rf
  unfolding add_uri add_header
  add_either-locked rf (c ∷ uri) h v l = ground arith
  add_either-locked rf [] (c ∷ h) v l = ground arith
  add_either-locked rf [] [] v l = refl

  remove_either-locked :
      (rf : RequestFilter re) (uri h v : Text)
      → rf.locked ≡ true
      → (remove_either re rf uri h v).0 ≡ rf
  unfolding remove_uri remove_header
  remove_either-locked rf (c ∷ uri) h v l = ground arith
  remove_either-locked rf [] (c ∷ h) v l = ground arith
  remove_either-locked rf [] [] v l = refl

  -- A locked filter keeps its lock and its flags.
  abbrev pub SameFlags : RequestFilter re → RequestFilter re → Type 0
  SameFlags rf rf' =
      (rf'.locked ≡ true) × (rf'.has_uris ≡ rf.has_uris) × (rf'.has_headers ≡ rf.has_headers)

  set_status-SameFlags :
      (rf : RequestFilter re) (r : Request)
      → rf.locked ≡ true
      → SameFlags rf (set_or_get_ignore_status re r rf).0
  unfolding set_or_get_ignore_status
  set_status-SameFlags rf r l = ground arith

  step-SameFlags :
      (rf : RequestFilter re) (c : Call re) → rf.locked ≡ true → SameFlags rf (step re rf c)
  unfolding step reset_count clear add_filter_header_or_uri remove_ignore_header_or_uri match_uri
      match_headers
  step-SameFlags rf resets l = ground arith
  step-SameFlags rf clears l = ground arith
  step-SameFlags rf (adds r) l = rw (add_either-locked rf _ _ _ l) (l, refl, refl)
  step-SameFlags rf (removes r) l = rw (remove_either-locked rf _ _ _ l) (l, refl, refl)
  step-SameFlags rf (sets_status r) l = set_status-SameFlags rf r l
  step-SameFlags rf (asks_uri r) l = ground arith
  step-SameFlags rf (asks_headers r) l = ground arith

  pub run-SameFlags :
      (rf : RequestFilter re) (cs : List (Call re)) → rf.locked ≡ true → SameFlags rf (run re rf cs)
  unfolding run
  run-SameFlags rf [] l = (l, refl, refl)
  run-SameFlags rf (c ∷ cs) l =
      let (l', u, h) = step-SameFlags rf c l in
      let (l'', u', h') = run-SameFlags (step re rf c) cs l' in (l'', u' ∙ u, h' ∙ h)

  add_header-blocked :
      (rf : RequestFilter re) (h v : Text) → rf.locked ≡ true → (add_header re rf h v).1 ≡ blocked
  unfolding add_header
  add_header-blocked rf h v l = ground arith

  -- Whether a call names a URI or a header.
  abbrev pub names_entry : Request → Bool
  names_entry r =
      not (is_empty (get_string_param_value r (codes "uri")))
      || not (is_empty (get_string_param_value r (codes "header")))

  remove_either-blocked :
      (rf : RequestFilter re) (uri h v : Text)
      → rf.locked ≡ true
      → (remove_either re rf uri h v).1
        ≡ (if not (is_empty uri) || not (is_empty h) then blocked else bad_request)
  unfolding remove_uri remove_header
  remove_either-blocked rf (c ∷ uri) h v l = ground arith
  remove_either-blocked rf [] (c ∷ h) v l = ground arith
  remove_either-blocked rf [] [] v l = refl

  -- A URI's expression is compiled before the lock is taken.
  abbrev pub add_answer : Text → Text → Answer
  add_answer (c ∷ uri) h = elim (compile (uri_pattern (match_uri_text (c ∷ uri)))) [
    | none ↦ panicked
    | some x ↦ blocked
  ]
  add_answer [] (c ∷ h) = blocked
  add_answer [] [] = bad_request

  add_uri-blocked :
      (rf : RequestFilter re) (uri : Text)
      → rf.locked ≡ true
      → (add_uri re rf uri).1
        ≡ (elim (compile (uri_pattern (match_uri_text uri))) [ none ↦ panicked | some x ↦ blocked ])
  unfolding add_uri
  add_uri-blocked rf uri l = elim (Option-cases (compile (uri_pattern (match_uri_text uri)))) [
    | inl e ↦ ground (arith, e)
    | inr (x, e) ↦ ground (arith, e, l)
  ]

  add_either-blocked :
      (rf : RequestFilter re) (uri h v : Text)
      → rf.locked ≡ true
      → (add_either re rf uri h v).1 ≡ add_answer uri h
  add_either-blocked rf (c ∷ uri) h v l = add_uri-blocked rf (c ∷ uri) l
  add_either-blocked rf [] (c ∷ h) v l = add_header-blocked rf (c ∷ h) v l
  add_either-blocked rf [] [] v l = refl

  -- What the handlers answer while the lock is held by nobody who will free it.
  abbrev pub AreLockedOut : RequestFilter re → Bool → Bool → Request → Type 0
  AreLockedOut rf uris headers r =
      ((clear re rf).1 ≡ blocked)
      × ((reset_count re rf).1 ≡ blocked)
      × ((add_filter_header_or_uri re r rf).1
          ≡ add_answer (get_string_param_value r (codes "uri"))
              (get_string_param_value r (codes "header")))
      × ((remove_ignore_header_or_uri re r rf).1 ≡ (if names_entry r then blocked else bad_request))
      × ((match_uri re r rf).1 ≡ (if uris then none else some false))
      × ((match_headers re r rf).1 ≡ (if headers then none else some false))

  locked_answers :
      (rf : RequestFilter re) (uris headers : Bool) (r : Request)
      → rf.locked ≡ true
      → rf.has_uris ≡ uris
      → rf.has_headers ≡ headers
      → AreLockedOut rf uris headers r
  unfolding clear reset_count match_uri match_headers add_filter_header_or_uri
      remove_ignore_header_or_uri
  locked_answers rf uris headers r l u h = (
    ground arith,
    ground arith,
    add_either-blocked rf _ _ _ l,
    remove_either-blocked rf _ _ _ l,
    ground arith,
    ground arith,
  )

  -- Once a header value was added that is no regular expression, whatever calls follow: clearing,
  -- resetting the count, and every addition and removal that names a URI or a header wait forever (only
  -- the addition of a URI that is no regular expression panics before), one that names none is refused;
  -- the test of a request's URI waits forever if the filter's flag that it has URIs was up at the bad
  -- addition, and else answers no, and so does the test of its headers by the flag that it has headers.
  pub bad_header_locks_out :
      (rf : RequestFilter re) (header value : Text) (cs : List (Call re)) (r : Request)
      → rf.locked ≡ false
      → compile (header_pattern value) ≡ none
      → AreLockedOut (run re (add_header re rf header value).0 cs) rf.has_uris rf.has_headers r
  bad_header_locks_out rf header value cs r l e =
      let bad = (add_header re rf header value).0 in
      let (_, held, u, h) = add_header_locks rf header value l e in
      let (held', u', h') = run-SameFlags bad cs held in
      locked_answers (run re bad cs) rf.has_uris rf.has_headers r held' (u' ∙ u) (h' ∙ h)
