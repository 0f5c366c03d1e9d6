-- ===== src/Filter/Invariant.antt =====
-- The flags and the two generations of a filter's maps (filter.go) over its histories.
use goto.Prelude.{text_eq, ◌≡◌, refl, arith, false, List, [], ◌∷◌, Text, to_lower, ap}
use goto.Prelude.Dict.{Dict, delete_empty}
use goto.Params.Mux.{Request}
use goto.Filter.{
  RegexpLib, RequestFilter, new_request_filter, add_either, remove_either, add_uri, add_header,
  remove_uri, remove_header, add_filter_header_or_uri, remove_ignore_header_or_uri,
  set_or_get_ignore_status, reset_count, clear,
}
use goto.Filter.Serving.{clone_uris, clone_headers, apply_updates, match_uri, match_headers}
use goto.Filter.History.{
  Call, resets, clears, adds, removes, sets_status, asks_uri, asks_headers, step, run,
}

module _ (re : RegexpLib) where
  open re use {Regexp, compile}

  pub clone_uris_lem : (m : Dict Text Regexp) → clone_uris re m ≡ m
  unfolding clone_uris
  clone_uris_lem [] = refl
  clone_uris_lem ((k, v) ∷ m) = ap (λ (t : Dict Text Regexp). (k, v) ∷ t) (clone_uris_lem m)

  pub clone_headers_lem : (m : Dict Text (Dict Text Regexp)) → clone_headers re m ≡ m
  unfolding clone_headers
  clone_headers_lem [] = refl
  clone_headers_lem ((h, m) ∷ t) = cc (clone_uris_lem m, clone_headers_lem t)

  pub record IsConsistent (rf : RequestFilter re) : Type 0 where
    pub applied_uris : rf.pending_updates ≡ false → rf.uris ≡ rf.uri_updates
    pub applied_not_uris : rf.pending_updates ≡ false → rf.not_uris ≡ rf.not_uri_updates
    pub applied_headers : rf.pending_updates ≡ false → rf.headers ≡ rf.header_updates
    pub no_uris : rf.has_uris ≡ false → rf.uri_updates ≡ []
    pub no_not_uris : rf.has_uris ≡ false → rf.not_uri_updates ≡ []
    pub no_headers : rf.has_headers ≡ false → rf.header_updates ≡ []

  abbrev pub IsSound : RequestFilter re → Type 0
  IsSound rf = rf.locked ≡ false → IsConsistent rf

  -- What a request is tested against: the updates, applied.
  pub apply_updates_lem :
      (rf : RequestFilter re)
      → IsConsistent rf
      → ((apply_updates re rf).uris ≡ rf.uri_updates)
        × ((apply_updates re rf).not_uris ≡ rf.not_uri_updates)
        × ((apply_updates re rf).headers ≡ rf.header_updates)
        × ((apply_updates re rf).filtered_count ≡ rf.filtered_count)
  unfolding apply_updates
  apply_updates_lem rf v = ground (
    arith,
    clone_uris_lem rf.uri_updates,
    clone_uris_lem rf.not_uri_updates,
    clone_headers_lem rf.header_updates,
  )

  apply_updates-IsConsistent :
      (rf : RequestFilter re) → IsConsistent rf → IsConsistent (apply_updates re rf)
  unfolding apply_updates
  apply_updates-IsConsistent rf v = ground (
    arith,
    clone_uris_lem rf.uri_updates,
    clone_uris_lem rf.not_uri_updates,
    clone_headers_lem rf.header_updates,
  )

  add_uri-IsSound :
      (rf : RequestFilter re) (uri : Text) → IsSound rf → IsSound (add_uri re rf uri).0
  unfolding add_uri
  add_uri-IsSound rf uri s l = ground (arith, s)

  add_header-IsSound :
      (rf : RequestFilter re) (h v : Text) → IsSound rf → IsSound (add_header re rf h v).0
  unfolding add_header
  add_header-IsSound rf h v s l = ground (arith, s)

  remove_uri-IsSound :
      (rf : RequestFilter re) (uri : Text) → IsSound rf → IsSound (remove_uri re rf uri).0
  unfolding remove_uri
  remove_uri-IsSound rf uri s l = ground (arith, s, delete_empty {V = Regexp} (to_lower uri))

  remove_header-IsSound :
      (rf : RequestFilter re) (h v : Text) → IsSound rf → IsSound (remove_header re rf h v).0
  unfolding remove_header
  remove_header-IsSound rf h v s l = ground (arith, s)

  add_either-IsSound :
      (rf : RequestFilter re) (uri h v : Text) → IsSound rf → IsSound (add_either re rf uri h v).0
  add_either-IsSound rf (c ∷ uri) h v s = add_uri-IsSound rf (c ∷ uri) s
  add_either-IsSound rf [] (c ∷ h) v s = add_header-IsSound rf (c ∷ h) v s
  add_either-IsSound rf [] [] v s = s

  remove_either-IsSound :
      (rf : RequestFilter re) (uri h v : Text)
      → IsSound rf
      → IsSound (remove_either re rf uri h v).0
  remove_either-IsSound rf (c ∷ uri) h v s = remove_uri-IsSound rf (c ∷ uri) s
  remove_either-IsSound rf [] (c ∷ h) v s = remove_header-IsSound rf (c ∷ h) v s
  remove_either-IsSound rf [] [] v s = s

  pub match_uri-IsSound :
      (r : Request) (rf : RequestFilter re) → IsSound rf → IsSound (match_uri re r rf).0
  unfolding match_uri
  match_uri-IsSound r rf s l = ground (arith, s, apply_updates-IsConsistent rf)

  match_headers-IsSound :
      (r : Request) (rf : RequestFilter re) → IsSound rf → IsSound (match_headers re r rf).0
  unfolding match_headers
  match_headers-IsSound r rf s l = ground (arith, s, apply_updates-IsConsistent rf)

  -- Every call of a handler and every test of a request keeps the flags and the maps of an unlocked
  -- filter in agreement.
  pub step-IsSound : (rf : RequestFilter re) (c : Call re) → IsSound rf → IsSound (step re rf c)
  unfolding step reset_count clear add_filter_header_or_uri remove_ignore_header_or_uri
      set_or_get_ignore_status
  step-IsSound rf resets s l = ground (arith, s)
  step-IsSound rf clears s l = ground (arith, s)
  step-IsSound rf (adds r) s l = add_either-IsSound rf _ _ _ s l
  step-IsSound rf (removes r) s l = remove_either-IsSound rf _ _ _ s l
  step-IsSound rf (sets_status r) s l = ground (arith, s)
  step-IsSound rf (asks_uri r) s l = match_uri-IsSound r rf s l
  step-IsSound rf (asks_headers r) s l = match_headers-IsSound r rf s l

  -- From a new filter, after any history that leaves the lock free: with no update pending, requests
  -- are tested against the updates, and the flags that skip a test are only down where there is nothing
  -- to test against.
  pub run-IsSound :
      (rf : RequestFilter re) (cs : List (Call re)) → IsSound rf → IsSound (run re rf cs)
  unfolding run
  run-IsSound rf [] s = s
  run-IsSound rf (c ∷ cs) s = run-IsSound (step re rf c) cs (step-IsSound rf c s)

  pub new-IsSound : IsSound (new_request_filter re)
  new-IsSound l = record {
    applied_uris = λ e. refl;
    applied_not_uris = λ e. refl;
    applied_headers = λ e. refl;
    no_uris = λ e. refl;
    no_not_uris = λ e. refl;
    no_headers = λ e. refl;
  }
