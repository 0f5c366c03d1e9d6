-- ===== src/Filter/Kept/Headers.antt =====
-- The entries of headers that a filter has after any calls of its handlers (filter.go).
use goto.Prelude.{
  ◌≡◌, arith, false, ◌&&◌, Option, none, some, List, [], ◌∷◌, Text, text_eq, ◌==◌, eq_iff,
  if◌then◌else◌, to_lower, Option-cases, inl, inr,
}
use goto.Prelude.Dict.{Dict, get, put, delete, get-put, get-delete, get_empty, delete_empty}
use goto.Params.Mux.{Request}
use goto.Filter.{
  RegexpLib, RequestFilter, add_uri, remove_uri, enter_header, add_header, remove_header,
  drop_value, or_empty, add_either, remove_either, add_filter_header_or_uri,
  remove_ignore_header_or_uri, set_or_get_ignore_status, reset_count, clear,
}
use goto.Filter.Serving.{match_uri, match_headers, apply_updates}
use goto.Filter.Patterns.{header_pattern}
use goto.Filter.Entries.{AreDistinct, put-AreDistinct, delete-AreDistinct}
use goto.Filter.History.{
  Call, resets, clears, adds, removes, sets_status, asks_uri, asks_headers, step, run,
}
use goto.Filter.Kept.{was_free}
use goto.Filter.Promised.{
  HeaderEntries, with_value, value_added, value_removed, header_call, promised_headers,
}

module _ (re : RegexpLib) where
  open re use {Regexp, compile, match_string}

  abbrev pub values_at : Text → Dict Text (Dict Text Regexp) → Dict Text Regexp
  values_at h u = or_empty re (get h u)

  -- Each header has the entries e, each value once.
  abbrev pub HasValues : Dict Text (Dict Text Regexp) → HeaderEntries re → Type 0
  HasValues u e =
      ((h k : Text) → get k (values_at h u) ≡ e h k) × ((h : Text) → AreDistinct (values_at h u))

  values_at-put :
      (header h : Text) (m : Dict Text Regexp) (u : Dict Text (Dict Text Regexp))
      → values_at h (put header m u) ≡ (if header == h then m else values_at h u)
  values_at-put header h m u = ground (arith, get-put header h m u)

  values_at-drop_value :
      (header value h : Text) (u : Dict Text (Dict Text Regexp))
      → values_at h (drop_value re header value u)
        ≡ (if header == h then delete value (values_at h u) else values_at h u)
  values_at-drop_value header value h u = elim (Option-cases (get header u)) [
    | inl n ↦ ground (arith, n, eq_iff header h, delete_empty {V = Regexp} value)
    | inr (m, s) ↦
        ground
          (arith, s, eq_iff header h, get-delete header h u, get-put header h (delete value m) u)
  ]

  put-HasValues :
      (u : Dict Text (Dict Text Regexp)) (e : HeaderEntries re) (header value : Text) (x : Regexp)
      → HasValues u e
      → HasValues
          (put header (put value x (values_at header u)) u)
          (with_value re header value (some x) e)
  put-HasValues u e header value x (got, d) = (
    λ h k. ground (
      arith,
      got h k,
      values_at-put header h (put value x (values_at header u)) u,
      get-put value k x (values_at header u),
      eq_iff header h,
      eq_iff value k,
    ),
    λ h. ground (
      arith,
      d h,
      values_at-put header h (put value x (values_at header u)) u,
      eq_iff header h,
      put-AreDistinct value x (values_at header u) (d header),
    ),
  )

  drop_value-HasValues :
      (u : Dict Text (Dict Text Regexp)) (e : HeaderEntries re) (header value : Text)
      → HasValues u e
      → HasValues
          (drop_value re header value u)
          (λ h k. if header == h && value == k then none else e h k)
  drop_value-HasValues u e header value (got, d) = (
    λ h k. ground (
      arith,
      got h k,
      values_at-drop_value header value h u,
      get-delete value k (values_at h u),
      eq_iff value k,
    ),
    λ h. ground (
      arith,
      d h,
      values_at-drop_value header value h u,
      delete-AreDistinct value (values_at h u) (d h),
    ),
  )

  enter_header-HasValues :
      (rf : RequestFilter re) (e : HeaderEntries re) (header value : Text) (o : Option Regexp)
      → (enter_header re rf header value o).0.locked ≡ false
      → HasValues rf.header_updates e
      → HasValues
          (enter_header re rf header value o).0.header_updates
          (with_value re header value o e)
  enter_header-HasValues rf e header value none l has = absurd (ground (arith, l))
  enter_header-HasValues rf e header value (some x) l has =
      put-HasValues rf.header_updates e header value x has

  add_header-free :
      (rf : RequestFilter re) (header value : Text)
      → rf.locked ≡ false
      → (add_header re rf header value).0
        ≡ (enter_header re rf (to_lower header) value (compile (header_pattern value))).0
  unfolding add_header
  add_header-free rf header value l = ground (arith, l)

  add_header-HasValues :
      (rf : RequestFilter re) (e : HeaderEntries re) (header value : Text)
      → rf.locked ≡ false
      → (add_header re rf header value).0.locked ≡ false
      → HasValues rf.header_updates e
      → HasValues
          (add_header re rf header value).0.header_updates
          (with_value re (to_lower header) value (compile (header_pattern value)) e)
  add_header-HasValues rf e header value l =
      rw (add_header-free rf header value l)
        (enter_header-HasValues rf e (to_lower header) value (compile (header_pattern value)))

  remove_header-HasValues :
      (rf : RequestFilter re) (e : HeaderEntries re) (header value : Text)
      → rf.locked ≡ false
      → HasValues rf.header_updates e
      → HasValues
          (remove_header re rf header value).0.header_updates
          (λ h k. if to_lower header == h && to_lower value == k then none else e h k)
  unfolding remove_header
  remove_header-HasValues rf e header value l has =
      rw l (drop_value-HasValues rf.header_updates e (to_lower header) (to_lower value) has)

  add_uri-header_updates :
      (rf : RequestFilter re) (uri : Text)
      → (add_uri re rf uri).0.header_updates ≡ rf.header_updates
  unfolding add_uri
  add_uri-header_updates rf uri = ground arith

  remove_uri-header_updates :
      (rf : RequestFilter re) (uri : Text)
      → (remove_uri re rf uri).0.header_updates ≡ rf.header_updates
  unfolding remove_uri
  remove_uri-header_updates rf uri = ground arith

  add_either-HasValues :
      (rf : RequestFilter re) (e : HeaderEntries re) (uri header value : Text)
      → rf.locked ≡ false
      → (add_either re rf uri header value).0.locked ≡ false
      → HasValues rf.header_updates e
      → HasValues
          (add_either re rf uri header value).0.header_updates
          (value_added re uri header value e)
  add_either-HasValues rf e (c ∷ uri) header value l l' has =
      rw (add_uri-header_updates rf (c ∷ uri)) has
  add_either-HasValues rf e [] (c ∷ header) value l l' has =
      add_header-HasValues rf e (c ∷ header) value l l' has
  add_either-HasValues rf e [] [] value l l' has = has

  remove_either-HasValues :
      (rf : RequestFilter re) (e : HeaderEntries re) (uri header value : Text)
      → rf.locked ≡ false
      → HasValues rf.header_updates e
      → HasValues
          (remove_either re rf uri header value).0.header_updates
          (value_removed re uri header value e)
  remove_either-HasValues rf e (c ∷ uri) header value l has =
      rw (remove_uri-header_updates rf (c ∷ uri)) has
  remove_either-HasValues rf e [] (c ∷ header) value l has =
      remove_header-HasValues rf e (c ∷ header) value l has
  remove_either-HasValues rf e [] [] value l has = has

  others-header_updates :
      (rf : RequestFilter re) (r : Request)
      → ((match_uri re r rf).0.header_updates ≡ rf.header_updates)
        × ((match_headers re r rf).0.header_updates ≡ rf.header_updates)
        × ((set_or_get_ignore_status re r rf).0.header_updates ≡ rf.header_updates)
  unfolding match_uri match_headers apply_updates set_or_get_ignore_status
  others-header_updates rf r = (ground arith, ground arith, ground arith)

  reset_count-header_updates :
      (rf : RequestFilter re) → (reset_count re rf).0.header_updates ≡ rf.header_updates
  unfolding reset_count
  reset_count-header_updates rf = ground arith

  step-HasValues :
      (rf : RequestFilter re) (c : Call re) (e : HeaderEntries re)
      → rf.locked ≡ false
      → (step re rf c).locked ≡ false
      → HasValues rf.header_updates e
      → HasValues (step re rf c).header_updates (header_call re c e)
  unfolding step clear add_filter_header_or_uri remove_ignore_header_or_uri
  step-HasValues rf resets e l l' has = rw (reset_count-header_updates rf) has
  step-HasValues rf clears e l l' has = rw l (
    λ h k. ground (arith, get_empty {V = Dict Text Regexp} h, get_empty {V = Regexp} k),
    λ h. ground (arith, get_empty {V = Dict Text Regexp} h),
  )
  step-HasValues rf (adds r) e l l' has = add_either-HasValues rf e _ _ _ l l' has
  step-HasValues rf (removes r) e l l' has = remove_either-HasValues rf e _ _ _ l has
  step-HasValues rf (sets_status r) e l l' has = rw (others-header_updates rf r).2 has
  step-HasValues rf (asks_uri r) e l l' has = rw (others-header_updates rf r).0 has
  step-HasValues rf (asks_headers r) e l l' has = rw (others-header_updates rf r).1 has

  pub run-HasValues :
      (rf : RequestFilter re) (cs : List (Call re)) (e : HeaderEntries re)
      → (run re rf cs).locked ≡ false
      → HasValues rf.header_updates e
      → HasValues (run re rf cs).header_updates (promised_headers re cs e)
  unfolding promised_headers run
  run-HasValues rf [] e free has = has
  run-HasValues rf (c ∷ cs) e free has = run-HasValues (step re rf c) cs (header_call re c e) free (
      step-HasValues rf c e (was_free re rf (c ∷ cs) free) (was_free re (step re rf c) cs free) has)

  pub new-HasValues : HasValues [] (λ h k. none)
  new-HasValues = (
    λ h k. ground (arith, get_empty {V = Dict Text Regexp} h, get_empty {V = Regexp} k),
    λ h. ground (arith, get_empty {V = Dict Text Regexp} h),
  )
