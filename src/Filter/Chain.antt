-- ===== src/Filter/Chain.antt =====
-- The two filters in front of the other handlers (filter.go, filterRequest and middlewareFunc).
use goto.Prelude.{
  ◌≡◌, ◌∙◌, arith, ℕ, ◌+◌, Bool, true, false, ◌||◌, List, Option, none, some, if◌then◌else◌, ℤ,
  is_positive,
}
use goto.Params.Mux.{Request}
use goto.Filter.{RegexpLib, RequestFilter, new_request_filter}
use goto.Filter.Serving.{match_uri, match_headers, uri_hit, header_hit}
use goto.Filter.History.{Call, run}
use goto.Filter.Invariant.{IsConsistent, match_uri-IsSound, run-IsSound, new-IsSound}
use goto.Filter.Matching.{match_uri_lem, match_headers_lem, match_uri_keeps, match_headers_keeps}

pub record Filters (re : RegexpLib) : Type 0 where
  pub ignore : RequestFilter re
  pub bypass : RequestFilter re

pub data Verdict : Type 0 where
  filtered : ℤ → Verdict
  passed : Verdict
  waits : Verdict

module _ (re : RegexpLib) where
  -- The status of a filter that matched; a status that is not positive lets the request pass.
  abbrev pub by_status : ℤ → Verdict
  by_status status = if is_positive status then filtered status else passed

  abbrev after :
      Filters re → Option Bool → ℤ → (Filters re → Filters re × Verdict) → Filters re × Verdict
  after f none status next = (f, waits)
  after f (some true) status next = (f, by_status status)
  after f (some false) status next = next f

  abbrev try_bypass_headers : Request → Filters re → Filters re × Verdict
  try_bypass_headers r f =
      let (b, hit) = match_headers re r f.bypass in
      after (record f { bypass = b }) hit b.status (λ g. (g, passed))

  abbrev try_ignore_headers : Request → Filters re → Filters re × Verdict
  try_ignore_headers r f =
      let (i, hit) = match_headers re r f.ignore in
      after (record f { ignore = i }) hit i.status (try_bypass_headers r)

  abbrev try_bypass_uri : Request → Filters re → Filters re × Verdict
  try_bypass_uri r f =
      let (b, hit) = match_uri re r f.bypass in
      after (record f { bypass = b }) hit b.status (try_ignore_headers r)

  unfoldable pub filter_request : Request → Filters re → Filters re × Verdict
  filter_request r f =
      let (i, hit) = match_uri re r f.ignore in
      after (record f { ignore = i }) hit i.status (try_bypass_uri r)

  -- The verdict `passed` hands the request to the next handler.
  unfoldable pub middleware_func : Request → Filters re → Filters re × Verdict
  middleware_func r f = if r.store.is_known_non_traffic then (f, passed) else filter_request r f

  abbrev hits_uri : Request → RequestFilter re → Bool
  hits_uri r rf = uri_hit re rf.uri_updates rf.not_uri_updates r.request_uri

  abbrev hits_headers : Request → RequestFilter re → Bool
  hits_headers r rf = header_hit re rf.header_updates r.headers

  -- Which filter decides, in the order of the tests.
  abbrev pub decision : Request → Filters re → Verdict
  decision r f =
      if hits_uri r f.ignore
      then by_status f.ignore.status
      else if hits_uri r f.bypass
      then by_status f.bypass.status
      else if hits_headers r f.ignore
      then by_status f.ignore.status
      else if hits_headers r f.bypass
      then by_status f.bypass.status
      else passed

  abbrev pub any_hit : Request → Filters re → Bool
  any_hit r f =
      hits_uri r f.ignore
      || (hits_uri r f.bypass || (hits_headers r f.ignore || hits_headers r f.bypass))

  abbrev pub counted : Filters re → ℕ
  counted f = f.ignore.filtered_count + f.bypass.filtered_count

  headers_after_uri :
      (rf : RequestFilter re) (r : Request)
      → rf.locked ≡ false
      → IsConsistent re rf
      → let rf' = (match_uri re r rf).0 in
        ((match_headers re r rf').1 ≡ some (hits_headers r rf))
        × ((match_headers re r rf').0.filtered_count
            ≡ (if hits_headers r rf then rf'.filtered_count + 1 else rf'.filtered_count))
        × ((match_headers re r rf').0.status ≡ rf.status)
  headers_after_uri rf r l v =
      let rf' = (match_uri re r rf).0 in
      let kept = match_uri_keeps re rf r in
      ground (
        arith,
        match_uri_keeps re rf r,
        match_headers_keeps re rf' r,
        match_headers_lem re rf' r (kept.2 ∙ l) (match_uri-IsSound re r rf (λ _. v) (kept.2 ∙ l)),
      )

  -- Of two filters whose locks are free: a request is decided by the first test that it meets, of the
  -- ignored URIs, the bypassed URIs, the ignored headers and the bypassed headers, with the status of
  -- that filter; and it is counted once, by one filter, exactly if some test takes it.
  pub filter_request_lem :
      (r : Request) (f : Filters re)
      → f.ignore.locked ≡ false
      → f.bypass.locked ≡ false
      → IsConsistent re f.ignore
      → IsConsistent re f.bypass
      → ((filter_request r f).1 ≡ decision r f)
        × (counted (filter_request r f).0 ≡ (if any_hit r f then counted f + 1 else counted f))
  unfolding filter_request
  filter_request_lem r f li lb vi vb = ground (
    arith,
    match_uri_lem re f.ignore r li vi,
    match_uri_lem re f.bypass r lb vb,
    match_uri_keeps re f.ignore r,
    match_uri_keeps re f.bypass r,
    headers_after_uri f.ignore r li vi,
    headers_after_uri f.bypass r lb vb,
  )

  abbrev pub filters_after : List (Call re) → List (Call re) → Filters re
  filters_after cs ds = record {
    ignore = run re (new_request_filter re) cs;
    bypass = run re (new_request_filter re) ds;
  }

  -- Of two filters after any histories that leave their locks free: a request is decided by the first
  -- test that it meets, of the ignored URIs, the bypassed URIs, the ignored headers and the bypassed
  -- headers, with the status of that filter; and it is counted once, exactly if some test takes it.
  pub filter_request_exact :
      (cs ds : List (Call re)) (r : Request)
      → (run re (new_request_filter re) cs).locked ≡ false
      → (run re (new_request_filter re) ds).locked ≡ false
      → let f = filters_after cs ds in
        ((filter_request r f).1 ≡ decision r f)
        × (counted (filter_request r f).0 ≡ (if any_hit r f then counted f + 1 else counted f))
  filter_request_exact cs ds r l k =
      filter_request_lem r (filters_after cs ds) l k
        (run-IsSound re (new_request_filter re) cs (new-IsSound re) l)
        (run-IsSound re (new_request_filter re) ds (new-IsSound re) k)
