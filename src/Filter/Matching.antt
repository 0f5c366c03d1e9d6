-- ===== src/Filter/Matching.antt =====
-- What a filter answers (filter.go, matchURI and matchHeaders), against the calls that came before.
use goto.Prelude.{
  text_eq, ◌≡◌, refl, sym, arith, ◌+◌, false, some, List, [], ◌∷◌, Text, if◌then◌else◌, to_lower,
}
use goto.Prelude.Dict.{Dict, get_empty}
use goto.Params.Mux.{Request}
use goto.Filter.{RegexpLib, RequestFilter, new_request_filter}
use goto.Filter.Serving.{uri_hit, header_hit, match_uri, match_headers, apply_updates}
use goto.Filter.History.{Call, run}
use goto.Filter.Promised.{promised_uri_hit, promised_headers_hit}
use goto.Filter.Kept.UriHit.{run-promised_uri_hit}
use goto.Filter.Kept.HeaderHit.{run-promised_headers_hit}
use goto.Filter.Invariant.{IsConsistent, run-IsSound, new-IsSound, apply_updates_lem}

module _ (re : RegexpLib) where
  open re use {Regexp, compile}

  uri_hit_empty : (uri : Text) → uri_hit re [] [] uri ≡ false
  uri_hit_empty uri = refl

  header_hit_empty : (headers : Dict Text (List Text)) → header_hit re [] headers ≡ false
  header_hit_empty [] = refl
  header_hit_empty ((h, vs) ∷ rest) =
      ground (arith, get_empty {V = Dict Text Regexp} (to_lower h), header_hit_empty rest)

  pub match_uri_lem :
      (rf : RequestFilter re) (r : Request)
      → rf.locked ≡ false
      → IsConsistent re rf
      → let hit = uri_hit re rf.uri_updates rf.not_uri_updates r.request_uri in
        ((match_uri re r rf).1 ≡ some hit)
        × ((match_uri re r rf).0.filtered_count
            ≡ (if hit then rf.filtered_count + 1 else rf.filtered_count))
  unfolding match_uri
  match_uri_lem rf r l v = ground (arith, apply_updates_lem re rf v)

  pub match_headers_lem :
      (rf : RequestFilter re) (r : Request)
      → rf.locked ≡ false
      → IsConsistent re rf
      → let hit = header_hit re rf.header_updates r.headers in
        ((match_headers re r rf).1 ≡ some hit)
        × ((match_headers re r rf).0.filtered_count
            ≡ (if hit then rf.filtered_count + 1 else rf.filtered_count))
  unfolding match_headers
  match_headers_lem rf r l v = ground (arith, apply_updates_lem re rf v, header_hit_empty r.headers)

  -- A test changes the count and the copies only.
  pub match_uri_keeps :
      (rf : RequestFilter re) (r : Request)
      → ((match_uri re r rf).0.status ≡ rf.status)
        × ((match_uri re r rf).0.header_updates ≡ rf.header_updates)
        × ((match_uri re r rf).0.locked ≡ rf.locked)
  unfolding match_uri apply_updates
  match_uri_keeps rf r = ground arith

  pub match_headers_keeps :
      (rf : RequestFilter re) (r : Request) → (match_headers re r rf).0.status ≡ rf.status
  unfolding match_headers apply_updates
  match_headers_keeps rf r = ground arith

  -- After any calls on a new filter that leave its lock free, a request's URI is matched, and the request
  -- counted, exactly if the list of the calls says so: by the URIs that were added, with an expression that
  -- compiles, and whose entry no removal (which takes away the entry under the removed URI in lower case)
  -- and no clearing has taken away since. The request matches if the expression of such a URI without `!`
  -- does, or if there are such URIs with `!` and none of their expressions does.
  pub match_uri_exact :
      (cs : List (Call re)) (r : Request)
      → (run re (new_request_filter re) cs).locked ≡ false
      → let rf = run re (new_request_filter re) cs in
        let hit = promised_uri_hit re cs r.request_uri in
        ((match_uri re r rf).1 ≡ some hit)
        × ((match_uri re r rf).0.filtered_count
            ≡ (if hit then rf.filtered_count + 1 else rf.filtered_count))
  match_uri_exact cs r l = rw (sym (run-promised_uri_hit re cs r.request_uri l)) (
      match_uri_lem (run re (new_request_filter re) cs) r l
        (run-IsSound re (new_request_filter re) cs (new-IsSound re) l))

  -- After any calls on a new filter that leave its lock free, a request's headers are matched, and the
  -- request counted, exactly if the list of the calls says so: by the values that were added for a header,
  -- and whose entry no removal (which takes away the entry under the removed value in lower case) and no
  -- clearing has taken away since. The request matches if one of its headers has such an entry for the
  -- empty value, or one whose expression matches a value of the header.
  pub match_headers_exact :
      (cs : List (Call re)) (r : Request)
      → (run re (new_request_filter re) cs).locked ≡ false
      → let rf = run re (new_request_filter re) cs in
        let hit = promised_headers_hit re cs r.headers in
        ((match_headers re r rf).1 ≡ some hit)
        × ((match_headers re r rf).0.filtered_count
            ≡ (if hit then rf.filtered_count + 1 else rf.filtered_count))
  match_headers_exact cs r l = rw (sym (run-promised_headers_hit re cs r.headers l)) (
      match_headers_lem (run re (new_request_filter re) cs) r l
        (run-IsSound re (new_request_filter re) cs (new-IsSound re) l))
