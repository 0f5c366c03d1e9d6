-- ===== src/ResponseHeader/Sending.antt =====
-- What a response has in the end (response/header/header.go, SetResponseHeaders).
use goto.Prelude.{
  ◌≡◌, refl, ap, sym, ◌∙◌, arith, Bool, true, false, ◌&&◌, not, List, [], ◌∷◌, ◌++◌, if◌then◌else◌,
  Text, codes, text_eq, ◌==◌, eq_iff, has_prefix, pos,
}
use mathlib.Core.List.{append_assoc, append-nil}
use goto.Prelude.Dict.{Dict}
use goto.Params.Mux.{Request}
use goto.Params.Numbers.{itoa}
use goto.Params.Port.{port}
use goto.ResponseHeader.{
  HeaderMap, ResponseHeaders, Origin, values_of, append_value, append_all, to_add, to_remove,
  copy_headers_with_ignore, copy_request_headers, request_prefix, add_all, set_response_headers,
  is_skipped, with_tls, with_payload_size, append_unless_blank, middleware_func,
}
use goto.ResponseHeader.Adding.{values_of-append_value}

values_of-append_all :
    (h k : Text) (vs : List Text) (m : HeaderMap)
    → values_of k (append_all h vs m) ≡ (if h == k then values_of k m ++ vs else values_of k m)
unfolding append_all
values_of-append_all h k [] m = ground (arith, append-nil (values_of k m))
values_of-append_all h k (v ∷ vs) m = ground (
  arith,
  values_of-append_all h k vs (append_value h v m),
  values_of-append_value h k v m,
  append_assoc (values_of k m) (v ∷ []) vs,
)

-- All values of the headers to add with one canonical name, in the order of the map.
unfoldable pub values_named : (Text → Text) → Text → HeaderMap → List Text
values_named canonical k [] = []
values_named canonical k ((h, vs) ∷ m) =
    let rest = values_named canonical k m in if canonical h == k then vs ++ rest else rest

values_of-add_all :
    (canonical : Text → Text) (k : Text) (m out : HeaderMap)
    → values_of k (add_all canonical m out) ≡ values_of k out ++ values_named canonical k m
unfolding add_all values_named
values_of-add_all canonical k [] out = sym (append-nil (values_of k out))
values_of-add_all canonical k ((h, vs) ∷ m) out = ground (
  arith,
  values_of-add_all canonical k m (append_all (canonical h) vs out),
  values_of-append_all (canonical h) k vs out,
  append_assoc (values_of k out) vs (values_named canonical k m),
)

prefixed : (p s : Text) → has_prefix (p ++ s) p ≡ true
unfolding has_prefix
prefixed [] [] = refl
prefixed [] (c ∷ s) = refl
prefixed (c ∷ p) s = ground (arith, prefixed p s)

module _ (k : Text) (plain : has_prefix k request_prefix ≡ false) where
  other_name : (h : Text) → (request_prefix ++ h == k) ≡ false
  other_name h = ground (
    arith,
    prefixed request_prefix h,
    eq_iff (request_prefix ++ h) k,
    ap (λ x. has_prefix x request_prefix),
  )

  append_value-plain :
      (h v : Text) (m : HeaderMap)
      → values_of k (append_value (request_prefix ++ h) v m) ≡ values_of k m
  append_value-plain h v m =
      ground (arith, values_of-append_value (request_prefix ++ h) k v m, other_name h)

  append_all-plain :
      (h : Text) (vs : List Text) (m : HeaderMap)
      → values_of k (append_all (request_prefix ++ h) vs m) ≡ values_of k m
  append_all-plain h vs m =
      ground (arith, values_of-append_all (request_prefix ++ h) k vs m, other_name h)

  if_same :
      (b : Bool) (m n : HeaderMap)
      → values_of k n ≡ values_of k m
      → values_of k (if b then m else n) ≡ values_of k m
  if_same true m n e = refl
  if_same false m n e = e

  copy_headers-plain :
      (canonical : Text → Text) (m : HeaderMap) (ignored : Dict Text Bool) (a b : Bool)
      (out : HeaderMap)
      → values_of k (copy_headers_with_ignore canonical request_prefix m ignored a b out)
        ≡ values_of k out
  unfolding copy_headers_with_ignore
  copy_headers-plain canonical [] ignored a b out = refl
  copy_headers-plain canonical ((h, vs) ∷ m) ignored a b out =
      copy_headers-plain canonical m ignored a b (
        if is_skipped canonical ignored a b h out
        then out
        else append_all (request_prefix ++ h) vs out)
      ∙ if_same (is_skipped canonical ignored a b h out) out
          (append_all (request_prefix ++ h) vs out) (append_all-plain h vs out)

  with_tls-plain :
      (o : Origin) (out : HeaderMap) → values_of k (with_tls request_prefix o out) ≡ values_of k out
  with_tls-plain o out =
      let named = append_unless_blank (request_prefix ++ codes "TLS-SNI") o.server_name out in
      ground (
        arith,
        append_value-plain (codes "TLS-SNI") o.server_name out,
        append_value-plain (codes "TLS-Version") o.tls_version named,
      )

  with_payload_size-plain :
      (o : Origin) (out : HeaderMap)
      → values_of k (with_payload_size request_prefix o out) ≡ values_of k out
  with_payload_size-plain o out =
      ground
        (arith, append_value-plain (codes "Payload-Size") (itoa (pos o.request_payload_size)) out)

  copy_request_headers-plain :
      (canonical : Text → Text) (r : Request) (o : Origin) (ignored : Dict Text Bool)
      (out : HeaderMap)
      → values_of k (copy_request_headers canonical r o ignored out) ≡ values_of k out
  unfolding copy_request_headers
  copy_request_headers-plain canonical r o ignored out =
      let sized = with_payload_size request_prefix o out in
      let named = append_value (request_prefix ++ codes "Method") r.method sized in
      let hosted = append_value (request_prefix ++ codes "Host") o.host named in
      let located = append_value (request_prefix ++ codes "URI") r.request_uri hosted in
      copy_headers-plain canonical r.headers ignored false false (with_tls request_prefix o located)
      ∙ with_tls-plain o located
      ∙ append_value-plain (codes "URI") r.request_uri hosted
      ∙ append_value-plain (codes "Host") o.host named
      ∙ append_value-plain (codes "Method") r.method sized
      ∙ with_payload_size-plain o out

-- A header whose name does not begin with `Request-` has in the end what it had, and then all values to add to
-- the port's responses under its name, if headers are set; headers to remove take none of these away.
pub middleware_func-values :
    (canonical : Text → Text) (headers_sent is_tunnel is_grpc : Bool) (r : Request) (o : Origin)
    (s : ResponseHeaders) (out : HeaderMap) (k : Text)
    → has_prefix k request_prefix ≡ false
    → values_of k (middleware_func canonical headers_sent is_tunnel is_grpc r o s out)
      ≡ values_of k out
        ++ (if not headers_sent && not r.store.is_admin_request && not is_tunnel && not is_grpc
            then values_named canonical k (to_add (port r) s)
            else [])
unfolding middleware_func set_response_headers
middleware_func-values canonical headers_sent is_tunnel is_grpc r o s out k plain = ground (
  arith,
  values_of-add_all canonical k (to_add (port r) s)
      (copy_request_headers canonical r o (to_remove (port r) s) out),
  copy_request_headers-plain k plain canonical r o (to_remove (port r) s) out,
  append-nil (values_of k out),
)
