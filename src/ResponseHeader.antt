-- ===== src/ResponseHeader.antt =====
-- pkg/server/response/header/header.go, with what it uses of pkg/util/httpHeadersUtil.go: headers to add to the
-- responses of each port, and headers of requests that are not copied to them. http.CanonicalHeaderKey is
-- an argument. The two regular expressions are tests for `content` anywhere and for `host`, in any case.
pub mod Adding
pub mod Sending
use goto.Prelude.{
  ℕ, ltb, Bool, true, false, ◌&&◌, ◌||◌, not, Option, none, some, List, [], ◌∷◌, ◌++◌,
  if◌then◌else◌, Text, codes, text_eq, ◌==◌, to_lower, equal_fold, contains,
}
use goto.Prelude.Dict.{Dict, get, put}
use goto.Params.Mux.{Request, get_string_param}
use goto.Params.Numbers.{itoa}
use goto.Prelude.{pos}
use goto.Params.Port.{port}

-- http.Header, and the headers to add.
abbrev pub HeaderMap : Type 0
HeaderMap = Dict Text (List Text)

-- responseHeadersToAddByPort, responseHeadersToRemoveByPort and util.ExcludedHeaders.
pub record ResponseHeaders : Type 0 where
  pub to_add_by_port : Dict Text HeaderMap
  pub to_remove_by_port : Dict Text (Dict Text Bool)
  pub excluded_headers : Dict Text Bool

pub data Answer : Type 0 where
  done : Answer
  bad_request : Answer

abbrev values_or_none : Option (List Text) → List Text
values_or_none none = []
values_or_none (some vs) = vs

unfoldable pub values_of : Text → HeaderMap → List Text
values_of h m = values_or_none (get h m)

-- headers[key] = append(headers[key], value)
unfoldable pub append_value : Text → Text → HeaderMap → HeaderMap
append_value h v m = put h (values_of h m ++ v ∷ []) m

abbrev map_or_new {ℓ} : {V : Type ℓ} → Option (Dict Text V) → Dict Text V
map_or_new none = []
map_or_new (some m) = m

unfoldable pub to_add : Text → ResponseHeaders → HeaderMap
to_add p s = map_or_new (get p s.to_add_by_port)

abbrev pub to_remove : Text → ResponseHeaders → Dict Text Bool
to_remove p s = map_or_new (get p s.to_remove_by_port)

-- A map access gives false for a key that is not there.
abbrev pub is_set : Text → Dict Text Bool → Bool
is_set h m = elim (get h m) [ none ↦ false | some b ↦ b ]

-- addResponseHeader
unfoldable pub add_response_header : Request → ResponseHeaders → ResponseHeaders × Answer
add_response_header r s =
    let header = get_string_param r (codes "header") in
    let v = (get_string_param r (codes "value")).0 in
    if header.1
    then (
      record s {
        to_add_by_port =
            put (port r) (append_value header.0 v (to_add (port r) s)) s.to_add_by_port;
      },
      done,
    )
    else (s, bad_request)

-- removeResponseHeader
unfoldable pub remove_response_header : Request → ResponseHeaders → ResponseHeaders × Answer
remove_response_header r s =
    let header = get_string_param r (codes "header") in
    let lh = to_lower header.0 in
    if header.1
    then (
      record s {
        to_remove_by_port = put (port r) (put lh true (to_remove (port r) s)) s.to_remove_by_port;
        excluded_headers = put lh true s.excluded_headers;
      },
      done,
    )
    else (s, bad_request)

-- clearResponseHeader
unfoldable pub clear_response_header : Request → ResponseHeaders → ResponseHeaders
clear_response_header r s = record s {
  to_add_by_port = put (port r) [] s.to_add_by_port;
  to_remove_by_port = put (port r) [] s.to_remove_by_port;
}

-- What is read of a request and its store besides.
pub record Origin : Type 0 where
  pub host : Text
  pub request_payload_size : ℕ
  pub is_tls : Bool
  pub server_name : Text
  pub tls_version : Text

abbrev is_blank : Text → Bool
is_blank [] = true
is_blank (c ∷ s) = false

abbrev pub append_unless_blank : Text → Text → HeaderMap → HeaderMap
append_unless_blank h v out = if is_blank v then out else append_value h v out

abbrev first : List Text → Text
first [] = []
first (v ∷ vs) = v

-- http.Header.Get
abbrev header_get : (Text → Text) → Text → HeaderMap → Text
header_get canonical h out = first (values_of (canonical h) out)

-- The loop over one header's values.
unfoldable pub append_all : Text → List Text → HeaderMap → HeaderMap
append_all h [] out = out
append_all h (v ∷ vs) out = append_all h vs (append_value h v out)

abbrev pub is_skipped : (Text → Text) → Dict Text Bool → Bool → Bool → Text → HeaderMap → Bool
is_skipped canonical ignored copy_host copy_content_type h out =
    not (is_blank (header_get canonical h out))
    || not (is_blank (header_get canonical (to_lower h) out))
    || is_set (to_lower h) ignored
    || not copy_content_type && contains (to_lower h) (codes "content")
    || not copy_host && equal_fold h (codes "host")

-- CopyHeadersWithIgnore
unfoldable pub copy_headers_with_ignore :
    (Text → Text) → Text → HeaderMap → Dict Text Bool → Bool → Bool → HeaderMap → HeaderMap
copy_headers_with_ignore canonical prefix [] ignored copy_host copy_content_type out = out
copy_headers_with_ignore canonical prefix ((h, vs) ∷ rest) ignored copy_host copy_content_type out =
    copy_headers_with_ignore canonical prefix rest ignored copy_host copy_content_type (
      if is_skipped canonical ignored copy_host copy_content_type h out
      then out
      else append_all (prefix ++ h) vs out)

abbrev pub with_tls : Text → Origin → HeaderMap → HeaderMap
with_tls prefix o out =
    if o.is_tls
    then append_unless_blank (prefix ++ codes "TLS-Version") o.tls_version
        (append_unless_blank (prefix ++ codes "TLS-SNI") o.server_name out)
    else out

abbrev pub with_payload_size : Text → Origin → HeaderMap → HeaderMap
with_payload_size prefix o out =
    if ltb 0 o.request_payload_size
    then append_value (prefix ++ codes "Payload-Size") (itoa (pos o.request_payload_size)) out
    else out

abbrev pub request_prefix : Text
request_prefix = codes "Request-"

-- CopyRequestHeadersWithIgnore as SetResponseHeaders calls it: with a prefix, the request's own headers, the
-- host and the URI, but not the headers of its content.
unfoldable pub copy_request_headers :
    (Text → Text) → Request → Origin → Dict Text Bool → HeaderMap → HeaderMap
copy_request_headers canonical r o ignored out =
    let sized = with_payload_size request_prefix o out in
    let hosted =
      append_value (request_prefix ++ codes "Host") o.host
        (append_value (request_prefix ++ codes "Method") r.method sized) in
    copy_headers_with_ignore canonical request_prefix r.headers ignored false false (
      with_tls request_prefix o (append_value (request_prefix ++ codes "URI") r.request_uri hosted))

-- The loop over the headers to add; w.Header().Add makes a name canonical.
unfoldable pub add_all : (Text → Text) → HeaderMap → HeaderMap → HeaderMap
add_all canonical [] out = out
add_all canonical ((h, vs) ∷ m) out = add_all canonical m (append_all (canonical h) vs out)

-- SetResponseHeaders
unfoldable pub set_response_headers :
    (Text → Text) → Request → Origin → ResponseHeaders → HeaderMap → HeaderMap
set_response_headers canonical r o s out =
    add_all canonical (to_add (port r) s)
      (copy_request_headers canonical r o (to_remove (port r) s) out)

-- middlewareFunc, after the next handler has written `out`; the flags are those of the request's store.
unfoldable pub middleware_func :
    (Text → Text) → Bool → Bool → Bool → Request → Origin → ResponseHeaders → HeaderMap → HeaderMap
unfolding set_response_headers
middleware_func canonical headers_sent is_tunnel is_grpc r o s out =
    if not headers_sent && not r.store.is_admin_request && not is_tunnel && not is_grpc
    then set_response_headers canonical r o s out
    else out
