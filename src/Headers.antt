-- ===== src/Headers.antt =====
-- pkg/types/headers.go: headers to add, to remove and to forward, and what they do to a request's or a
-- response's headers. That a map has a key once is said where it matters.
pub mod Merging
use goto.Prelude.{Option, none, some, List, [], ◌∷◌, ◌++◌, Text, text_eq}
use goto.Prelude.Dict.{Dict, get, put, delete}

pub record HeadersConfig : Type 0 where
  pub to_add : Dict Text Text
  pub to_remove : List Text
  pub to_forward : List Text

pub record Headers : Type 0 where
  pub request : HeadersConfig
  pub response : HeadersConfig

-- The interface of what headers can be written to.
pub record MutatingHeaders (H : Type 0) : Type 0 where
  pub add : Text → Text → H → H
  pub del : Text → H → H

abbrev pub new_headers_config : HeadersConfig
new_headers_config = record { to_add = []; to_remove = []; to_forward = [] }

abbrev pub new_headers : Headers
new_headers = record { request = new_headers_config; response = new_headers_config }

-- The loop over the headers to add.
unfoldable pub put_all : Dict Text Text → Dict Text Text → Dict Text Text
put_all [] m = m
put_all ((k, v) ∷ rest) m = put_all rest (put k v m)

-- HeadersConfig.Merge: hc2 into hc; none for nil.
abbrev pub merge_config : HeadersConfig → Option HeadersConfig → HeadersConfig
merge_config hc none = hc
merge_config hc (some hc2) = record {
  to_add = put_all hc2.to_add hc.to_add;
  to_remove = hc.to_remove ++ hc2.to_remove;
  to_forward = hc.to_forward ++ hc2.to_forward;
}

-- HeadersConfig.Union
unfoldable pub union_config : HeadersConfig → Option HeadersConfig → HeadersConfig
union_config hc hc2 = merge_config (merge_config new_headers_config (some hc)) hc2

-- Headers.Merge, for headers whose two configs are there.
abbrev pub merge : Headers → Option Headers → Headers
merge h none = h
merge h (some h2) = record {
  request = merge_config h.request (some h2.request);
  response = merge_config h.response (some h2.response);
}

-- Union
unfoldable pub union : Option Headers → Option Headers → Headers
union h1 h2 = merge (merge new_headers h1) h2

-- Clone
unfoldable pub clone : Headers → Headers
clone h = record new_headers { request = h.request }

module _ {H : Type 0} (headers : MutatingHeaders H) where
  unfoldable pub del_all : List Text → H → H
  del_all [] hs = hs
  del_all (h ∷ rest) hs = del_all rest (headers.del h hs)

  unfoldable pub add_all : Dict Text Text → H → H
  add_all [] hs = hs
  add_all ((h, v) ∷ rest) hs = add_all rest (headers.add h v hs)

  -- UpdateHeaders
  unfoldable pub update_headers : HeadersConfig → H → H
  update_headers hc hs = add_all hc.to_add (del_all hc.to_remove hs)

  abbrev add_found : Text → Text → H → H
  add_found h [] hs = hs
  add_found h (c ∷ v) hs = headers.add h (c ∷ v) hs

  -- ForwardHeaders, with the source's Get.
  unfoldable pub forward_headers : (Text → Text) → List Text → H → H
  forward_headers source_get [] hs = hs
  forward_headers source_get (h ∷ rest) hs =
      forward_headers source_get rest (add_found h (source_get h) hs)

-- SimpleHTTPHeaders
abbrev pub simple_headers : MutatingHeaders (Dict Text Text)
simple_headers = record { add = put; del = delete }

abbrev append_value : Text → Option (List Text) → List Text
append_value v none = v ∷ []
append_value v (some vs) = vs ++ (v ∷ [])

-- MD
abbrev pub metadata : MutatingHeaders (Dict Text (List Text))
metadata = record { add = λ k v md. put k (append_value v (get k md)) md; del = delete }
