-- ===== src/Headers/Merging.antt =====
-- What a union of header configs does to headers (headers.go, Union, Merge, UpdateHeaders).
use mathlib.Core.List.{append_assoc, append-nil}
use goto.Prelude.{
  ◌≡◌, refl, ap, arith, Bool, ◌||◌, Option, none, some, List, [], ◌∷◌, if◌then◌else◌, Text, text_eq,
  ◌==◌, eq_iff, any, any-append, ◌∙◌, sym, ◌++◌, Option-cases, inl, inr,
}
use goto.Prelude.Dict.{Dict, get, put, delete, get-put, get-delete, get_empty}
use goto.Headers.{
  HeadersConfig, put_all, union_config, del_all, add_all, update_headers, simple_headers, metadata,
}

-- No key is in the map twice.
abbrev pub IsOnceEach : Dict Text Text → Type 0
IsOnceEach [] = Unit
IsOnceEach ((k, v) ∷ m) = (get k m ≡ none) × IsOnceEach m

abbrev pub over : Option Text → Option Text → Option Text
over none o = o
over (some v) o = some v

get-put_all :
    (k : Text) (new m : Dict Text Text)
    → IsOnceEach new
    → get k (put_all new m) ≡ over (get k new) (get k m)
unfolding put_all get
get-put_all k [] m once = refl
get-put_all k ((j, v) ∷ new) m once =
    ground (arith, get-put_all k new (put j v m) once.1, get-put j k v m, eq_iff j k, once.0)

put-IsOnceEach : (k v : Text) (m : Dict Text Text) → IsOnceEach m → IsOnceEach (put k v m)
unfolding put
put-IsOnceEach k v [] once = (get_empty k, tt)
put-IsOnceEach k v ((j, w) ∷ m) once =
    ground (arith, put-IsOnceEach k v m once.1, get-put k j v m, eq_iff j k, eq_iff k j)

put_all-IsOnceEach : (new m : Dict Text Text) → IsOnceEach m → IsOnceEach (put_all new m)
unfolding put_all
put_all-IsOnceEach [] m once = once
put_all-IsOnceEach ((k, v) ∷ new) m once =
    put_all-IsOnceEach new (put k v m) (put-IsOnceEach k v m once)

add_all-put_all : (new m : Dict Text Text) → add_all simple_headers new m ≡ put_all new m
unfolding add_all put_all
add_all-put_all [] m = refl
add_all-put_all ((k, v) ∷ new) m = add_all-put_all new (put k v m)

abbrev pub is_among : Text → List Text → Bool
is_among k = any (λ h. h == k)

get-del_all :
    (k : Text) (hs : List Text) (m : Dict Text Text)
    → get k (del_all simple_headers hs m) ≡ (if is_among k hs then none else get k m)
unfolding del_all
get-del_all k [] m = refl
get-del_all k (h ∷ hs) m = ground (arith, get-del_all k hs (delete h m), get-delete h k m)

get-update_headers :
    (k : Text) (hc : HeadersConfig) (m : Dict Text Text)
    → IsOnceEach hc.to_add
    → get k (update_headers simple_headers hc m)
      ≡ over (get k hc.to_add) (if is_among k hc.to_remove then none else get k m)
unfolding update_headers
get-update_headers k hc m once =
    ap (get k) (add_all-put_all hc.to_add (del_all simple_headers hc.to_remove m))
    ∙ get-put_all k hc.to_add (del_all simple_headers hc.to_remove m) once
    ∙ ap (over (get k hc.to_add)) (get-del_all k hc.to_remove m)

-- The values of a header, and the value that is added, if one is.
abbrev pub values_of : Option (List Text) → List Text
values_of none = []
values_of (some vs) = vs

abbrev pub one_value : Option Text → List Text
one_value none = []
one_value (some v) = v ∷ []

values_of-add :
    (k j v : Text) (m : Dict Text (List Text))
    → values_of (get k (metadata.add j v m))
      ≡ (if j == k then values_of (get k m) ++ (v ∷ []) else values_of (get k m))
values_of-add k j v m = elim (Option-cases (get j m)) [
  | inl e ↦ ground (arith, e, eq_iff j k, get-put j k (v ∷ []) m)
  | inr (vs, e) ↦ ground (arith, e, eq_iff j k, get-put j k (vs ++ (v ∷ [])) m)
]

values_of-add_all :
    (k : Text) (new : Dict Text Text) (m : Dict Text (List Text))
    → IsOnceEach new
    → values_of (get k (add_all metadata new m)) ≡ values_of (get k m) ++ one_value (get k new)
unfolding add_all get
values_of-add_all k [] m once = sym (append-nil (values_of (get k m)))
values_of-add_all k ((j, v) ∷ new) m once = ground (
  arith,
  once.0,
  eq_iff j k,
  values_of-add k j v m,
  values_of-add_all k new (metadata.add j v m) once.1,
  append-nil (values_of (get k m) ++ (v ∷ [])),
  append_assoc (values_of (get k m)) (v ∷ []) [],
)

get-del_all-metadata :
    (k : Text) (hs : List Text) (m : Dict Text (List Text))
    → get k (del_all metadata hs m) ≡ (if is_among k hs then none else get k m)
unfolding del_all
get-del_all-metadata k [] m = refl
get-del_all-metadata k (h ∷ hs) m =
    ground (arith, get-del_all-metadata k hs (delete h m), get-delete h k m)

get-union_config-to_add :
    (k : Text) (hc hc2 : HeadersConfig)
    → IsOnceEach hc.to_add
    → IsOnceEach hc2.to_add
    → IsOnceEach (union_config hc (some hc2)).to_add
      × (get k (union_config hc (some hc2)).to_add ≡ over (get k hc2.to_add) (get k hc.to_add))
unfolding union_config
get-union_config-to_add k hc hc2 once once2 = (
  put_all-IsOnceEach hc2.to_add (put_all hc.to_add []) (put_all-IsOnceEach hc.to_add [] tt),
  ground (
    arith,
    get-put_all k hc2.to_add (put_all hc.to_add []) once2,
    get-put_all k hc.to_add [] once,
    get_empty {V = Text} k,
  ),
)

is_among-union_config :
    (k : Text) (hc hc2 : HeadersConfig)
    → is_among k (union_config hc (some hc2)).to_remove
      ≡ (is_among k hc.to_remove || is_among k hc2.to_remove)
unfolding union_config
is_among-union_config k hc hc2 = any-append (λ h. h == k) hc.to_remove hc2.to_remove

get-update_headers-metadata :
    (k : Text) (hc : HeadersConfig) (m : Dict Text (List Text))
    → IsOnceEach hc.to_add
    → values_of (get k (update_headers metadata hc m))
      ≡ values_of (if is_among k hc.to_remove then none else get k m) ++ one_value (get k hc.to_add)
unfolding update_headers
get-update_headers-metadata k hc m once =
    values_of-add_all k hc.to_add (del_all metadata hc.to_remove m) once
    ∙ ap (λ (o : Option (List Text)). values_of o ++ one_value (get k hc.to_add))
        (get-del_all-metadata k hc.to_remove m)

-- What a union of two configs, each with a header to add once, does to a header. Where Add overwrites
-- (SimpleHTTPHeaders), it is what the second adds, or else what the first adds, or else gone if one of
-- the two removes it, or else what it was. Where Add appends (MD), its values are those it had, none of
-- them if one of the two removes it, and after them what the second adds, or else what the first adds.
-- So in both, a header that one config adds and the other removes is added.
pub get-update_headers-union_config :
    (k : Text) (hc hc2 : HeadersConfig) (m : Dict Text Text) (md : Dict Text (List Text))
    → IsOnceEach hc.to_add
    → IsOnceEach hc2.to_add
    → let added = over (get k hc2.to_add) (get k hc.to_add) in
      let is_removed = is_among k hc.to_remove || is_among k hc2.to_remove in
      (get k (update_headers simple_headers (union_config hc (some hc2)) m)
        ≡ over added (if is_removed then none else get k m))
      × (values_of (get k (update_headers metadata (union_config hc (some hc2)) md))
          ≡ values_of (if is_removed then none else get k md) ++ one_value added)
get-update_headers-union_config k hc hc2 m md once once2 =
    let (all_once, added) = get-union_config-to_add k hc hc2 once once2 in
    (
      get-update_headers k (union_config hc (some hc2)) m all_once
          ∙ rw (added, is_among-union_config k hc hc2) refl,
      get-update_headers-metadata k (union_config hc (some hc2)) md all_once
          ∙ rw (added, is_among-union_config k hc hc2) refl,
    )
