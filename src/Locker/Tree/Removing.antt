-- ===== src/Locker/Tree/Removing.antt =====
-- What removing a path does to a locker (locker.go, unsafeRemoveKeysFromLocker, unsafeRemoveSubKeys).
use goto.Prelude.{
  ◌≡◌, refl, arith, Bool, true, false, ◌&&◌, Option, none, some, List, [], ◌∷◌, if◌then◌else◌, Text,
  text_eq, ◌==◌, eq_iff, eq_refl, ◌∙◌, ap,
}
use goto.Locker.Tree.{
  nil, LockerData, Locker, empty, entry, nil_entry, is_empty, sub_keys, with_sub_keys, get, delete,
  remove_keys, put_or_drop,
}
use goto.Locker.Tree.Storing.{
  get-put, data_at, data_at_empty, value_at, sub_at, sub_keys-with_sub_keys,
}

abbrev pub is_prefix : List Text → List Text → Bool
is_prefix [] ks = true
is_prefix (j ∷ js) [] = false
is_prefix (j ∷ js) (k ∷ ks) = k == j && is_prefix js ks

pub get-delete : (k j : Text) (l : Locker) → get j (delete k l) ≡ (if k == j then none else get j l)
unfolding get delete
get-delete k j empty = ground arith
get-delete k j (entry i e rest) =
    ground (arith, eq_iff k j, eq_iff i k, eq_iff i j, get-delete k j rest)
get-delete k j (nil_entry i rest) =
    ground (arith, eq_iff k j, eq_iff i k, eq_iff i j, get-delete k j rest)

is_empty-data_at : (js : List Text) (m : Locker) → is_empty m ≡ true → data_at js m ≡ nil
is_empty-data_at js empty e = data_at_empty js
is_empty-data_at js (entry k d rest) e = ground arith
is_empty-data_at js (nil_entry k rest) e = ground arith

below-put_or_drop :
    (k j i : Text) (js : List Text) (d : LockerData) (l : Locker)
    → data_at (i ∷ js) (sub_at (get j (put_or_drop k d l)))
      ≡ (if k == j then data_at (i ∷ js) (sub_keys d) else data_at (i ∷ js) (sub_at (get j l)))
below-put_or_drop k j i js d l = ground (
  arith,
  get-put k j d l,
  get-delete k j l,
  is_empty-data_at (i ∷ js) (sub_keys d),
  data_at_empty (i ∷ js),
)

get-put_or_drop :
    (k j : Text) (d : LockerData) (l : Locker)
    → k == j ≡ false
    → get j (put_or_drop k d l) ≡ get j l
get-put_or_drop k j d l e = ground (arith, get-put k j d l, get-delete k j l)

abbrev remove_at : Text → (Locker → Locker) → Option LockerData → Locker → Locker
remove_at k f none l = l
remove_at k f (some d) l = put_or_drop k (with_sub_keys (f (sub_keys d)) d) l

remove_keys-remove_at :
    (k : Text) (ks : List Text) (l : Locker)
    → remove_keys (k ∷ ks) l ≡ remove_at k (remove_keys ks) (get k l) l
unfolding remove_keys
remove_keys-remove_at k ks l = ground arith

remove_keys_empty : (ks : List Text) → remove_keys ks empty ≡ empty
unfolding remove_keys get
remove_keys_empty [] = refl
remove_keys_empty (k ∷ ks) = refl

remove_at-value :
    (k j : Text) (f : Locker → Locker) (o : Option LockerData) (l : Locker)
    → k == j ≡ false
    → value_at (get j (remove_at k f o l)) ≡ value_at (get j l)
remove_at-value k j f none l e = refl
remove_at-value k j f (some d) l e =
    ap value_at (get-put_or_drop k j (with_sub_keys (f (sub_keys d)) d) l e)

remove_at-below :
    (k j i : Text) (js ks : List Text) (f : Locker → Locker) (o : Option LockerData) (l : Locker)
    → get k l ≡ o
    → k == j && is_prefix (i ∷ js) ks ≡ false
    → ((m : Locker) → is_prefix (i ∷ js) ks ≡ false → data_at (i ∷ js) (f m) ≡ data_at (i ∷ js) m)
    → data_at (i ∷ js) (sub_at (get j (remove_at k f o l))) ≡ data_at (i ∷ js) (sub_at (get j l))
remove_at-below k j i js ks f none l found off keeps = refl
remove_at-below k j i js ks f (some d) l found off keeps = ground (
  arith,
  below-put_or_drop k j i js (with_sub_keys (f (sub_keys d)) d) l,
  sub_keys-with_sub_keys (f (sub_keys d)) d,
  eq_iff k j,
  keeps (sub_keys d),
)

-- Removing a path keeps the data under every path that is not the removed one or a part of its beginning.
pub data_at-remove_keys :
    (ks js : List Text) (l : Locker)
    → is_prefix js ks ≡ false
    → data_at js (remove_keys ks l) ≡ data_at js l
unfolding data_at remove_keys
data_at-remove_keys [] js l off = refl
data_at-remove_keys (k ∷ ks) [] l off = refl
data_at-remove_keys (k ∷ ks) (j ∷ []) l off =
    ap (λ m. value_at (get j m)) (remove_keys-remove_at k ks l)
    ∙ remove_at-value k j (remove_keys ks) (get k l) l (ground (arith, off))
data_at-remove_keys (k ∷ ks) (j ∷ i ∷ js) l off =
    ap (λ m. data_at (i ∷ js) (sub_at (get j m))) (remove_keys-remove_at k ks l)
    ∙ remove_at-below k j i js ks (remove_keys ks) (get k l) l refl off
        (data_at-remove_keys ks (i ∷ js))

-- Removing any path below a node that has no keys below it, one that was never stored included, deletes
-- the node with its data.
remove_below_leaf :
    (k : Text) (ks : List Text) (d : LockerData) (l : Locker)
    → get k l ≡ some d
    → sub_keys d ≡ empty
    → data_at (k ∷ []) (remove_keys (k ∷ ks) l) ≡ nil
unfolding data_at remove_keys
remove_below_leaf k ks d l found leaf = ground (
  arith,
  found,
  leaf,
  remove_keys_empty ks,
  sub_keys-with_sub_keys (remove_keys ks (sub_keys d)) d,
  get-delete k k l,
  eq_refl k,
)
