-- ===== src/Locker/Tree/Storing.antt =====
-- A locker as a map from paths of keys to data (locker.go, unsafeStoreKeysInLocker, unsafeReadKeys).
use goto.Prelude.{
  ℕ, suc, ◌≡◌, refl, arith, Bool, true, false, ◌&&◌, Option, none, some, List, [], ◌∷◌,
  if◌then◌else◌, Text, text_eq, ◌==◌, eq_iff, ◌∙◌,
}
use goto.Locker.Tree.{
  Value, nil, text, LockerData, locker_data, Locker, empty, entry, nil_entry, value_of, sub_keys,
  with_sub_keys, with_value, reported, get, put, store_keys, walk, create_or_get, or_new,
}

pub get-put :
    (k j : Text) (d : LockerData) (l : Locker)
    → get j (put k d l) ≡ (if k == j then some d else get j l)
unfolding get put
get-put k j d empty = refl
get-put k j d (entry i e rest) =
    ground (arith, eq_iff k j, eq_iff i k, eq_iff i j, get-put k j d rest)
get-put k j d (nil_entry i rest) =
    ground (arith, eq_iff k j, eq_iff i k, eq_iff i j, get-put k j d rest)

abbrev pub value_at : Option LockerData → Value
value_at none = nil
value_at (some d) = value_of d

abbrev pub sub_at : Option LockerData → Locker
sub_at none = empty
sub_at (some d) = sub_keys d

-- The data under a path, nil where there is no node.
unfoldable pub data_at : List Text → Locker → Value
data_at [] l = nil
data_at (k ∷ []) l = value_at (get k l)
data_at (k ∷ j ∷ ks) l = data_at (j ∷ ks) (sub_at (get k l))

abbrev pub keys_eq : List Text → List Text → Bool
keys_eq [] [] = true
keys_eq [] (j ∷ js) = false
keys_eq (k ∷ ks) [] = false
keys_eq (k ∷ ks) (j ∷ js) = k == j && keys_eq ks js

pub data_at_empty : (ks : List Text) → data_at ks empty ≡ nil
unfolding data_at get
data_at_empty [] = refl
data_at_empty (k ∷ []) = refl
data_at_empty (k ∷ j ∷ ks) = data_at_empty (j ∷ ks)

pub data_at-walk : (ks : List Text) (l : Locker) → value_at (walk ks l) ≡ data_at ks l
unfolding data_at walk
data_at-walk [] l = refl
data_at-walk (k ∷ []) l = refl
data_at-walk (k ∷ j ∷ ks) l =
    ground (arith, data_at-walk (j ∷ ks) (sub_at (get k l)), data_at_empty (j ∷ ks))

sub-create : (now level : ℕ) (o : Option LockerData) → sub_keys (or_new now level o) ≡ sub_at o
sub-create now level o = ground arith

value-create : (now level : ℕ) (o : Option LockerData) → value_of (or_new now level o) ≡ value_at o
value-create now level o = ground arith

value-reported : (now : ℕ) (d : LockerData) → value_of (reported now d) ≡ value_of d
value-reported now (locker_data v sub first last level) = refl

sub-reported : (now : ℕ) (d : LockerData) → sub_keys (reported now d) ≡ sub_keys d
sub-reported now (locker_data v sub first last level) = refl

value_of-with_value : (v : Value) (d : LockerData) → value_of (with_value v d) ≡ v
value_of-with_value v (locker_data w sub first last level) = refl

sub_keys-with_value : (v : Value) (d : LockerData) → sub_keys (with_value v d) ≡ sub_keys d
sub_keys-with_value v (locker_data w sub first last level) = refl

pub value_of-with_sub_keys :
    (m : Locker) (d : LockerData) → value_of (with_sub_keys m d) ≡ value_of d
value_of-with_sub_keys m (locker_data w sub first last level) = refl

pub sub_keys-with_sub_keys : (m : Locker) (d : LockerData) → sub_keys (with_sub_keys m d) ≡ m
sub_keys-with_sub_keys m (locker_data w sub first last level) = refl

abbrev pub stored : ℕ → Text → LockerData → LockerData
stored now v d = with_value (text v) (reported now d)

value_of-stored : (now : ℕ) (v : Text) (d : LockerData) → value_of (stored now v d) ≡ text v
value_of-stored now v d = value_of-with_value (text v) (reported now d)

sub_keys-stored : (now : ℕ) (v : Text) (d : LockerData) → sub_keys (stored now v d) ≡ sub_keys d
sub_keys-stored now v d = sub_keys-with_value (text v) (reported now d) ∙ sub-reported now d

-- Storing a value under a path changes the data under that path only; what it makes or finds on the way
-- keeps its data.
pub data_at-store_keys :
    (now level : ℕ) (k : Text) (ks js : List Text) (v : Text) (l : Locker)
    → data_at js (store_keys now level (k ∷ ks) v l)
      ≡ (if keys_eq (k ∷ ks) js then text v else data_at js l)
unfolding data_at store_keys
data_at-store_keys now level k [] [] v l = refl
data_at-store_keys now level k (k' ∷ ks) [] v l = refl
data_at-store_keys now level k [] (j ∷ []) v l = ground (
  arith,
  get-put k j (stored now v (create_or_get l k now level)) l,
  eq_iff k j,
  value_of-stored now v (create_or_get l k now level),
)
data_at-store_keys now level k [] (j ∷ i ∷ js) v l = ground (
  arith,
  get-put k j (stored now v (create_or_get l k now level)) l,
  eq_iff k j,
  sub_keys-stored now v (create_or_get l k now level),
  sub-create now level (get k l),
)
data_at-store_keys now level k (k' ∷ ks) (j ∷ []) v l = ground (
  arith,
  get-put k j
      (with_sub_keys
        (store_keys now (suc level) (k' ∷ ks) v (sub_keys (create_or_get l k now level)))
        (reported now (create_or_get l k now level)))
      l,
  eq_iff k j,
  value_of-with_sub_keys
      (store_keys now (suc level) (k' ∷ ks) v (sub_keys (create_or_get l k now level)))
      (reported now (create_or_get l k now level)),
  value-reported now (create_or_get l k now level),
  value-create now level (get k l),
)
data_at-store_keys now level k (k' ∷ ks) (j ∷ i ∷ js) v l = ground (
  arith,
  get-put k j
      (with_sub_keys
        (store_keys now (suc level) (k' ∷ ks) v (sub_keys (create_or_get l k now level)))
        (reported now (create_or_get l k now level)))
      l,
  eq_iff k j,
  sub_keys-with_sub_keys
      (store_keys now (suc level) (k' ∷ ks) v (sub_keys (create_or_get l k now level)))
      (reported now (create_or_get l k now level)),
  sub-create now level (get k l),
  data_at-store_keys now (suc level) k' ks (i ∷ js) v (sub_keys (create_or_get l k now level)),
)
