-- ===== src/Locker/Tree/Views.antt =====
-- What a locker's readers give back (locker.go, unsafeReadKeys, unsafeTrimLocker).
use goto.Prelude.{
  ℕ, zero, suc, ◌≡◌, refl, arith, Bool, true, Option, none, some, List, [], ◌∷◌, if◌then◌else◌,
  Text, text_eq, eq_refl, ◌∙◌, leb, length,
}
use goto.Locker.Tree.{
  nil, text, LockerData, locker_data, Locker, empty, entry, nil_entry, sub_keys, reported,
  with_sub_keys, get, put, store_keys, walk, read_keys, data_found, not_found, read_node, trim,
  shown, cut, create_or_get,
}
use goto.Locker.Tree.Storing.{
  get-put, data_at, data_at_empty, value_at, sub_at, data_at-walk, data_at-store_keys, keys_eq,
  stored,
}

keys_eq_refl : (ks : List Text) → keys_eq ks ks ≡ true
keys_eq_refl [] = refl
keys_eq_refl (k ∷ ks) = ground (arith, eq_refl k, keys_eq_refl ks)

read_node-text :
    (is_object : Text → Bool) (data' : Bool) (level : ℕ) (o : Option LockerData) (c : ℕ) (v : Text)
    → value_at o ≡ text (c ∷ v)
    → elim o [ none ↦ not_found | some d ↦ read_node is_object data' level d ]
      ≡ data_found (text (c ∷ v))
read_node-text is_object data' level none c v e = ground (arith, e)
read_node-text is_object data' level (some d) c v e = ground (arith, e)

-- What was stored under a path, unless it is the empty text, is what a read of that path gives.
pub read_keys-store_keys :
    (is_object : Text → Bool) (now level depth : ℕ) (data' : Bool) (k : Text) (ks : List Text)
    (c : ℕ) (v : Text) (l : Locker)
    → read_keys is_object (k ∷ ks) data' depth (store_keys now level (k ∷ ks) (c ∷ v) l)
      ≡ data_found (text (c ∷ v))
unfolding read_keys
read_keys-store_keys is_object now level depth data' k ks c v l =
    read_node-text is_object data' depth (walk (k ∷ ks) (store_keys now level (k ∷ ks) (c ∷ v) l)) c
      v
      (data_at-walk (k ∷ ks) (store_keys now level (k ∷ ks) (c ∷ v) l)
        ∙ data_at-store_keys now level k ks (k ∷ ks) (c ∷ v) l
        ∙ ground (arith, keys_eq_refl (k ∷ ks)))

-- A node that was not there, and that a store made on its way to a path of two keys, is read as a node with
-- data, and the data is nil.
pub read_on_the_way :
    (is_object : Text → Bool) (now level depth : ℕ) (data' : Bool) (k j : Text) (v : Text)
    (l : Locker)
    → get k l ≡ none
    → read_keys is_object (k ∷ []) data' depth (store_keys now level (k ∷ j ∷ []) v l)
      ≡ data_found nil
unfolding read_keys walk store_keys
read_on_the_way is_object now level depth data' k j v l new = ground (
  arith,
  new,
  eq_refl k,
  get-put k k
      (with_sub_keys
        (put j
          (stored now v (create_or_get (sub_keys (create_or_get l k now level)) j now (suc level)))
          (sub_keys (create_or_get l k now level)))
        (reported now (create_or_get l k now level)))
      l,
)

value_at-trim :
    (n : ℕ) (k : Text) (l : Locker) → value_at (get k (trim (suc n) l)) ≡ shown (value_at (get k l))
unfolding get trim
value_at-trim n k empty = refl
value_at-trim n k (nil_entry j rest) = ground (arith, value_at-trim n k rest)
value_at-trim zero k (entry j (locker_data v sub first last level) rest) =
    ground (arith, value_at-trim zero k rest)
value_at-trim (suc n) k (entry j (locker_data v sub first last level) rest) =
    ground (arith, value_at-trim (suc n) k rest)

sub_at-trim :
    (n : ℕ) (k : Text) (l : Locker)
    → sub_at (get k (trim (suc (suc n)) l)) ≡ trim (suc n) (sub_at (get k l))
unfolding get trim
sub_at-trim n k empty = refl
sub_at-trim n k (nil_entry j rest) = ground (arith, sub_at-trim n k rest)
sub_at-trim n k (entry j (locker_data v sub first last level) rest) =
    ground (arith, sub_at-trim n k rest)

data_at-cut : (ks : List Text) (l : Locker) → data_at ks (cut l) ≡ nil
unfolding data_at get
data_at-cut [] l = refl
data_at-cut (k ∷ []) l = ground arith
data_at-cut (k ∷ j ∷ ks) l = ground (arith, data_at_empty (j ∷ ks))

data_at-trim_one :
    (ks : List Text) (k : Text) (l : Locker) → data_at ks (sub_at (get k (trim 1 l))) ≡ nil
unfolding get trim
data_at-trim_one ks k empty = data_at_empty ks
data_at-trim_one ks k (nil_entry j rest) =
    ground (arith, data_at-trim_one ks k rest, data_at_empty ks)
data_at-trim_one ks k (entry j (locker_data v sub first last level) rest) =
    ground (arith, data_at-trim_one ks k rest, data_at-cut ks sub)

-- The view of a number of levels of a locker has the data, blank texts left out, under the paths of at
-- most that length, and none under a longer path.
pub data_at-trim :
    (n : ℕ) (ks : List Text) (l : Locker)
    → data_at ks (trim n l) ≡ (if leb (length ks) n then shown (data_at ks l) else nil)
unfolding data_at trim
data_at-trim n [] l = ground arith
data_at-trim zero (k ∷ ks) l = ground (arith, data_at_empty (k ∷ ks))
data_at-trim (suc n) (k ∷ []) l = ground (arith, value_at-trim n k l)
data_at-trim (suc zero) (k ∷ j ∷ ks) l = ground (arith, data_at-trim_one (j ∷ ks) k l)
data_at-trim (suc (suc n)) (k ∷ j ∷ ks) l =
    ground (arith, sub_at-trim n k l, data_at-trim (suc n) (j ∷ ks) (sub_at (get k l)))
