-- ===== src/Locker/Tree.antt =====
-- The tree of keyed data (locker.go, Locker, LockerData and the unsafe functions over them). A pointer
-- to a node is held by its parent only, so a write through it is a write in the tree. Time is a number.
pub mod Storing
pub mod Removing
pub mod Views
use goto.Prelude.{
  ℕ, zero, suc, ◌+◌, Bool, true, false, ◌&&◌, ◌||◌, not, Option, none, some, List, [], ◌∷◌, ◌++◌,
  ltb, if◌then◌else◌, Text, codes, text_eq, ◌==◌,
}

-- LockerData.Data: nil, a text, or the object that json.Unmarshal makes of a text.
pub data Value : Type 0 where
  nil : Value
  text : Text → Value
  object : Text → Value

mutual
  -- Data, SubKeys, FirstReported, LastReported and level.
  pub data LockerData : Type 0 where
    locker_data : Value → Locker → ℕ → ℕ → ℕ → LockerData

  -- A map of nodes; a view may hold nil under a key.
  pub data Locker : Type 0 where
    empty : Locker
    entry : Text → LockerData → Locker → Locker
    nil_entry : Text → Locker → Locker

abbrev pub value_of : LockerData → Value
value_of (locker_data v sub first last level) = v

abbrev pub sub_keys : LockerData → Locker
sub_keys (locker_data v sub first last level) = sub

abbrev pub with_sub_keys : Locker → LockerData → LockerData
with_sub_keys sub (locker_data v _ first last level) = locker_data v sub first last level

abbrev pub with_value : Value → LockerData → LockerData
with_value v (locker_data _ sub first last level) = locker_data v sub first last level

abbrev pub reported : ℕ → LockerData → LockerData
reported now (locker_data v sub first _ level) = locker_data v sub first now level

-- `locker[key]`, nil for a key that is not there or that nil stands under.
unfoldable pub get : Text → Locker → Option LockerData
get k empty = none
get k (entry j d rest) = if j == k then some d else get k rest
get k (nil_entry j rest) = if j == k then none else get k rest

unfoldable pub put : Text → LockerData → Locker → Locker
put k d empty = entry k d empty
put k d (entry j e rest) = if j == k then entry k d rest else entry j e (put k d rest)
put k d (nil_entry j rest) = if j == k then entry k d rest else nil_entry j (put k d rest)

unfoldable pub delete : Text → Locker → Locker
delete k empty = empty
delete k (entry j e rest) = let rest' = delete k rest in if j == k then rest' else entry j e rest'
delete k (nil_entry j rest) =
    let rest' = delete k rest in if j == k then rest' else nil_entry j rest'

-- len(locker) == 0
abbrev pub is_empty : Locker → Bool
is_empty empty = true
is_empty (entry k d rest) = false
is_empty (nil_entry k rest) = false

abbrev pub new_locker_data : ℕ → ℕ → LockerData
new_locker_data now level = locker_data nil empty now 0 level

abbrev pub or_new : ℕ → ℕ → Option LockerData → LockerData
or_new now level none = new_locker_data now level
or_new now level (some d) = d

-- createOrGetLockerData; the caller enters the node in the map with what it writes to it.
abbrev pub create_or_get : Locker → Text → ℕ → ℕ → LockerData
create_or_get l k now level = or_new now level (get k l)

-- unsafeStoreKeysInLocker: the node of each key in turn is made or found, and is reported now; the last
-- one takes the value.
unfoldable pub store_keys : ℕ → ℕ → List Text → Text → Locker → Locker
store_keys now level [] v l = l
store_keys now level (k ∷ []) v l =
    put k (with_value (text v) (reported now (create_or_get l k now level))) l
store_keys now level (k ∷ j ∷ ks) v l =
    let d = create_or_get l k now level in
    put k (with_sub_keys (store_keys now (suc level) (j ∷ ks) v (sub_keys d)) (reported now d)) l

abbrev pub put_or_drop : Text → LockerData → Locker → Locker
put_or_drop k d l = if is_empty (sub_keys d) then delete k l else put k d l

-- unsafeRemoveKeysFromLocker and unsafeRemoveSubKeys: on the way back up, each node on the path that has
-- no keys below it is deleted.
unfoldable pub remove_keys : List Text → Locker → Locker
remove_keys [] l = l
remove_keys (k ∷ ks) l = elim (get k l) [
  | none ↦ l
  | some d ↦ put_or_drop k (with_sub_keys (remove_keys ks (sub_keys d)) d) l
]

-- The node that the loop of unsafeReadKeys ends at.
unfoldable pub walk : List Text → Locker → Option LockerData
walk [] l = none
walk (k ∷ []) l = get k l
walk (k ∷ j ∷ ks) l = elim (get k l) [ none ↦ none | some d ↦ walk (j ∷ ks) (sub_keys d) ]

-- Data != ""
abbrev pub is_blank : Value → Bool
is_blank (text []) = true
is_blank _ = false

abbrev pub shown : Value → Value
shown v = if is_blank v then nil else v

abbrev pub ellipsis : Text
ellipsis = codes "..."

-- What unsafeTrimLocker puts below the nodes of the last level.
abbrev cut : Locker → Locker
cut sub = if is_empty sub then empty else nil_entry ellipsis empty

-- unsafeTrimLocker: the view of the first `level` levels.
unfoldable pub trim : ℕ → Locker → Locker
trim zero l = empty
trim (suc n) empty = empty
trim (suc n) (nil_entry k rest) = nil_entry k (trim (suc n) rest)
trim (suc zero) (entry k (locker_data v sub first last level) rest) =
    entry k (locker_data (shown v) (cut sub) first last level) (trim (suc zero) rest)
trim (suc (suc n)) (entry k (locker_data v sub first last level) rest) =
    entry k (locker_data (shown v) (trim (suc n) sub) first last level) (trim (suc (suc n)) rest)

-- The data of a view; `is_object` is whether json.Unmarshal makes an object of a text.
abbrev pub viewed : (Text → Bool) → Bool → Value → Value
viewed is_object data' nil = nil
viewed is_object false v = text ellipsis
viewed is_object true (text s) = if is_object s then object s else text s
viewed is_object true (object s) = object s

-- unsafeGetLockerView
unfoldable pub locker_view : (Text → Bool) → Bool → Locker → Locker
locker_view is_object data' empty = empty
locker_view is_object data' (nil_entry k rest) = nil_entry k (locker_view is_object data' rest)
locker_view is_object data' (entry k (locker_data v sub first last level) rest) =
    entry k
      (locker_data (viewed is_object data' v) (locker_view is_object data' sub) first last level)
      (locker_view is_object data' rest)

-- What a read gives: nothing, the data of the node, or the node or a view of it.
pub data ReadResult : Type 0 where
  not_found : ReadResult
  data_found : Value → ReadResult
  node_found : LockerData → ReadResult

-- Two views may be laid over one another; the later one's entries win.
abbrev pub overlay : Locker → Locker → Locker
overlay l empty = l
overlay l (entry k d rest) = overlay (put k d l) rest
overlay l (nil_entry k rest) = overlay (nil_entry k (delete k l)) rest

abbrev node_view : (Text → Bool) → Bool → ℕ → LockerData → LockerData
node_view is_object data' level (locker_data v sub first last lv) =
    locker_data nil
      (if data' then trim level sub else overlay (trim level sub) (locker_view is_object data' sub))
      first last lv

abbrev pub read_node : (Text → Bool) → Bool → ℕ → LockerData → ReadResult
read_node is_object data' level d =
    if not (is_blank (value_of d))
    then data_found (value_of d)
    else if not data' || ltb 0 level
    then node_found (node_view is_object data' level d)
    else node_found d

-- unsafeReadKeys
unfoldable pub read_keys : (Text → Bool) → List Text → Bool → ℕ → Locker → ReadResult
read_keys is_object keys data' level l = elim (walk keys l) [
  | none ↦ not_found
  | some d ↦ read_node is_object data' level d
]

abbrev pub events_key : Text
events_key = codes "events"

-- unsafeSearchOrGetPaths with flat paths; `matches` is the pattern's test, or always true.
unfoldable pub flat_paths : (Text → Bool) → Bool → Text → Locker → List Text
flat_paths matches is_top prefix empty = []
flat_paths matches is_top prefix (nil_entry k rest) = flat_paths matches is_top prefix rest
flat_paths matches is_top prefix (entry k (locker_data v sub first last level) rest) =
    let path = if is_top then prefix ++ k else prefix ++ (codes "," ++ k) in
    let below = flat_paths matches false path sub in
    let others = flat_paths matches is_top prefix rest in
    if (k == events_key) || not (matches k)
    then others
    else (if is_blank v then [] else path ∷ []) ++ (below ++ others)
