-- ===== src/Locker/Combi/Reading.antt =====
-- What a registry's locker gives of its own and its peers' data (locker.go, CombiLocker).
use goto.Prelude.{
  ℕ, ◌≡◌, refl, arith, Bool, true, false, ◌&&◌, Option, none, some, List, [], ◌∷◌, if◌then◌else◌,
  Text, text_eq, ◌==◌, eq_refl, to_lower, ◌∙◌, ap,
}
use goto.Prelude.Dict.{Dict, get, put, get-put}
use goto.Locker.Tree.{
  Value, text, nil, LockerData, Locker, ReadResult, not_found, data_found, node_found,
  new_locker_data, events_key, read_keys, store_keys, walk,
}
use goto.Locker.Tree
use goto.Locker.Tree.Storing.{data_at, data_at_empty, get-put as tree_get-put}
use goto.Locker.Tree.Views.{read_keys-store_keys}
use goto.Locker.Data.{DataLocker}
use goto.Locker.Data
use goto.Locker.Peer.{PeerLocker}
use goto.Locker.Peer
use goto.Locker.Combi.{CombiLocker, store_peer_data, or_new}
use goto.Locker.Combi.Peers.{data_of, peer_data, same}

-- A read's outcome: nothing, one locker's own answer, a value, a node under the keys joined by commas,
-- or what several lockers have, by name.
pub data Answer : Type 0 where
  nothing : Answer
  own : ReadResult → Answer
  value : Value → Answer
  node : LockerData → Answer
  several : Dict Text ReadResult → Answer

abbrev pub one : ReadResult → Answer
one not_found = nothing
one (data_found v) = value v
one (node_found d) = node d

abbrev pub is_present : ReadResult → Bool
is_present not_found = false
is_present (data_found v) = true
is_present (node_found d) = true

-- Get
abbrev pub read_own : (Text → Bool) → List Text → Bool → ℕ → CombiLocker → Answer
read_own is_object [] data' level cl = nothing
read_own is_object (k ∷ ks) data' level cl =
    one (Data.read is_object (k ∷ ks) data' level cl.data_locker)

-- The instances that GetFromPeerInstanceLocker asks.
abbrev pub instances_at : Text → Dict Text DataLocker → Dict Text DataLocker
instances_at [] m = m
instances_at (a ∷ address) m = elim (get (a ∷ address) m) [
  | none ↦ []
  | some dl ↦ (a ∷ address, dl) ∷ []
]

abbrev found_in : (Text → Bool) → List Text → Dict Text DataLocker → Dict Text ReadResult
found_in is_object keys [] = []
found_in is_object keys ((a, dl) ∷ m) =
    let rest = found_in is_object keys m in
    let r = Data.read is_object keys true 0 dl in if is_present r then (a, r) ∷ rest else rest

abbrev gathered : Text → ReadResult → Dict Text ReadResult → Answer
gathered name r [] = own r
gathered name r (x ∷ xs) = several (if is_present r then put name r (x ∷ xs) else x ∷ xs)

abbrev pub from_instances :
    (Text → Bool) → List Text → Text → ReadResult → Dict Text DataLocker → Answer
from_instances is_object keys name r [] = own r
from_instances is_object keys name r ((a, dl) ∷ []) =
    if is_present r
    then gathered name r (found_in is_object keys ((a, dl) ∷ []))
    else one (Data.read is_object keys true 0 dl)
from_instances is_object keys name r ((a, dl) ∷ (b, dm) ∷ m) =
    gathered name r (found_in is_object keys ((a, dl) ∷ (b, dm) ∷ m))

-- GetFromPeerInstanceLocker
unfoldable pub read_peer : (Text → Bool) → Text → Text → List Text → Bool → ℕ → CombiLocker → Answer
read_peer is_object name address [] data' level cl = nothing
read_peer is_object [] address (k ∷ ks) data' level cl = nothing
read_peer is_object (c ∷ name) address (k ∷ ks) data' level cl =
    let peer = to_lower (c ∷ name) in
    elim (get peer cl.peer_lockers) [
      | none ↦ nothing
      | some pl ↦
          from_instances is_object (k ∷ ks) peer
            (Data.read is_object (k ∷ ks) data' level pl.data_locker)
            (instances_at address pl.instance_lockers)
    ]

abbrev without_peer_events : ℕ → PeerLocker → PeerLocker
without_peer_events now pl = record pl {
  data_locker = record pl.data_locker {
    locker = Tree.put events_key (new_locker_data now 1) pl.data_locker.locker;
  };
}

unfoldable pub map_peers : (PeerLocker → PeerLocker) → Dict Text PeerLocker → Dict Text PeerLocker
map_peers f [] = []
map_peers f ((k, pl) ∷ m) = (k, f pl) ∷ map_peers f m

-- ClearPeerEvents
unfoldable pub clear_peer_events : ℕ → CombiLocker → CombiLocker
clear_peer_events now cl = record cl {
  peer_lockers = map_peers (without_peer_events now) cl.peer_lockers;
}

own_locker : (o : Option PeerLocker) → (or_new o).data_locker.locker ≡ peer_data [] o
own_locker none = refl
own_locker (some pl) = refl

read_keys_absent :
    (is_object : Text → Bool) (ks : List Text) (data' : Bool) (level : ℕ) (l : Locker)
    → walk ks l ≡ none
    → read_keys is_object ks data' level l ≡ not_found
unfolding read_keys
read_keys_absent is_object ks data' level l e = ground (arith, e)

-- A text that is not empty and was stored for an instance of a named peer is what a read of the
-- instance gives, unless the peer's own locker has a node under the path.
pub read_peer-store_peer_data :
    (is_object : Text → Bool) (now level : ℕ) (data' : Bool) (c : ℕ) (name : Text) (a : ℕ)
    (address : Text) (k : Text) (ks : List Text) (d : ℕ) (v : Text) (cl : CombiLocker)
    → walk (k ∷ ks) (data_of (c ∷ name) [] cl) ≡ none
    → read_peer is_object
        (c ∷ name)
        (a ∷ address)
        (k ∷ ks)
        data'
        level
        (store_peer_data now (c ∷ name) (a ∷ address) (k ∷ ks) (d ∷ v) cl)
      ≡ value (text (d ∷ v))
unfolding read_peer
read_peer-store_peer_data is_object now level data' c name a address k ks d v cl own_free =
    let pl = or_new (get (to_lower (c ∷ name)) cl.peer_lockers) in
    let dl = Peer.or_new (get (a ∷ address) pl.instance_lockers) in
    ground (
      arith,
      get-put (to_lower (c ∷ name)) (to_lower (c ∷ name))
          (Peer.update_instance (a ∷ address) (Data.store now (k ∷ ks) (d ∷ v)) pl) cl.peer_lockers,
      eq_refl (to_lower (c ∷ name)),
      get-put (a ∷ address) (a ∷ address) (Data.store now (k ∷ ks) (d ∷ v) dl) pl.instance_lockers,
      eq_refl (a ∷ address),
      read_keys-store_keys is_object now 1 0 true k ks d v dl.locker,
      read_keys_absent is_object (k ∷ ks) data' level pl.data_locker.locker
          (ap (walk (k ∷ ks)) (own_locker (get (to_lower (c ∷ name)) cl.peer_lockers)) ∙ own_free),
    )

abbrev mapped : (PeerLocker → PeerLocker) → Option PeerLocker → Option PeerLocker
mapped f none = none
mapped f (some pl) = some (f pl)

get-map_peers :
    (f : PeerLocker → PeerLocker) (name : Text) (m : Dict Text PeerLocker)
    → get name (map_peers f m) ≡ mapped f (get name m)
unfolding map_peers get
get-map_peers f name [] = refl
get-map_peers f name ((k, pl) ∷ m) = ground (arith, get-map_peers f name m)

data_at-put_events :
    (now : ℕ) (k : Text) (ks : List Text) (l : Locker)
    → data_at (k ∷ ks) (Tree.put events_key (new_locker_data now 1) l)
      ≡ (if events_key == k then nil else data_at (k ∷ ks) l)
unfolding data_at
data_at-put_events now k [] l = ground (arith, tree_get-put events_key k (new_locker_data now 1) l)
data_at-put_events now k (j ∷ ks) l =
    ground (arith, tree_get-put events_key k (new_locker_data now 1) l, data_at_empty (j ∷ ks))

without_peer_events-data :
    (now : ℕ) (address : Text) (k : Text) (ks : List Text) (o : Option PeerLocker)
    → data_at (k ∷ ks) (peer_data address (mapped (without_peer_events now) o))
      ≡ (if same address [] && events_key == k then nil else data_at (k ∷ ks) (peer_data address o))
unfolding text_eq
without_peer_events-data now address k ks none = ground (arith, data_at_empty (k ∷ ks))
without_peer_events-data now [] k ks (some pl) = data_at-put_events now k ks pl.data_locker.locker
without_peer_events-data now (a ∷ address) k ks (some pl) = refl

-- Clearing the peers' events takes the events from each peer's own locker, and nothing else.
pub clear_peer_events_lem :
    (now : ℕ) (name address : Text) (k : Text) (ks : List Text) (cl : CombiLocker)
    → data_at (k ∷ ks) (data_of name address (clear_peer_events now cl)) ≡ (
        if same address [] && events_key == k
        then nil
        else data_at (k ∷ ks) (data_of name address cl))
unfolding clear_peer_events
clear_peer_events_lem now name address k ks cl =
    ap (λ o. data_at (k ∷ ks) (peer_data address o))
      (get-map_peers (without_peer_events now) (to_lower name) cl.peer_lockers)
    ∙ without_peer_events-data now address k ks (get (to_lower name) cl.peer_lockers)
