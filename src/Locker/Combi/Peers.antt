-- ===== src/Locker/Combi/Peers.antt =====
-- The data of peers and of their instances (locker.go, CombiLocker).
use goto.Prelude.{
  ℕ, Bool, false, ◌≡◌, refl, ap, ◌∙◌, arith, ◌&&◌, Option, none, some, List, [], ◌∷◌, if◌then◌else◌,
  Text, text_eq, ◌==◌, eq_iff, to_lower,
}
use goto.Prelude.Dict.{get, get-put, get_empty}
use goto.Locker.Tree.{Value, nil, text, Locker, empty, remove_keys}
use goto.Locker.Tree.Storing.{data_at, data_at-store_keys, keys_eq, data_at_empty}
use goto.Locker.Tree.Removing.{data_at-remove_keys, is_prefix}
use goto.Locker.Data.{DataLocker}
use goto.Locker.Data
use goto.Locker.Peer.{PeerLocker}
use goto.Locker.Peer
use goto.Locker.Combi.{
  CombiLocker, or_new, store_peer_data, remove_peer_data, init_peer_locker, update_peer,
}

abbrev instance_data : Option DataLocker → Locker
instance_data none = empty
instance_data (some dl) = dl.locker

abbrev pub same : Text → Text → Bool
same a b = a == b

abbrev removed_data : List Text → List Text → DataLocker → Value
removed_data js ks dl = data_at js (remove_keys ks dl.locker)

abbrev removed_own : List Text → List Text → PeerLocker → Value
removed_own js ks pl = removed_data js ks pl.data_locker

abbrev removed_at : List Text → List Text → Text → PeerLocker → Value
removed_at js ks address pl = removed_data js ks (Peer.or_new (get address pl.instance_lockers))

abbrev const_nil : PeerLocker → Value
const_nil pl = nil

-- The locker of a peer, or of its instance at an address that is not empty; no keys when it is not there.
abbrev pub peer_data : Text → Option PeerLocker → Locker
peer_data address none = empty
peer_data [] (some pl) = pl.data_locker.locker
peer_data (a ∷ address) (some pl) = instance_data (get (a ∷ address) pl.instance_lockers)

abbrev pub data_of : Text → Text → CombiLocker → Locker
data_of name address cl = peer_data address (get (to_lower name) cl.peer_lockers)

pub peer_data-or_new :
    (address : Text) (o : Option PeerLocker)
    → peer_data address (some (or_new o)) ≡ peer_data address o
peer_data-or_new [] none = refl
peer_data-or_new (a ∷ address) none = ap instance_data (get_empty (a ∷ address))
peer_data-or_new address (some pl) = refl

pub data_of-update_peer :
    (name name' address' : Text) (f : PeerLocker → PeerLocker) (cl : CombiLocker)
    → data_of name' address' (update_peer name f cl) ≡ (
        if to_lower name == to_lower name'
        then peer_data address' (some (f (or_new (get (to_lower name) cl.peer_lockers))))
        else data_of name' address' cl)
data_of-update_peer name name' address' f cl = ground (
  arith,
  get-put (to_lower name) (to_lower name') (f (or_new (get (to_lower name) cl.peer_lockers)))
      cl.peer_lockers,
)

module _ (address' : Text) (js : List Text) (f : PeerLocker → PeerLocker) (hit : Bool)
    (x : PeerLocker → Value)
    (f-x : (pl : PeerLocker)
      → data_at js (peer_data address' (some (f pl)))
        ≡ (if hit then x pl else data_at js (peer_data address' (some pl)))) where
  update_peer-hit :
      (name name' : Text) (cl : CombiLocker)
      → data_at js (data_of name' address' (update_peer name f cl)) ≡ (
          if to_lower name == to_lower name' && hit
          then x (or_new (get (to_lower name) cl.peer_lockers))
          else data_at js (data_of name' address' cl))
  update_peer-hit name name' cl = ground (
    arith,
    data_of-update_peer name name' address' f cl,
    f-x (or_new (get (to_lower name) cl.peer_lockers)),
    peer_data-or_new address' (get (to_lower name) cl.peer_lockers),
    eq_iff (to_lower name) (to_lower name'),
  )

instance_data-or_new : (o : Option DataLocker) → (Peer.or_new o).locker ≡ instance_data o
instance_data-or_new none = refl
instance_data-or_new (some dl) = refl

module _ (js : List Text) (g : DataLocker → DataLocker) (hit : Bool) (x : DataLocker → Value)
    (g-x : (dl : DataLocker)
      → data_at js (g dl).locker ≡ (if hit then x dl else data_at js dl.locker)) where
  update_instance-hit :
      (a b : ℕ) (aa bs : Text) (pl : PeerLocker)
      → data_at js (peer_data (b ∷ bs) (some (Peer.update_instance (a ∷ aa) g pl))) ≡ (
          if (a ∷ aa) == (b ∷ bs) && hit
          then x (Peer.or_new (get (a ∷ aa) pl.instance_lockers))
          else data_at js (peer_data (b ∷ bs) (some pl)))
  update_instance-hit a b aa bs pl = ground (
    arith,
    get-put (a ∷ aa) (b ∷ bs) (g (Peer.or_new (get (a ∷ aa) pl.instance_lockers)))
        pl.instance_lockers,
    g-x (Peer.or_new (get (a ∷ aa) pl.instance_lockers)),
    instance_data-or_new (get (a ∷ aa) pl.instance_lockers),
    eq_iff (a ∷ aa) (b ∷ bs),
  )

-- Data stored for a peer, or for its instance at an address, is under its path there; what stands under other
-- paths and for other peers, names compared in lower case, and instances does not change.
pub data_at-store_peer_data :
    (now : ℕ) (name address : Text) (k : Text) (ks : List Text) (v : Text) (name' address' : Text)
    (js : List Text) (cl : CombiLocker)
    → data_at js (data_of name' address' (store_peer_data now name address (k ∷ ks) v cl)) ≡ (
        if to_lower name == to_lower name' && (address == address' && keys_eq (k ∷ ks) js)
        then text v
        else data_at js (data_of name' address' cl))
unfolding text_eq
data_at-store_peer_data now name [] k ks v name' [] js cl =
    update_peer-hit [] js (Peer.store now (k ∷ ks) v) (same [] [] && keys_eq (k ∷ ks) js)
      (λ pl. text v) (λ pl. data_at-store_keys now 1 k ks js v pl.data_locker.locker) name name' cl
data_at-store_peer_data now name [] k ks v name' (b ∷ bs) js cl =
    update_peer-hit (b ∷ bs) js (Peer.store now (k ∷ ks) v)
      (same [] (b ∷ bs) && keys_eq (k ∷ ks) js) (λ pl. text v) (λ pl. refl) name name' cl
data_at-store_peer_data now name (a ∷ aa) k ks v name' [] js cl =
    update_peer-hit [] js (Peer.update_instance (a ∷ aa) (Data.store now (k ∷ ks) v))
      (same (a ∷ aa) [] && keys_eq (k ∷ ks) js) (λ pl. text v) (λ pl. refl) name name' cl
data_at-store_peer_data now name (a ∷ aa) k ks v name' (b ∷ bs) js cl =
    update_peer-hit (b ∷ bs) js (Peer.update_instance (a ∷ aa) (Data.store now (k ∷ ks) v))
      (same (a ∷ aa) (b ∷ bs) && keys_eq (k ∷ ks) js) (λ pl. text v)
      (update_instance-hit js (Data.store now (k ∷ ks) v) (keys_eq (k ∷ ks) js) (λ dl. text v)
        (λ dl. data_at-store_keys now 1 k ks js v dl.locker) a b aa bs)
      name name' cl

abbrev cleared : Text → PeerLocker → PeerLocker
cleared address pl = (Peer.clear_instance address pl).0

cleared-data :
    (a : ℕ) (address address' : Text) (js : List Text) (pl : PeerLocker)
    → data_at js (peer_data address' (some (cleared (a ∷ address) pl)))
      ≡ (if (a ∷ address) == address' then nil else data_at js (peer_data address' (some pl)))
cleared-data a address [] js pl = ground (arith, eq_iff (a ∷ address) [])
cleared-data a address (b ∷ bs) js pl = ground (
  arith,
  get-put (a ∷ address) (b ∷ bs) Data.new pl.instance_lockers,
  eq_iff (a ∷ address) (b ∷ bs),
  data_at_empty js,
)

kept_if-not : (b : Bool) (x y : Value) → b ≡ false → (if b then x else y) ≡ y
kept_if-not b x y e = ground (arith, e)

removed_or-kept :
    (ks js : List Text) (l : Locker)
    → data_at js (remove_keys ks l)
      ≡ (if is_prefix js ks then data_at js (remove_keys ks l) else data_at js l)
removed_or-kept ks js l = ground (arith, data_at-remove_keys ks js l)

-- Starting the locker of a named peer's instance anew clears the data of that instance, whether or not it was
-- there, and of no other instance and no peer.
pub data_at-init_peer_locker :
    (c : ℕ) (name : Text) (a : ℕ) (address : Text) (name' address' : Text) (js : List Text)
    (cl : CombiLocker)
    → data_at js (data_of name' address' (init_peer_locker (c ∷ name) (a ∷ address) cl)) ≡ (
        if to_lower (c ∷ name) == to_lower name' && (a ∷ address) == address'
        then nil
        else data_at js (data_of name' address' cl))
data_at-init_peer_locker c name a address name' address' js cl =
    update_peer-hit address' js (cleared (a ∷ address)) ((a ∷ address) == address') (λ pl. nil)
      (cleared-data a address address' js) (c ∷ name) name' cl

-- Removing a path of a peer's or an instance's data keeps the data under every path that is not a
-- beginning of it, and all data of other peers and instances.
pub data_at-remove_peer_data :
    (name address : Text) (k : Text) (ks : List Text) (name' address' : Text) (js : List Text)
    (cl : CombiLocker)
    → (to_lower name == to_lower name' && (address == address' && is_prefix js (k ∷ ks))) ≡ false
    → data_at js (data_of name' address' (remove_peer_data name address (k ∷ ks) cl))
      ≡ data_at js (data_of name' address' cl)
unfolding text_eq
data_at-remove_peer_data name [] k ks name' [] js cl off =
    update_peer-hit [] js (Peer.remove (k ∷ ks)) (same [] [] && is_prefix js (k ∷ ks))
      (removed_own js (k ∷ ks)) (λ pl. removed_or-kept (k ∷ ks) js pl.data_locker.locker) name name'
      cl
    ∙ kept_if-not (to_lower name == to_lower name' && (same [] [] && is_prefix js (k ∷ ks)))
        ((removed_own js (k ∷ ks)) (or_new (get (to_lower name) cl.peer_lockers)))
        (data_at js (data_of name' [] cl)) off
data_at-remove_peer_data name [] k ks name' (b ∷ bs) js cl off =
    update_peer-hit (b ∷ bs) js (Peer.remove (k ∷ ks)) (same [] (b ∷ bs) && is_prefix js (k ∷ ks))
      (const_nil) (λ pl. refl) name name' cl
    ∙ kept_if-not (to_lower name == to_lower name' && (same [] (b ∷ bs) && is_prefix js (k ∷ ks)))
        ((const_nil) (or_new (get (to_lower name) cl.peer_lockers)))
        (data_at js (data_of name' (b ∷ bs) cl)) off
data_at-remove_peer_data name (a ∷ aa) k ks name' [] js cl off =
    update_peer-hit [] js (Peer.update_instance (a ∷ aa) (Data.remove (k ∷ ks)))
      (same (a ∷ aa) [] && is_prefix js (k ∷ ks)) (const_nil) (λ pl. refl) name name' cl
    ∙ kept_if-not (to_lower name == to_lower name' && (same (a ∷ aa) [] && is_prefix js (k ∷ ks)))
        ((const_nil) (or_new (get (to_lower name) cl.peer_lockers)))
        (data_at js (data_of name' [] cl)) off
data_at-remove_peer_data name (a ∷ aa) k ks name' (b ∷ bs) js cl off =
    update_peer-hit (b ∷ bs) js (Peer.update_instance (a ∷ aa) (Data.remove (k ∷ ks)))
      (same (a ∷ aa) (b ∷ bs) && is_prefix js (k ∷ ks)) (removed_at js (k ∷ ks) (a ∷ aa))
      (update_instance-hit js (Data.remove (k ∷ ks)) (is_prefix js (k ∷ ks))
        (removed_data js (k ∷ ks)) (λ dl. removed_or-kept (k ∷ ks) js dl.locker) a b aa bs)
      name name' cl
    ∙ kept_if-not
        (to_lower name == to_lower name' && (same (a ∷ aa) (b ∷ bs) && is_prefix js (k ∷ ks)))
        ((removed_at js (k ∷ ks) (a ∷ aa)) (or_new (get (to_lower name) cl.peer_lockers)))
        (data_at js (data_of name' (b ∷ bs) cl)) off
