-- ===== src/Locker/Combi.antt =====
-- CombiLocker (locker.go): the peers' lockers by name in lower case, and the registry's own data.
-- The peer's locker and the instance's locker that a call gets or makes are entered in their maps with
-- what the call writes to them. The lockers below it (SubLockers) are not modelled.
pub mod Peers
pub mod Reading
use goto.Prelude.{
  ℕ, Bool, true, false, not, Option, none, some, List, [], ◌∷◌, if◌then◌else◌, Text, text_eq, ◌==◌,
  nat_beq, to_lower,
}
use goto.Prelude.Dict.{Dict, get, put, delete}
use goto.Locker.Tree.{Locker, empty, ReadResult, not_found}
use goto.Locker.Data.{DataLocker}
use goto.Locker.Data
use goto.Locker.Peer.{PeerLocker}
use goto.Locker.Peer

pub record CombiLocker : Type 0 where
  pub label : Text
  pub peer_lockers : Dict Text PeerLocker
  pub data_locker : DataLocker
  pub current : Bool
  pub first_opened : ℕ
  pub last_opened : ℕ

-- Open; the zero time is 0.
abbrev pub open_at : ℕ → CombiLocker → CombiLocker
open_at now cl = if cl.current then cl else record cl {
  current = true;
  first_opened = if nat_beq cl.first_opened 0 then now else cl.first_opened;
  last_opened = now;
}

-- Init
abbrev pub init : ℕ → CombiLocker → CombiLocker
init now cl = open_at now (record cl { peer_lockers = []; data_locker = Data.new })

abbrev pub or_new : Option PeerLocker → PeerLocker
or_new none = Peer.new
or_new (some pl) = pl

-- createOrGetPeerLocker, and what is written through the pointer that it returns.
abbrev pub update_peer : Text → (PeerLocker → PeerLocker) → CombiLocker → CombiLocker
update_peer name f cl =
    let peer = to_lower name in
    record cl { peer_lockers = put peer (f (or_new (get peer cl.peer_lockers))) cl.peer_lockers }

-- createOrGetInstanceLocker
abbrev pub update_instance : Text → Text → (DataLocker → DataLocker) → CombiLocker → CombiLocker
update_instance name address f = update_peer name (Peer.update_instance address f)

-- InitPeerLocker
abbrev pub init_peer_locker : Text → Text → CombiLocker → CombiLocker
init_peer_locker [] address cl = record cl { peer_lockers = [] }
init_peer_locker (c ∷ name) [] cl = record cl {
  peer_lockers = put (to_lower (c ∷ name)) Peer.new cl.peer_lockers;
}
init_peer_locker (c ∷ name) (a ∷ address) cl =
    update_peer (c ∷ name) (λ pl. (Peer.clear_instance (a ∷ address) pl).0) cl

-- DeactivateInstanceLocker
abbrev pub deactivate_instance_locker : Text → Text → CombiLocker → CombiLocker
deactivate_instance_locker name address = update_instance name address Data.deactivate

-- StorePeerData
abbrev pub store_peer_data : ℕ → Text → Text → List Text → Text → CombiLocker → CombiLocker
store_peer_data now name address [] v cl = cl
store_peer_data now name [] (k ∷ ks) v cl = update_peer name (Peer.store now (k ∷ ks) v) cl
store_peer_data now name (a ∷ address) (k ∷ ks) v cl =
    update_instance name (a ∷ address) (Data.store now (k ∷ ks) v) cl

-- RemovePeerData
abbrev pub remove_peer_data : Text → Text → List Text → CombiLocker → CombiLocker
remove_peer_data name address [] cl = cl
remove_peer_data name [] (k ∷ ks) cl = update_peer name (Peer.remove (k ∷ ks)) cl
remove_peer_data name (a ∷ address) (k ∷ ks) cl =
    update_instance name (a ∷ address) (Data.remove (k ∷ ks)) cl

-- Store
abbrev pub store : ℕ → List Text → Text → CombiLocker → CombiLocker
store now keys v cl = record cl { data_locker = Data.store now keys v cl.data_locker }

-- Remove
abbrev pub remove : List Text → CombiLocker → CombiLocker
remove keys cl = record cl { data_locker = Data.remove keys cl.data_locker }

-- ClearInstanceLocker
abbrev pub clear_instance_locker : Text → Text → CombiLocker → CombiLocker × Bool
clear_instance_locker name address cl =
    let peer = to_lower name in
    elim (get peer cl.peer_lockers) [
      | none ↦ (cl, false)
      | some pl ↦
          let cleared = Peer.clear_instance address pl in
          (record cl { peer_lockers = put peer cleared.0 cl.peer_lockers }, cleared.1)
    ]

-- RemovePeerLocker
abbrev pub remove_peer_locker : Text → CombiLocker → CombiLocker
remove_peer_locker name cl = record cl { peer_lockers = delete (to_lower name) cl.peer_lockers }
