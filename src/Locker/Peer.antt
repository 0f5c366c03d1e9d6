-- ===== src/Locker/Peer.antt =====
-- PeerLocker (locker.go): a peer's own data locker and those of its instances, by address.
use goto.Prelude.{
  ℕ, Bool, true, false, Option, none, some, List, [], ◌∷◌, if◌then◌else◌, Text, text_eq,
}
use goto.Prelude.Dict.{Dict, get, put, delete}
use goto.Locker.Tree.{LockerData, Locker, empty, entry, nil_entry, locker_view, trim, events_key}
use goto.Locker.Tree
use goto.Locker.Data.{DataLocker}
use goto.Locker.Data

pub record PeerLocker : Type 0 where
  pub data_locker : DataLocker
  pub instance_lockers : Dict Text DataLocker

-- newPeerLocker and init
abbrev pub new : PeerLocker
new = record { data_locker = Data.new; instance_lockers = [] }

-- Store
abbrev pub store : ℕ → List Text → Text → PeerLocker → PeerLocker
store now keys v pl = record pl { data_locker = Data.store now keys v pl.data_locker }

-- Remove
abbrev pub remove : List Text → PeerLocker → PeerLocker
remove keys pl = record pl { data_locker = Data.remove keys pl.data_locker }

abbrev pub or_new : Option DataLocker → DataLocker
or_new none = Data.new
or_new (some dl) = dl

-- createOrGetInstanceLocker, and what is written through the pointer that it returns.
abbrev pub update_instance : Text → (DataLocker → DataLocker) → PeerLocker → PeerLocker
update_instance address f pl = record pl {
  instance_lockers = put address (f (or_new (get address pl.instance_lockers))) pl.instance_lockers;
}

-- clearInstanceLocker: whether the instance was there.
abbrev pub clear_instance : Text → PeerLocker → PeerLocker × Bool
clear_instance address pl = elim (get address pl.instance_lockers) [
  | none ↦ (pl, false)
  | some _ ↦ (record pl { instance_lockers = put address Data.new pl.instance_lockers }, true)
]

-- removeInstanceLocker
abbrev pub remove_instance : Text → PeerLocker → PeerLocker
remove_instance address pl = record pl { instance_lockers = delete address pl.instance_lockers }

-- GetLockerWithoutEvents
abbrev pub without_events : PeerLocker → PeerLocker
without_events pl = record pl {
  data_locker = record pl.data_locker { locker = Tree.delete events_key pl.data_locker.locker };
}

abbrev map_values : (DataLocker → DataLocker) → Dict Text DataLocker → Dict Text DataLocker
map_values f [] = []
map_values f ((k, dl) ∷ m) = (k, f dl) ∷ map_values f m

-- GetLockerView
abbrev pub peer_view : (Text → Bool) → Bool → Bool → PeerLocker → PeerLocker
peer_view is_object data' events pl =
    let own = Data.viewed is_object data' pl.data_locker in
    record {
      data_locker =
          if events then own else record own { locker = Tree.delete events_key own.locker };
      instance_lockers = map_values (Data.viewed is_object data') pl.instance_lockers;
    }

-- Trim
abbrev pub trimmed : ℕ → PeerLocker → PeerLocker
trimmed level pl = record {
  data_locker = Data.trimmed level pl.data_locker;
  instance_lockers = map_values (Data.trimmed level) pl.instance_lockers;
}
