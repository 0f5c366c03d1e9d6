-- ===== src/Tests/Locker.antt =====
-- The lockers at concrete paths and peers.
use goto.Prelude.{◌≡◌, refl, true, false, List, [], ◌∷◌, Text, codes, text_eq, to_lower}
use goto.Locker.Tree.{
  Locker, empty, events_key, new_locker_data, nil, remove_keys, store_keys, text, walk,
}
use goto.Locker.Tree
use goto.Locker.Data
use goto.Locker.Peer
use goto.Locker.Tree.Storing.{data_at, data_at-store_keys}
use goto.Locker.Tree.Removing.{data_at-remove_keys}
use goto.Locker.Combi.{CombiLocker, store_peer_data}
use goto.Prelude.Dict.{get}
use goto.Locker.Combi.Reading.{read_peer, value, read_peer-store_peer_data}
use goto.Locker.Combi.Peers.{data_of, data_at-store_peer_data}

-- The data of one client under two targets.
abbrev results : Locker
results =
    store_keys 7 1 (codes "client" ∷ codes "two" ∷ []) (codes "20")
      (store_keys 5 1 (codes "client" ∷ codes "one" ∷ []) (codes "10") empty)

data_at-store_keys_example :
    data_at
      (codes "client" ∷ codes "one" ∷ [])
      (store_keys 9 1 (codes "client" ∷ codes "two" ∷ []) (codes "30") results)
    ≡ data_at (codes "client" ∷ codes "one" ∷ []) results
unfolding text_eq
data_at-store_keys_example =
    data_at-store_keys 9 1 (codes "client") (codes "two" ∷ []) (codes "client" ∷ codes "one" ∷ [])
      (codes "30") results

data_at-remove_keys_example :
    data_at
      (codes "client" ∷ codes "one" ∷ [])
      (remove_keys (codes "client" ∷ codes "two" ∷ []) results)
    ≡ data_at (codes "client" ∷ codes "one" ∷ []) results
unfolding text_eq
data_at-remove_keys_example =
    data_at-remove_keys (codes "client" ∷ codes "two" ∷ []) (codes "client" ∷ codes "one" ∷ [])
      results refl

-- A path that was never stored below a path that was.
abbrev leaf : Locker
leaf = store_keys 5 1 (codes "client" ∷ []) (codes "10") empty

abbrev registry : CombiLocker
registry = record {
  label = codes "default";
  peer_lockers = (codes "peer1", Peer.new) ∷ [];
  data_locker = Data.new;
  current = true;
  first_opened = 1;
  last_opened = 1;
}

abbrev key : List Text
key = codes "k" ∷ []

data_at-store_peer_data_example :
    data_at key (
      data_of
        (codes "peer1")
        (codes "1.2.3.4")
        (store_peer_data 3 (codes "Peer1") (codes "1.2.3.4") key (codes "v") registry))
    ≡ text (codes "v")
unfolding text_eq to_lower
data_at-store_peer_data_example =
    data_at-store_peer_data 3 (codes "Peer1") (codes "1.2.3.4") (codes "k") [] (codes "v")
      (codes "peer1") (codes "1.2.3.4") key registry

abbrev with_data : CombiLocker
with_data = store_peer_data 3 (codes "peer1") (codes "1.2.3.4") key (codes "v") registry

read_peer-store_peer_data_example :
    read_peer
      (λ s. false)
      (codes "Peer1")
      (codes "1.2.3.4")
      key
      false
      2
      (store_peer_data 3 (codes "Peer1") (codes "1.2.3.4") key (codes "v") registry)
    ≡ value (text (codes "v"))
unfolding to_lower get text_eq walk Tree.get
read_peer-store_peer_data_example =
    read_peer-store_peer_data (λ s. false) 3 2 false b'P' (codes "eer1") b'1' (codes ".2.3.4")
      (codes "k") [] b'v' [] registry refl

abbrev with_event : CombiLocker
with_event = store_peer_data 3 (codes "peer1") [] (events_key ∷ codes "1" ∷ []) (codes "e") registry
