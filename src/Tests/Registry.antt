-- ===== src/Tests/Registry.antt =====
-- The registry's peers at concrete calls.
use goto.Prelude.{
  ℕ, ◌≡◌, refl, true, none, some, List, [], ◌∷◌, codes, text_eq, to_lower, if◌then◌else◌, ◌==◌,
  ◌&&◌,
}
use goto.Prelude.Dict.{get, put}
use goto.Locker.Tree.{empty}
use goto.Registry.{
  Peer, Peers, Registry, or_no_entries, unsafe_add_peer, add_peer, with_pod, new_pod, remember_peer,
  remove_peer,
}
use goto.Locker.Tree.{nil}
use goto.Locker.Tree.Storing.{data_at}
use goto.Registry.Lockers.{registry_data, data_of-removed}
use goto.Registry.Promised.{Call, adds, remembers, removes, clears_epochs, all_promised}
use goto.Registry.Known.{known, run_calls, run_calls-known}
use goto.Registry.Epochs.{last_epoch}
use goto.Registry.Reachable.{current_is_last}

abbrev no_peers : Registry ℕ ℕ
no_peers = record {
  peers = [];
  peer_targets = [];
  peer_jobs = [];
  peer_probes = none;
  current_locker = record {
    label = codes "default";
    peer_lockers = [];
    data_locker = record { locker = empty; active = true };
    current = true;
    first_opened = 0;
    last_opened = 0;
  };
}

abbrev example_peer : Peer
example_peer = record {
  name = codes "p";
  address = codes "1:80";
  pod = codes "pod";
  namespace = [];
  node = [];
  cluster = [];
}

abbrev example_calls : List Call
example_calls =
    adds 1 example_peer
    ∷ removes (codes "p") (codes "1:80")
    ∷ remembers 2 example_peer
    ∷ clears_epochs
    ∷ []

run_calls-known_example :
    known (run_calls example_calls no_peers) ≡ all_promised example_calls (known no_peers)
run_calls-known_example = run_calls-known example_calls no_peers

data_of-removed_example :
    (registry_data (codes "P") [] (
        remember_peer 3 example_peer
          (remove_peer (codes "p") (codes "1:80") (add_peer 1 example_peer no_peers)).0)
      ≡ registry_data (codes "P") [] (add_peer 1 example_peer no_peers))
    × (data_at (codes "k" ∷ []) (
          registry_data (codes "P") [] (
            add_peer 3 example_peer
              (remove_peer (codes "p") (codes "1:80") (add_peer 1 example_peer no_peers)).0))
        ≡ (if to_lower (codes "p") == to_lower (codes "P") && codes "1:80" == []
            then nil
            else data_at
                (codes "k" ∷ [])
                (registry_data (codes "P") [] (add_peer 1 example_peer no_peers))))
data_of-removed_example =
    data_of-removed 3 example_peer 112 49 [] (codes ":80") (codes "P") [] (codes "k" ∷ [])
      (add_peer 1 example_peer no_peers) refl refl

abbrev no_pods : Peers
no_pods = record { name = codes "p"; namespace = []; pods = []; pod_epochs = [] }

current_is_last_example :
    last_epoch (or_no_entries (get (codes "1:80") (with_pod 1 example_peer no_pods).pod_epochs))
    ≡ some ((new_pod 1 example_peer []).current_epoch)
unfolding run_calls add_peer unsafe_add_peer get put text_eq
current_is_last_example =
    current_is_last (adds 1 example_peer ∷ []) no_peers (codes "p") (codes "1:80")
      (with_pod 1 example_peer no_pods) (new_pod 1 example_peer []) refl refl refl
