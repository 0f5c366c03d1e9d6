-- ===== src/Registry.antt =====
-- pkg/registry/registry.go: the peers that report to a registry, their pods and epochs, and what is kept
-- for them. The registry's open locker is a CombiLocker. A pod's current epoch stands in the pod and, by a
-- pointer to it, at the end of its address' epochs: what is written to the one is written to the other.
-- Targets and jobs are types that the caller chooses; scripts and files of jobs are left out. The clock
-- is an argument.
pub mod Promised
pub mod Known
pub mod Epochs
pub mod Lockers
pub mod Pushed
pub mod Reachable
use goto.Prelude.{
  ℕ, Bool, true, false, Option, none, some, List, [], ◌∷◌, ◌++◌, length, ℤ, Text, codes, text_eq,
}
use goto.Prelude.Dict.{Dict, get, put, delete}
use goto.Locker.Combi.{
  CombiLocker, init_peer_locker, deactivate_instance_locker, remove_peer_locker,
}

pub record Peer : Type 0 where
  pub name : Text
  pub address : Text
  pub pod : Text
  pub namespace : Text
  pub node : Text
  pub cluster : Text

pub record PodEpoch : Type 0 where
  pub epoch : ℕ
  pub name : Text
  pub address : Text
  pub node : Text
  pub cluster : Text
  pub first_contact : ℕ
  pub last_contact : ℕ

pub record Pod : Type 0 where
  pub name : Text
  pub address : Text
  pub node : Text
  pub cluster : Text
  pub healthy : Bool
  pub current_epoch : PodEpoch
  pub past_epochs : List PodEpoch
  pub url : Text
  pub offline : Bool

pub record Peers : Type 0 where
  pub name : Text
  pub namespace : Text
  pub pods : Dict Text Pod
  pub pod_epochs : Dict Text (List PodEpoch)

pub record PeerProbes : Type 0 where
  pub readiness_probe : Text
  pub liveness_probe : Text
  pub readiness_status : ℤ
  pub liveness_status : ℤ

pub record Registry (T J : Type 0) : Type 0 where
  pub peers : Dict Text Peers
  pub peer_targets : Dict Text (Dict Text T)
  pub peer_jobs : Dict Text (Dict Text J)
  pub peer_probes : Option PeerProbes
  pub current_locker : CombiLocker

abbrev pub or_no_entries {ℓ} : {A : Type ℓ} → Option (List A) → List A
or_no_entries none = []
or_no_entries (some xs) = xs

abbrev pub or_new_peers : Peer → Option Peers → Peers
or_new_peers p none = record { name = p.name; namespace = p.namespace; pods = []; pod_epochs = [] }
or_new_peers p (some ps) = ps

-- The pod of a peer that reports, with the epochs that its address had.
abbrev pub new_pod : ℕ → Peer → List PodEpoch → Pod
new_pod now p epochs = record {
  name = p.pod;
  address = p.address;
  node = p.node;
  cluster = p.cluster;
  healthy = true;
  current_epoch = record {
    epoch = length epochs;
    name = p.pod;
    address = p.address;
    node = p.node;
    cluster = p.cluster;
    first_contact = now;
    last_contact = now;
  };
  past_epochs = epochs;
  url = codes "http://" ++ p.address;
  offline = false;
}

abbrev pub with_pod : ℕ → Peer → Peers → Peers
with_pod now p ps =
    let epochs = or_no_entries (get p.address ps.pod_epochs) in
    let pod = new_pod now p epochs in
    record ps {
      pods = put p.address pod ps.pods;
      pod_epochs = put p.address (epochs ++ (pod.current_epoch ∷ [])) ps.pod_epochs;
    }

-- m[k] = {} unless there is one
abbrev pub ensure {ℓ} : {A : Type ℓ} → Text → Dict Text (List A) → Dict Text (List A)
ensure k m = elim (get k m) [ none ↦ put k [] m | some xs ↦ m ]

-- The last of a list, overwritten.
abbrev pub set_last : PodEpoch → List PodEpoch → List PodEpoch
set_last e [] = []
set_last e (x ∷ []) = e ∷ []
set_last e (x ∷ y ∷ xs) = x ∷ set_last e (y ∷ xs)

-- The loop over the addresses that have epochs.
abbrev pub forget_past : Text → Option Pod → Peers → Peers
forget_past address none ps = record ps { pod_epochs = delete address ps.pod_epochs }
forget_past address (some pod) ps = record ps {
  pods = put address (record pod { past_epochs = [] }) ps.pods;
  pod_epochs = put address (pod.current_epoch ∷ []) ps.pod_epochs;
}

unfoldable pub forget_all : Dict Text (List PodEpoch) → Peers → Peers
forget_all [] ps = ps
forget_all ((address, epochs) ∷ rest) ps =
    forget_all rest (forget_past address (get address ps.pods) ps)

-- What is written through the pointer to a pod, and to its current epoch.
abbrev pub write_pod : Text → Pod → Peers → Peers
write_pod address pod ps = record ps {
  pods = put address pod ps.pods;
  pod_epochs =
      put address (set_last pod.current_epoch (or_no_entries (get address ps.pod_epochs)))
        ps.pod_epochs;
}

abbrev pub contacted : ℕ → Pod → Pod
contacted now pod = record pod {
  healthy = true;
  offline = false;
  current_epoch = record (pod.current_epoch) { last_contact = now };
}

module _ {T J : Type 0} where
  unfoldable pub unsafe_add_peer : ℕ → Peer → Registry T J → Registry T J
  unsafe_add_peer now p reg = record reg {
    peers = put p.name (with_pod now p (or_new_peers p (get p.name reg.peers))) reg.peers;
    peer_targets = ensure p.name reg.peer_targets;
    peer_jobs = ensure p.name reg.peer_jobs;
  }

  abbrev pub write_locker : (CombiLocker → CombiLocker) → Registry T J → Registry T J
  write_locker f reg = record reg { current_locker = f reg.current_locker }

  unfoldable pub add_peer : ℕ → Peer → Registry T J → Registry T J
  add_peer now p reg = write_locker (init_peer_locker p.name p.address) (unsafe_add_peer now p reg)

  unfoldable pub get_peer : Text → Text → Registry T J → Option Pod
  get_peer name address reg = elim (get name reg.peers) [
    | none ↦ none
    | some ps ↦ get address ps.pods
  ]

  abbrev pub update_pod : Text → Text → (Pod → Pod) → Registry T J → Registry T J
  update_pod name address f reg = elim (get name reg.peers) [
    | none ↦ reg
    | some ps ↦ elim (get address ps.pods) [
      | none ↦ reg
      | some pod ↦ record reg { peers = put name (write_pod address (f pod) ps) reg.peers }
    ]
  ]

  unfoldable pub remember_peer : ℕ → Peer → Registry T J → Registry T J
  remember_peer now p reg = elim (get_peer p.name p.address reg) [
    | none ↦ unsafe_add_peer now p reg
    | some pod ↦ update_pod p.name p.address (contacted now) reg
  ]

  unfoldable pub remove_peer : Text → Text → Registry T J → Registry T J × Bool
  remove_peer name address reg = elim (get name reg.peers) [
    | none ↦ (write_locker (deactivate_instance_locker name address) reg, false)
    | some ps ↦ (
      write_locker (deactivate_instance_locker name address)
          (record reg { peers = put name (record ps { pods = delete address ps.pods }) reg.peers }),
      true,
    )
  ]

  abbrev pub keep_peers : Text → Peers → Dict Text Pod → Registry T J → Registry T J
  keep_peers name ps [] reg =
      write_locker (remove_peer_locker name) (record reg { peers = delete name reg.peers })
  keep_peers name ps (entry ∷ pods) reg = record reg { peers = put name ps reg.peers }

  -- The loop over the peers.
  unfoldable pub clear_epochs_of : Dict Text Peers → Registry T J → Registry T J
  clear_epochs_of [] reg = reg
  clear_epochs_of ((name, ps) ∷ rest) reg = elim (get name reg.peers) [
    | none ↦ clear_epochs_of rest reg
    | some ps ↦
        let cleared = forget_all ps.pod_epochs ps in
        clear_epochs_of rest (keep_peers name cleared cleared.pods reg)
  ]

  unfoldable pub clear_peer_epochs : Registry T J → Registry T J
  clear_peer_epochs reg = clear_epochs_of reg.peers reg
