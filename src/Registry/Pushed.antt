-- ===== src/Registry/Pushed.antt =====
-- What the registry keeps for its peers: targets, jobs and probes (registry.go, addPeerTarget, addPeerJob,
-- clearPeerTargets, clearPeerJobs, setProbe), and the pods that a call goes to (loadPeerPods). Every pod
-- has a client, which is made with it. Whether the pods of a peer have all answered is an argument.
use goto.Prelude.{
  ◌≡◌, ◌∙◌, arith, Bool, Option, none, some, List, [], ◌∷◌, if◌then◌else◌, ℤ, pos, is_positive,
  Text, text_eq, ◌==◌, eq_iff, any,
}
use goto.Prelude.Dict.{Dict, get, put, delete, values, get-put}
use goto.Registry.{Pod, Peers, PeerProbes, Registry, or_no_entries, get_peer}

-- m[peer][key] = x
unfoldable pub put_for :
    {A : Type 0} → Text → A → Text → Dict Text (Dict Text A) → Dict Text (Dict Text A)
put_for key x peer m = put peer (put key x (or_no_entries (get peer m))) m

unfoldable pub put_for_all :
    {A : Type 0} → Text → A → Dict Text Peers → Dict Text (Dict Text A) → Dict Text (Dict Text A)
put_for_all key x [] m = m
put_for_all key x ((peer, ps) ∷ peers) m = put_for_all key x peers (put_for key x peer m)

-- For the peer of that name, or for all peers if it is empty.
abbrev pub push :
    {A : Type 0}
    → Text
    → Text
    → A
    → Dict Text Peers
    → Dict Text (Dict Text A)
    → Dict Text (Dict Text A)
push [] key x peers m = put_for_all key x peers m
push (c ∷ name) key x peers m = put_for key x (c ∷ name) m

abbrev no_probes : PeerProbes
no_probes = record {
  readiness_probe = [];
  liveness_probe = [];
  readiness_status = pos 0;
  liveness_status = pos 0;
}

abbrev or_no_probes : Option PeerProbes → PeerProbes
or_no_probes none = no_probes
or_no_probes (some p) = p

abbrev or_kept : Text → Text → Text
or_kept [] old = old
or_kept (c ∷ uri) old = c ∷ uri

abbrev or_200 : ℤ → ℤ → ℤ
or_200 status old = if is_positive status then status else if is_positive old then old else pos 200

abbrev one_pod : Text → Option Pod → Dict Text (List Pod)
one_pod name none = []
one_pod name (some pod) = (name, pod ∷ []) ∷ []

abbrev pods_of : Text → Option Peers → Dict Text (List Pod)
pods_of name none = []
pods_of name (some ps) = (name, values ps.pods) ∷ []

unfoldable pub all_pods : Dict Text Peers → Dict Text (List Pod)
all_pods [] = []
all_pods ((name, ps) ∷ peers) = (name, values ps.pods) ∷ all_pods peers

module _ {T J : Type 0} where
  -- addPeerTarget; a target and a job have their names beside them.
  unfoldable pub add_peer_target : Text → Text → T → Registry T J → Registry T J
  add_peer_target name target x reg = record reg {
    peer_targets = push name target x reg.peers reg.peer_targets;
  }

  unfoldable pub add_peer_job : Text → Text → J → Registry T J → Registry T J
  add_peer_job name job x reg = record reg { peer_jobs = push name job x reg.peers reg.peer_jobs }

  -- clearPeerTargets and clearPeerJobs, for one peer, once its pods were called.
  unfoldable pub clear_peer_targets : Bool → Text → Registry T J → Registry T J
  clear_peer_targets cleared peer reg =
      if cleared then record reg { peer_targets = delete peer reg.peer_targets } else reg

  unfoldable pub clear_peer_jobs : Bool → Text → Registry T J → Registry T J
  clear_peer_jobs cleared peer reg =
      if cleared then record reg { peer_jobs = delete peer reg.peer_jobs } else reg

  unfoldable pub set_probe : Bool → Text → ℤ → Registry T J → Registry T J
  set_probe is_readiness uri status reg =
      let p = or_no_probes reg.peer_probes in
      record reg {
        peer_probes = some (
            if is_readiness
            then record p {
              readiness_probe = or_kept uri p.readiness_probe;
              readiness_status = or_200 status p.readiness_status;
            }
            else record p {
              liveness_probe = or_kept uri p.liveness_probe;
              liveness_status = or_200 status p.liveness_status;
            });
      }

  unfoldable pub load_peer_pods : Text → Text → Registry T J → Dict Text (List Pod)
  load_peer_pods [] address reg = all_pods reg.peers
  load_peer_pods (c ∷ name) [] reg = pods_of (c ∷ name) (get (c ∷ name) reg.peers)
  load_peer_pods (c ∷ name) (a ∷ address) reg =
      one_pod (c ∷ name) (get_peer (c ∷ name) (a ∷ address) reg)

-- What is kept for a peer under a key.
abbrev pub kept_for : {A : Type 0} → Text → Text → Dict Text (Dict Text A) → Option A
kept_for peer key m = get key (or_no_entries (get peer m))

kept_for-put_for :
    {A : Type 0}
    → (key k : Text) (x : A) (peer p : Text) (m : Dict Text (Dict Text A))
    → kept_for p k (put_for key x peer m)
      ≡ (if peer == p then (if key == k then some x else kept_for p k m) else kept_for p k m)
unfolding put_for
kept_for-put_for key k x peer p m = ground (
  arith,
  get-put peer p (put key x (or_no_entries (get peer m))) m,
  get-put key k x (or_no_entries (get peer m)),
  eq_iff peer p,
)

kept_for-put_for_all :
    {A : Type 0}
    → (key k : Text) (x : A) (p : Text) (peers : Dict Text Peers) (m : Dict Text (Dict Text A))
    → kept_for p k (put_for_all key x peers m) ≡ (
        if key == k
        then (if any (λ e. e.0 == p) peers then some x else kept_for p k m)
        else kept_for p k m)
unfolding put_for_all
kept_for-put_for_all key k x p [] m = ground arith
kept_for-put_for_all key k x p ((peer, ps) ∷ peers) m = ground (
  arith,
  kept_for-put_for_all key k x p peers (put_for key x peer m),
  kept_for-put_for key k x peer p m,
)

-- A target that is added for a peer, or with an empty name for all, is kept for that peer, or for each
-- peer that the registry has; what is kept for other peers or under other names does not change.
kept_for-add_peer_target :
    (T J : Type 0) (name target k p : Text) (x : T) (reg : Registry T J)
    → kept_for p k (add_peer_target name target x reg).peer_targets ≡ (
        if target == k
        then (if (if name == [] then any (λ e. e.0 == p) reg.peers else name == p)
            then some x
            else kept_for p k reg.peer_targets)
        else kept_for p k reg.peer_targets)
unfolding add_peer_target text_eq
kept_for-add_peer_target T J [] target k p x reg =
    kept_for-put_for_all target k x p reg.peers reg.peer_targets
kept_for-add_peer_target T J (c ∷ name) target k p x reg =
    kept_for-put_for target k x (c ∷ name) p reg.peer_targets ∙ ground arith
