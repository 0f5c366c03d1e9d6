-- ===== src/Registry/Epochs.antt =====
-- The current epoch of a pod and the epochs of its address (registry.go).
use goto.Prelude.{
  ℕ, ◌≡◌, refl, arith, Option, none, some, List, [], ◌∷◌, ◌++◌, Text, text_eq, eq_iff,
}
use goto.Prelude.Dict.{Dict, get, delete, get-put, get-delete}
use goto.Registry.{
  Peer, PodEpoch, Pod, Peers, or_no_entries, with_pod, new_pod, write_pod, set_last, forget_past,
  forget_all,
}

abbrev pub last_epoch : List PodEpoch → Option PodEpoch
last_epoch [] = none
last_epoch (e ∷ []) = some e
last_epoch (e ∷ f ∷ es) = last_epoch (f ∷ es)

last_epoch-append : (es : List PodEpoch) (e : PodEpoch) → last_epoch (es ++ (e ∷ [])) ≡ some e
last_epoch-append [] e = refl
last_epoch-append (f ∷ []) e = refl
last_epoch-append (f ∷ g ∷ es) e = last_epoch-append (g ∷ es) e

last_epoch-set_last :
    (es : List PodEpoch) (e f : PodEpoch)
    → last_epoch es ≡ some f
    → last_epoch (set_last e es) ≡ some e
last_epoch-set_last [] e f h = cc
last_epoch-set_last (g ∷ []) e f h = refl
last_epoch-set_last (g ∷ k ∷ []) e f h = refl
last_epoch-set_last (g ∷ k ∷ l ∷ es) e f h = last_epoch-set_last (k ∷ l ∷ es) e f h

-- Each pod's current epoch is the last of its address'.
abbrev pub AreCurrent : Peers → Type 0
AreCurrent ps =
    (a : Text) (pod : Pod)
    → get a ps.pods ≡ some pod
    → last_epoch (or_no_entries (get a ps.pod_epochs)) ≡ some (pod.current_epoch)

pub with_pod-AreCurrent :
    (now : ℕ) (p : Peer) (ps : Peers) → AreCurrent ps → AreCurrent (with_pod now p ps)
with_pod-AreCurrent now p ps current a pod e =
    let epochs = or_no_entries (get p.address ps.pod_epochs) in
    let fresh = new_pod now p epochs in
    ground (
      arith,
      get-put p.address a fresh ps.pods,
      get-put p.address a (epochs ++ (fresh.current_epoch ∷ [])) ps.pod_epochs,
      last_epoch-append epochs fresh.current_epoch,
      current a pod,
    )

pub write_pod-AreCurrent :
    (address : Text) (old pod : Pod) (ps : Peers)
    → get address ps.pods ≡ some old
    → AreCurrent ps
    → AreCurrent (write_pod address pod ps)
write_pod-AreCurrent address old pod ps there current a x e =
    let epochs = or_no_entries (get address ps.pod_epochs) in
    ground (
      arith,
      get-put address a pod ps.pods,
      get-put address a (set_last pod.current_epoch epochs) ps.pod_epochs,
      last_epoch-set_last epochs pod.current_epoch old.current_epoch (current address old there),
      current a x,
    )

pub removed-AreCurrent :
    (address : Text) (ps : Peers)
    → AreCurrent ps
    → AreCurrent (record ps { pods = delete address ps.pods })
removed-AreCurrent address ps current a pod e =
    ground (arith, get-delete address a ps.pods, current a pod)

forget_past-AreCurrent :
    (address : Text) (o : Option Pod) (ps : Peers)
    → get address ps.pods ≡ o
    → AreCurrent ps
    → AreCurrent (forget_past address o ps)
forget_past-AreCurrent address none ps there current a pod e =
    ground (arith, there, get-delete address a ps.pod_epochs, eq_iff address a, current a pod e)
forget_past-AreCurrent address (some x) ps there current a pod e = ground (
  arith,
  get-put address a (record x { past_epochs = [] }) ps.pods,
  get-put address a (x.current_epoch ∷ []) ps.pod_epochs,
  current a pod,
)

pub forget_all-AreCurrent :
    (epochs : Dict Text (List PodEpoch)) (ps : Peers)
    → AreCurrent ps
    → AreCurrent (forget_all epochs ps)
unfolding forget_all
forget_all-AreCurrent [] ps current = current
forget_all-AreCurrent ((address, es) ∷ epochs) ps current =
    forget_all-AreCurrent epochs (forget_past address (get address ps.pods) ps)
      (forget_past-AreCurrent address (get address ps.pods) ps refl current)
