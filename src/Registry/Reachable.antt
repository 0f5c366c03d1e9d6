-- ===== src/Registry/Reachable.antt =====
-- The states of the registry that its calls lead to (registry.go).
use goto.Prelude.{
  ℕ, ◌≡◌, refl, sym, subst, arith, Option, none, some, List, [], ◌∷◌, Text, text_eq, ◌==◌,
  Option-cases, Bool-cases, inl, inr,
}
use goto.Prelude.Dict.{Dict, get, put, delete, get-put, get-delete, get_empty}
use goto.Registry.{
  Peer, Pod, Peers, Registry, or_no_entries, or_new_peers, with_pod, write_pod, forget_all,
  unsafe_add_peer, add_peer, get_peer, update_pod, contacted, remove_peer, keep_peers,
  clear_epochs_of, clear_peer_epochs,
}
use goto.Registry.Promised.{Call, adds, remembers, removes, clears_epochs}
use goto.Registry.Known.{
  run_call, run_calls, remember_peer-new, remember_peer-there, clear_epochs_of-gone,
  clear_epochs_of-there,
}
use mathlib.Core.Option.{some-injective}
use goto.Registry.Epochs.{
  AreCurrent, last_epoch, with_pod-AreCurrent, write_pod-AreCurrent, removed-AreCurrent,
  forget_all-AreCurrent,
}

or_new_peers-AreCurrent :
    (p : Peer) (o : Option Peers)
    → ((ps : Peers) → o ≡ some ps → AreCurrent ps)
    → AreCurrent (or_new_peers p o)
or_new_peers-AreCurrent p none current = λ a pod e. ground (arith, get_empty {V = Pod} a, e)
or_new_peers-AreCurrent p (some ps) current = current ps refl

none_there : (m : Text) (x : Peers) → get m [] ≡ some x → ⊥
none_there m x h = ground (arith, h, get_empty {V = Peers} m)

module _ {T J : Type 0} where
  abbrev pub AllCurrent : Registry T J → Type 0
  AllCurrent reg = (n : Text) (ps : Peers) → get n reg.peers ≡ some ps → AreCurrent ps

  same-AllCurrent :
      (reg reg' : Registry T J) → reg'.peers ≡ reg.peers → AllCurrent reg → AllCurrent reg'
  same-AllCurrent reg reg' same current n x e = current n x (ground (arith, same, e))

  put-AllCurrent :
      (name : Text) (ps : Peers) (reg reg' : Registry T J)
      → reg'.peers ≡ put name ps reg.peers
      → AreCurrent ps
      → AllCurrent reg
      → AllCurrent reg'
  put-AllCurrent name ps reg reg' same here current n x e = elim (Bool-cases (name == n)) [
    | inl b ↦
        subst AreCurrent
          (some-injective ps x (ground (arith, same, b, e, get-put name n ps reg.peers))) here
    | inr b ↦ current n x (ground (arith, same, b, e, get-put name n ps reg.peers))
  ]

  unsafe_add_peer-AllCurrent :
      (now : ℕ) (p : Peer) (reg : Registry T J)
      → AllCurrent reg
      → AllCurrent (unsafe_add_peer now p reg)
  unfolding unsafe_add_peer
  unsafe_add_peer-AllCurrent now p reg current =
      put-AllCurrent p.name (with_pod now p (or_new_peers p (get p.name reg.peers))) reg
        (unsafe_add_peer now p reg) refl
        (with_pod-AreCurrent now p (or_new_peers p (get p.name reg.peers))
          (or_new_peers-AreCurrent p (get p.name reg.peers) (current p.name)))
        current

  remove_peer-AllCurrent :
      (name address : Text) (reg : Registry T J)
      → AllCurrent reg
      → AllCurrent (remove_peer name address reg).0
  unfolding remove_peer
  remove_peer-AllCurrent name address reg current = elim (Option-cases (get name reg.peers)) [
    | inl e ↦ same-AllCurrent reg (remove_peer name address reg).0 (ground (arith, e)) current
    | inr (ps, e) ↦
        put-AllCurrent name (record ps { pods = delete address ps.pods }) reg
          (remove_peer name address reg).0 (ground (arith, e))
          (removed-AreCurrent address ps (current name ps e)) current
  ]

  update_pod-AllCurrent :
      (name address : Text) (f : Pod → Pod) (reg : Registry T J)
      → AllCurrent reg
      → AllCurrent (update_pod name address f reg)
  update_pod-AllCurrent name address f reg current = elim (Option-cases (get name reg.peers)) [
    | inl e ↦ same-AllCurrent reg (update_pod name address f reg) (ground (arith, e)) current
    | inr (ps, e) ↦ elim (Option-cases (get address ps.pods)) [
      | inl d ↦ same-AllCurrent reg (update_pod name address f reg) (ground (arith, e, d)) current
      | inr (pod, d) ↦
          put-AllCurrent name (write_pod address (f pod) ps) reg (update_pod name address f reg)
            (ground (arith, e, d))
            (write_pod-AreCurrent address pod (f pod) ps d (current name ps e)) current
    ]
  ]

  keep_peers-AllCurrent :
      (name : Text) (ps : Peers) (pods : Dict Text Pod) (reg : Registry T J)
      → AreCurrent ps
      → AllCurrent reg
      → AllCurrent (keep_peers name ps pods reg)
  keep_peers-AllCurrent name ps [] reg here current =
      λ n x e. current n x (ground (arith, e, get-delete name n reg.peers))
  keep_peers-AllCurrent name ps (entry ∷ pods) reg here current =
      put-AllCurrent name ps reg (keep_peers name ps (entry ∷ pods) reg) refl here current

  clear_epochs_of-AllCurrent :
      (entries : Dict Text Peers) (reg : Registry T J)
      → AllCurrent reg
      → AllCurrent (clear_epochs_of entries reg)
  unfolding clear_epochs_of
  clear_epochs_of-AllCurrent [] reg current = current
  clear_epochs_of-AllCurrent ((name, x) ∷ entries) reg current =
      elim (Option-cases (get name reg.peers)) [
        | inl e ↦
            subst AllCurrent (sym (clear_epochs_of-gone name x entries reg e))
              (clear_epochs_of-AllCurrent entries reg current)
        | inr (ps, e) ↦
            let cleared = forget_all ps.pod_epochs ps in
            subst AllCurrent (sym (clear_epochs_of-there name x ps entries reg e)) (
              clear_epochs_of-AllCurrent entries (keep_peers name cleared cleared.pods reg) (
                keep_peers-AllCurrent name cleared cleared.pods reg
                  (forget_all-AreCurrent ps.pod_epochs ps (current name ps e)) current))
      ]

  run_call-AllCurrent :
      (c : Call) (reg : Registry T J) → AllCurrent reg → AllCurrent (run_call c reg)
  unfolding clear_peer_epochs add_peer
  run_call-AllCurrent (adds now p) reg current = unsafe_add_peer-AllCurrent now p reg current
  run_call-AllCurrent (remembers now p) reg current =
      elim (Option-cases (get_peer p.name p.address reg)) [
        | inl e ↦
            subst AllCurrent (sym (remember_peer-new now p reg e))
              (unsafe_add_peer-AllCurrent now p reg current)
        | inr (pod, e) ↦
            subst AllCurrent (sym (remember_peer-there now p pod reg e))
              (update_pod-AllCurrent p.name p.address (contacted now) reg current)
      ]
  run_call-AllCurrent (removes name address) reg current =
      remove_peer-AllCurrent name address reg current
  run_call-AllCurrent clears_epochs reg current = clear_epochs_of-AllCurrent reg.peers reg current

  run_calls-AllCurrent :
      (cs : List Call) (reg : Registry T J) → AllCurrent reg → AllCurrent (run_calls cs reg)
  unfolding run_calls
  run_calls-AllCurrent [] reg current = current
  run_calls-AllCurrent (c ∷ cs) reg current =
      run_calls-AllCurrent cs (run_call c reg) (run_call-AllCurrent c reg current)

  -- After any calls on a registry without peers, the current epoch of a pod is the last of the epochs that
  -- are kept for its name and address.
  pub current_is_last :
      (cs : List Call) (reg : Registry T J) (n a : Text) (ps : Peers) (pod : Pod)
      → reg.peers ≡ []
      → get n (run_calls cs reg).peers ≡ some ps
      → get a ps.pods ≡ some pod
      → last_epoch (or_no_entries (get a ps.pod_epochs)) ≡ some (pod.current_epoch)
  current_is_last cs reg n a ps pod fresh there e =
      run_calls-AllCurrent cs reg (λ m x h. absurd (none_there m x (ground (arith, h, fresh)))) n ps
        there a pod e
