-- ===== src/Registry/Known.antt =====
-- The pods that the registry knows are those that its calls promise (registry.go).
use goto.Prelude.{
  ℕ, ◌≡◌, refl, ap, arith, Bool, true, false, Option, none, some, List, [], ◌∷◌, Text, text_eq,
  eq_iff, ◌∙◌, fun_ext, Option-cases, inl, inr,
}
use goto.Prelude.Dict.{Dict, get, delete, get-put, get-delete, get_empty}
use goto.Registry.Promised.{
  Known, with_known, without_known, Call, adds, remembers, removes, clears_epochs, promised,
  all_promised,
}
use goto.Registry.{
  Peer, PodEpoch, Pod, Peers, Registry, write_pod, or_no_entries, or_new_peers, with_pod, new_pod,
  forget_past, forget_all, unsafe_add_peer, add_peer, get_peer, update_pod, contacted,
  remember_peer, remove_peer, keep_peers, clear_epochs_of, clear_peer_epochs,
}

abbrev pub is_some {ℓ} : {A : Type ℓ} → Option A → Bool
is_some none = false
is_some (some a) = true

abbrev has_pod : Text → Option Peers → Bool
has_pod a none = false
has_pod a (some ps) = is_some (get a ps.pods)

-- The loop over the epochs changes no address of a pod.
forget_past-keeps :
    (address a : Text) (ps : Peers)
    → is_some (get a (forget_past address (get address ps.pods) ps).pods) ≡ is_some (get a ps.pods)
forget_past-keeps address a ps = elim (Option-cases (get address ps.pods)) [
  | inl e ↦ ground (arith, e)
  | inr (pod, e) ↦
      ground
        (arith, e, get-put address a (record pod { past_epochs = [] }) ps.pods, eq_iff address a)
]

forget_all-keeps :
    (epochs : Dict Text (List PodEpoch)) (a : Text) (ps : Peers)
    → is_some (get a (forget_all epochs ps).pods) ≡ is_some (get a ps.pods)
unfolding forget_all
forget_all-keeps [] a ps = refl
forget_all-keeps ((address, es) ∷ epochs) a ps =
    forget_all-keeps epochs a (forget_past address (get address ps.pods) ps)
    ∙ forget_past-keeps address a ps

module _ {T J : Type 0} where
  abbrev pub run_call : Call → Registry T J → Registry T J
  run_call (adds now p) reg = add_peer now p reg
  run_call (remembers now p) reg = remember_peer now p reg
  run_call (removes name address) reg = (remove_peer name address reg).0
  run_call clears_epochs reg = clear_peer_epochs reg

  unfoldable pub run_calls : List Call → Registry T J → Registry T J
  run_calls [] reg = reg
  run_calls (c ∷ cs) reg = run_calls cs (run_call c reg)

  abbrev pub known : Registry T J → Known
  known reg n a = is_some (get_peer n a reg)

  known-has_pod : (n a : Text) (reg : Registry T J) → known reg n a ≡ has_pod a (get n reg.peers)
  unfolding get_peer
  known-has_pod n a reg = ground arith

  unsafe_add_peer-known :
      (now : ℕ) (p : Peer) (reg : Registry T J) (n a : Text)
      → known (unsafe_add_peer now p reg) n a ≡ with_known p.name p.address (known reg) n a
  unfolding unsafe_add_peer get_peer
  unsafe_add_peer-known now p reg n a =
      let old = or_new_peers p (get p.name reg.peers) in
      ground (
        arith,
        get-put p.name n (with_pod now p old) reg.peers,
        get-put p.address a (new_pod now p (or_no_entries (get p.address old.pod_epochs))) old.pods,
        eq_iff p.name n,
        get_empty {V = Pod} a,
      )

  add_peer-known :
      (now : ℕ) (p : Peer) (reg : Registry T J) (n a : Text)
      → known (add_peer now p reg) n a ≡ with_known p.name p.address (known reg) n a
  unfolding add_peer get_peer
  add_peer-known now p reg n a = unsafe_add_peer-known now p reg n a

  remove_peer-known :
      (name address : Text) (reg : Registry T J) (n a : Text)
      → known (remove_peer name address reg).0 n a ≡ without_known name address (known reg) n a
  unfolding remove_peer get_peer
  remove_peer-known name address reg n a = elim (Option-cases (get name reg.peers)) [
    | inl e ↦ ground (arith, e, eq_iff name n)
    | inr (ps, e) ↦ ground (
      arith,
      e,
      get-put name n (record ps { pods = delete address ps.pods }) reg.peers,
      get-delete address a ps.pods,
      eq_iff name n,
    )
  ]

  update_pod-known :
      (name address : Text) (f : Pod → Pod) (reg : Registry T J) (n a : Text)
      → known (update_pod name address f reg) n a ≡ known reg n a
  unfolding get_peer
  update_pod-known name address f reg n a = elim (Option-cases (get name reg.peers)) [
    | inl e ↦ ground (arith, e)
    | inr (ps, e) ↦ elim (Option-cases (get address ps.pods)) [
      | inl d ↦ ground (arith, e, d)
      | inr (pod, d) ↦ ground (
        arith,
        e,
        d,
        get-put name n (write_pod address (f pod) ps) reg.peers,
        get-put address a (f pod) ps.pods,
        eq_iff name n,
        eq_iff address a,
      )
    ]
  ]

  keep_peers-known :
      (name : Text) (ps old : Peers) (pods : Dict Text Pod) (reg : Registry T J) (n a : Text)
      → get name reg.peers ≡ some old
      → ps.pods ≡ pods
      → is_some (get a ps.pods) ≡ is_some (get a old.pods)
      → known (keep_peers name ps pods reg) n a ≡ known reg n a
  unfolding get_peer
  keep_peers-known name ps old [] reg n a e p same =
      ground (arith, e, p, same, get-delete name n reg.peers, eq_iff name n, get_empty {V = Pod} a)
  keep_peers-known name ps old (entry ∷ pods) reg n a e p same =
      ground (arith, e, same, get-put name n ps reg.peers, eq_iff name n)

  pub remember_peer-new :
      (now : ℕ) (p : Peer) (reg : Registry T J)
      → get_peer p.name p.address reg ≡ none
      → remember_peer now p reg ≡ unsafe_add_peer now p reg
  unfolding remember_peer
  remember_peer-new now p reg e = ground (arith, e)

  pub remember_peer-there :
      (now : ℕ) (p : Peer) (pod : Pod) (reg : Registry T J)
      → get_peer p.name p.address reg ≡ some pod
      → remember_peer now p reg ≡ update_pod p.name p.address (contacted now) reg
  unfolding remember_peer
  remember_peer-there now p pod reg e = ground (arith, e)

  pub clear_epochs_of-gone :
      (name : Text) (x : Peers) (entries : Dict Text Peers) (reg : Registry T J)
      → get name reg.peers ≡ none
      → clear_epochs_of ((name, x) ∷ entries) reg ≡ clear_epochs_of entries reg
  unfolding clear_epochs_of
  clear_epochs_of-gone name x entries reg e = ground (arith, e)

  pub clear_epochs_of-there :
      (name : Text) (x ps : Peers) (entries : Dict Text Peers) (reg : Registry T J)
      → get name reg.peers ≡ some ps
      → clear_epochs_of ((name, x) ∷ entries) reg
        ≡ clear_epochs_of entries
            (keep_peers name (forget_all ps.pod_epochs ps) (forget_all ps.pod_epochs ps).pods reg)
  unfolding clear_epochs_of
  clear_epochs_of-there name x ps entries reg e = ground (arith, e)

  remember_peer-known :
      (now : ℕ) (p : Peer) (reg : Registry T J) (n a : Text)
      → known (remember_peer now p reg) n a ≡ with_known p.name p.address (known reg) n a
  remember_peer-known now p reg n a = elim (Option-cases (get_peer p.name p.address reg)) [
    | inl e ↦
        ap (λ r. known r n a) (remember_peer-new now p reg e) ∙ unsafe_add_peer-known now p reg n a
    | inr (pod, e) ↦
        ap (λ r. known r n a) (remember_peer-there now p pod reg e)
        ∙ update_pod-known p.name p.address (contacted now) reg n a
        ∙ ground (arith, e, eq_iff p.name n, eq_iff p.address a)
  ]

  clear_epochs_of-known :
      (entries : Dict Text Peers) (reg : Registry T J) (n a : Text)
      → known (clear_epochs_of entries reg) n a ≡ known reg n a
  unfolding clear_epochs_of
  clear_epochs_of-known [] reg n a = refl
  clear_epochs_of-known ((name, x) ∷ entries) reg n a = elim (Option-cases (get name reg.peers)) [
    | inl e ↦
        ap (λ r. known r n a) (clear_epochs_of-gone name x entries reg e)
        ∙ clear_epochs_of-known entries reg n a
    | inr (ps, e) ↦
        let cleared = forget_all ps.pod_epochs ps in
        ap (λ r. known r n a) (clear_epochs_of-there name x ps entries reg e)
        ∙ clear_epochs_of-known entries (keep_peers name cleared cleared.pods reg) n a
        ∙ keep_peers-known name cleared ps cleared.pods reg n a e refl
            (forget_all-keeps ps.pod_epochs a ps)
  ]

  run_call-known :
      (c : Call) (reg : Registry T J) (n a : Text)
      → known (run_call c reg) n a ≡ promised c (known reg) n a
  unfolding clear_peer_epochs
  run_call-known (adds now p) reg n a = add_peer-known now p reg n a
  run_call-known (remembers now p) reg n a = remember_peer-known now p reg n a
  run_call-known (removes name address) reg n a = remove_peer-known name address reg n a
  run_call-known clears_epochs reg n a = clear_epochs_of-known reg.peers reg n a

  -- After any calls, the registry knows the pods that the calls promise: adding and remembering make a
  -- pod known, removing makes it unknown, clearing the epochs changes none.
  pub run_calls-known :
      (cs : List Call) (reg : Registry T J) → known (run_calls cs reg) ≡ all_promised cs (known reg)
  unfolding run_calls all_promised
  run_calls-known [] reg = refl
  run_calls-known (c ∷ cs) reg =
      run_calls-known cs (run_call c reg)
      ∙ ap (all_promised cs) (fun_ext (λ n. fun_ext (λ a. run_call-known c reg n a)))
