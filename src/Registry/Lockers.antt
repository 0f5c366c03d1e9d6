-- ===== src/Registry/Lockers.antt =====
-- What the registry's calls do to the data of its peers in the open locker (registry.go with locker.go).
use goto.Prelude.{
  ℕ, ◌≡◌, refl, ap, ◌∙◌, arith, ◌&&◌, some, List, [], ◌∷◌, if◌then◌else◌, Text, text_eq, ◌==◌,
  eq_iff, to_lower, Option-cases, inl, inr,
}
use goto.Prelude.Dict.{get, get-put}
use goto.Locker.Tree.{nil, Locker}
use goto.Locker.Tree.Storing.{data_at}
use goto.Locker.Data
use goto.Locker.Peer.{PeerLocker}
use goto.Locker.Peer
use goto.Locker.Combi.{CombiLocker, or_new, deactivate_instance_locker}
use goto.Locker.Combi.Peers.{
  peer_data, data_of, peer_data-or_new, data_of-update_peer, data_at-init_peer_locker,
}
use goto.Registry.{
  Pod, Peer, Registry, unsafe_add_peer, add_peer, remember_peer, remove_peer, update_pod, contacted,
  get_peer,
}
use goto.Registry.Known.{remember_peer-new, remember_peer-there}

module _ (address : Text) where
  peer_data-deactivate :
      (address' : Text) (pl : PeerLocker)
      → peer_data address' (some (Peer.update_instance address Data.deactivate pl))
        ≡ peer_data address' (some pl)
  peer_data-deactivate [] pl = refl
  peer_data-deactivate (b ∷ bs) pl = ground (
    arith,
    get-put address (b ∷ bs) (Data.deactivate (Peer.or_new (get address pl.instance_lockers)))
        pl.instance_lockers,
    eq_iff address (b ∷ bs),
  )

  data_of-deactivate :
      (name name' address' : Text) (cl : CombiLocker)
      → data_of name' address' (deactivate_instance_locker name address cl)
        ≡ data_of name' address' cl
  data_of-deactivate name name' address' cl = ground (
    arith,
    data_of-update_peer name name' address' (Peer.update_instance address Data.deactivate) cl,
    peer_data-deactivate address' (or_new (get (to_lower name) cl.peer_lockers)),
    peer_data-or_new address' (get (to_lower name) cl.peer_lockers),
    eq_iff (to_lower name) (to_lower name'),
  )

module _ {T J : Type 0} where
  -- The data of a peer, or of its instance at an address that is not empty.
  abbrev pub registry_data : Text → Text → Registry T J → Locker
  registry_data name address reg = data_of name address reg.current_locker

  remove_peer-locker :
      (name address : Text) (reg : Registry T J)
      → (remove_peer name address reg).0.current_locker
        ≡ deactivate_instance_locker name address reg.current_locker
  unfolding remove_peer
  remove_peer-locker name address reg = ground arith

  update_pod-locker :
      (name address : Text) (f : Pod → Pod) (reg : Registry T J)
      → (update_pod name address f reg).current_locker ≡ reg.current_locker
  update_pod-locker name address f reg = ground arith

  unsafe_add_peer-locker :
      (now : ℕ) (p : Peer) (reg : Registry T J)
      → (unsafe_add_peer now p reg).current_locker ≡ reg.current_locker
  unfolding unsafe_add_peer
  unsafe_add_peer-locker now p reg = refl

  remember_peer-locker :
      (now : ℕ) (p : Peer) (reg : Registry T J)
      → (remember_peer now p reg).current_locker ≡ reg.current_locker
  remember_peer-locker now p reg = elim (Option-cases (get_peer p.name p.address reg)) [
    | inl e ↦
        ap (λ r. r.current_locker) (remember_peer-new now p reg e)
        ∙ unsafe_add_peer-locker now p reg
    | inr (pod, e) ↦
        ap (λ r. r.current_locker) (remember_peer-there now p pod reg e)
        ∙ update_pod-locker p.name p.address (contacted now) reg
  ]

  remove_peer-data :
      (name address n a : Text) (reg : Registry T J)
      → registry_data n a (remove_peer name address reg).0 ≡ registry_data n a reg
  remove_peer-data name address n a reg =
      ap (data_of n a) (remove_peer-locker name address reg)
      ∙ data_of-deactivate address name n a reg.current_locker

  -- A pod that is removed leaves all data where it is, also its own, and so it does when it is then heard
  -- of again; when it is added instead, under a name and an address that are not empty, the data of its
  -- instance is gone, and no other.
  pub data_of-removed :
      (now : ℕ) (p : Peer) (c d : ℕ) (name address n a : Text) (js : List Text) (reg : Registry T J)
      → p.name ≡ c ∷ name
      → p.address ≡ d ∷ address
      → (registry_data n a (remember_peer now p (remove_peer p.name p.address reg).0)
          ≡ registry_data n a reg)
        × (data_at js (registry_data n a (add_peer now p (remove_peer p.name p.address reg).0)) ≡ (
            if to_lower p.name == to_lower n && p.address == a
            then nil
            else data_at js (registry_data n a reg)))
  unfolding add_peer
  data_of-removed now p c d name address n a js reg e f =
      let gone = (remove_peer p.name p.address reg).0 in
      (
        ap (data_of n a) (remember_peer-locker now p gone)
            ∙ remove_peer-data p.name p.address n a reg,
        ground (
          arith,
          e,
          f,
          unsafe_add_peer-locker now p gone,
          data_at-init_peer_locker c name d address n a js gone.current_locker,
          remove_peer-data p.name p.address n a reg,
        ),
      )
