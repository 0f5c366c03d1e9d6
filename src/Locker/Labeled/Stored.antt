-- ===== src/Locker/Labeled/Stored.antt =====
-- Data stored under a label (locker.go and registry/lockerApi.go, storeInLabeledLocker).
use goto.Prelude.{
  ℕ, ◌≡◌, refl, ap, ◌∙◌, arith, true, false, ◌&&◌, Option, none, some, List, ◌∷◌, inl, inr,
  if◌then◌else◌, Option-cases, Text, text_eq, ◌==◌, eq_iff, nat_eq,
}
use goto.Prelude.Dict.{get}
use goto.Locker.Tree.{text}
use goto.Locker.Tree.Storing.{data_at, data_at_empty, keys_eq, data_at-store_keys}
use goto.Locker.Combi
use goto.Locker.Labels.{labels_eq, split}
use goto.Locker.Labeled.{
  Node, LabeledLockers, with_node, with_locker, new_labeled_lockers, says_current,
  create_or_get_locker, get_or_create_locker,
}
use goto.Locker.Labeled.Linked.{labeled_data, get-with_node, with_node-rest}
use goto.Locker.Labeled.Entries.{IsSound}
use goto.Locker.Labeled.Created.{create_or_get-Created}
use goto.Locker.Labeled.Handlers.{store_in_labeled_locker, stored_at, done}
use goto.Locker.Labeled.Promised.{Call, run_calls, has_name}
use goto.Locker.Labeled.Refined.{run_calls-IsSound}

-- Two paths have different lockers.
pub entry-inj :
    (p q : List Text) (a : ℕ) (s : LabeledLockers)
    → IsSound s
    → get p s.all_lockers ≡ some a
    → get q s.all_lockers ≡ some a
    → p ≡ q
entry-inj p q a s sound h k =
    let (o, l, c, e) = sound.linked.entry p a h in
    let (o', l', c', e') = sound.linked.entry q a k in
    ground (arith, e, e', sound.linked.has_info o l a c, sound.linked.has_info o' l' a c')

abbrev storing : ℕ → List Text → Text → Node → Node
storing now keys v = with_locker (Combi.store now keys v)

module _ (now : ℕ) (k : Text) (ks : List Text) (v : Text) (ls : List Text) (a : ℕ)
    (s : LabeledLockers) (sound : IsSound s) (at : get ls s.all_lockers ≡ some a) where
  abbrev t : LabeledLockers
  t = with_node a (storing now (k ∷ ks) v) s

  in_there : (n : Node) × (get a s.store ≡ some n)
  in_there =
      let (o, l, c, e) = sound.linked.entry ls a at in
      elim (Option-cases (get a s.store)) [
        | inl x ↦ absurd (ground (arith, x, sound.linked.has_info o l a c))
        | inr y ↦ y
      ]

  data_at-stored :
      (q js : List Text)
      → data_at js (labeled_data q t)
        ≡ (if ls == q && keys_eq (k ∷ ks) js then text v else data_at js (labeled_data q s))
  data_at-stored q js =
      let (n, e) = in_there in
      let rest = (with_node-rest a (storing now (k ∷ ks) v) s).1 in
      elim (Option-cases (get q s.all_lockers)) [
        | inl x ↦ ground (arith, x, rest, at, eq_iff ls q, data_at_empty js)
        | inr (b, x) ↦ ground (
          arith,
          x,
          e,
          rest,
          at,
          eq_iff ls q,
          eq_iff a b,
          entry-inj ls q a s sound at,
          get-with_node a b (storing now (k ∷ ks) v) s,
          data_at-store_keys now 1 k ks js v n.locker.data_locker.locker,
        )
      ]

pub stored_at-some :
    (now : ℕ) (keys : List Text) (v : Text) (a : ℕ) (r : LabeledLockers × Option ℕ)
    → r.1 ≡ some a
    → stored_at now keys v r ≡ (with_node a (storing now keys v) r.0, done)
stored_at-some now keys v a (s, none) h = cc
stored_at-some now keys v a (s, some b) h =
    let e : b ≡ a = cc in ap (λ d. (with_node d (storing now keys v) s, done)) e

get_or_create-other :
    (now : ℕ) (ls : List Text) (s : LabeledLockers)
    → says_current ls ≡ false
    → get_or_create_locker now ls s ≡ create_or_get_locker now ls s
unfolding get_or_create_locker
get_or_create-other now ls s h = rw h refl

module _ (now : ℕ) (c : ℕ) (label k : Text) (ks : List Text) (v : Text) (s : LabeledLockers)
    (sound : IsSound s) (named : has_name (split (c ∷ label)) ≡ true)
    (other : says_current (split (c ∷ label)) ≡ false) where
  -- The data goes to the locker that the label then has.
  store-written :
      (a : ℕ) × (get
          (split (c ∷ label))
          (create_or_get_locker now (split (c ∷ label)) s).0.all_lockers
        ≡ some a)
      × (store_in_labeled_locker now (c ∷ label) (k ∷ ks) v s ≡ (
        with_node a (storing now (k ∷ ks) v) (create_or_get_locker now (split (c ∷ label)) s).0,
        done,
      ))
  unfolding store_in_labeled_locker
  store-written = elim ((create_or_get-Created now (split (c ∷ label)) s sound).reached) [
    | inl (h, _) ↦ absurd (ground (arith, named, h))
    | inr (a, e, at, _) ↦ (
      a,
      at,
      ap (stored_at now (k ∷ ks) v) (get_or_create-other now (split (c ∷ label)) s other)
          ∙ stored_at-some now (k ∷ ks) v a (create_or_get_locker now (split (c ∷ label)) s) e,
    )
  ]

  data_at-store :
      (q js : List Text)
      → data_at js (labeled_data q (store_in_labeled_locker now (c ∷ label) (k ∷ ks) v s).0) ≡ (
          if split (c ∷ label) == q && keys_eq (k ∷ ks) js
          then text v
          else data_at js (labeled_data q s))
  data_at-store q js =
      let (a, at, e) = store-written in
      let created = create_or_get-Created now (split (c ∷ label)) s sound in
      let r = create_or_get_locker now (split (c ∷ label)) s in
      ap (λ x. data_at js (labeled_data q x.0)) e
      ∙ data_at-stored now k ks v (split (c ∷ label)) a r.0 created.outcome.sound at q js
      ∙ ap (λ m. if split (c ∷ label) == q && keys_eq (k ∷ ks) js then text v else data_at js m)
          (created.data_stays q)

-- After any calls, data stored under a label whose first part is not empty and that is not `current` is under its
-- keys in the label's locker, the answer is 200, and all other data of any label stays.
pub data_at-store_in_labeled_locker :
    (start now : ℕ) (cs : List Call) (c : ℕ) (label k : Text) (ks : List Text) (v : Text)
    (q js : List Text)
    → has_name (split (c ∷ label)) ≡ true
    → says_current (split (c ∷ label)) ≡ false
    → ((store_in_labeled_locker now
          (c ∷ label)
          (k ∷ ks)
          v
          (run_calls cs (new_labeled_lockers start))).1
        ≡ done)
      × (data_at js (
            labeled_data q
              (store_in_labeled_locker now
                (c ∷ label)
                (k ∷ ks)
                v
                (run_calls cs (new_labeled_lockers start))).0)
          ≡ (if split (c ∷ label) == q && keys_eq (k ∷ ks) js
              then text v
              else data_at js (labeled_data q (run_calls cs (new_labeled_lockers start)))))
data_at-store_in_labeled_locker start now cs c label k ks v q js named other =
    let s = run_calls cs (new_labeled_lockers start) in
    let sound = run_calls-IsSound start cs in
    (
      ap (λ x. x.1) (store-written now c label k ks v s sound named other).2,
      data_at-store now c label k ks v s sound named other q js,
    )
