-- ===== src/Locker/Labeled/Deleting.antt =====
-- A locker deleted with all below it (locker.go, deleteLocker).
use goto.Prelude.{
  ℕ, zero, suc, ◌+◌, ◌≡◌, ◌≤◌, ap₂, subst, ◌∙◌, arith, Bool, true, ◌&&◌, ◌||◌, Option, none, some,
  [], ◌∷◌, ◌++◌, inl, inr, Bool-cases, Option-cases, Text, text_eq, ◌==◌, eq_iff, eq_refl, nat_beq,
  nat_eq,
}
use goto.Prelude.Dict.{get}
use goto.Locker.Labels.{is_prefix, is_prefix_refl}
use goto.Locker.Labeled.{Node, LabeledLockers, child_at, path_of}
use goto.Locker.Labeled.Clearing.{unlink, delete_each, delete_locker, sub_labels}
use goto.Locker.Labeled.Linked.{
  IsLinked, IsRooted, own_data-cut_link, same_parent, same_parent_iff, same_parent_refl,
  cut_link-rest,
}
use goto.Locker.Labeled.Unlinking.{
  child_at-unlink, child_at-unlink-some, info-unlink, path_of-unlink, unlink-IsLinked,
  unlink-IsRooted,
}
use goto.Locker.Labeled.Cutting.{Within, Within-trans, child_at-Within-none}
use goto.Locker.Labeled.Emptying.{any-sub_labels, Deleted, Deletes, Emptied, delete_each-Emptied}

pub linked_node :
    (o : Option ℕ) (l : Text) (b : ℕ) (s : LabeledLockers)
    → IsLinked s
    → child_at o l s ≡ some b
    → (n : Node) × (get b s.store ≡ some n) × (n.parent ≡ o) × (n.locker.label ≡ l)
linked_node o l b s lk h = elim (Option-cases (get b s.store)) [
  | inl x ↦ absurd (ground (arith, x, lk.has_info o l b h))
  | inr (n, x) ↦
      (n, x, ground (arith, x, lk.has_info o l b h), ground (arith, x, lk.has_info o l b h))
]

Within-unlink :
    (b : ℕ) (n : Node) (s : LabeledLockers)
    → Within (path_of n.parent s ++ n.locker.label ∷ []) s (unlink n s)
Within-unlink b n s = record {
  links = λ o l. elim (Bool-cases (same_parent n.parent o && n.locker.label == l)) [
    | inl same ↦ inr (
        ground (
          arith,
          same,
          child_at-unlink b n s o l,
          same_parent_iff n.parent o,
          eq_iff n.locker.label l,
          is_prefix_refl (path_of o s ++ l ∷ []),
        ))
    | inr other ↦ inl (ground (arith, other, child_at-unlink b n s o l))
  ];
  infos = info-unlink b n s;
  datas = λ a. own_data-cut_link a n.parent n.locker.label s;
  next_stays = (cut_link-rest n.parent n.locker.label s).1;
  current_stays = (cut_link-rest n.parent n.locker.label s).2;
}

module _ (fuel b : ℕ) (n : Node) (e : ℕ → Bool) (s : LabeledLockers) where
  IsRooted-without :
      (t : LabeledLockers)
      → IsRooted (λ x. e x || nat_beq b x) t
      → ((l : Text) → child_at (some b) l t ≡ none)
      → IsRooted e t
  IsRooted-without t r h x l c k m = elim (Bool-cases (nat_beq b x)) [
    | inl same ↦ absurd (ground (arith, same, h l))
    | inr other ↦ r x l c k (ground (arith, other, m))
  ]

  no_children :
      (t : LabeledLockers)
      → Emptied (λ x. e x || nat_beq b x) b (sub_labels b s) (unlink n s) t
      → (l : Text) → child_at (some b) l t ≡ none
  no_children t em l = elim (Option-cases (child_at (some b) l (unlink n s))) [
    | inl x ↦ child_at-Within-none (some b) l em.within x
    | inr (c, x) ↦ em.gone l (any-sub_labels b l c s (child_at-unlink-some b n s (some b) l c x).0)
  ]

  path_begins :
      get b s.store ≡ some n
      → IsLinked s
      → child_at n.parent n.locker.label s ≡ some b
      → is_prefix (path_of n.parent s ++ n.locker.label ∷ []) (path_of (some b) (unlink n s)) ≡ true
  path_begins here lk at = ground (
    arith,
    path_of-unlink b n s (some b),
    lk.has_info n.parent n.locker.label b at,
    is_prefix_refl (path_of n.parent s ++ n.locker.label ∷ []),
  )

  delete_locker_found :
      Deletes fuel (delete_locker fuel)
      → get b s.store ≡ some n
      → IsLinked s
      → IsRooted e s
      → child_at n.parent n.locker.label s ≡ some b
      → s.next ≤ b + suc fuel
      → Deleted e n.parent n.locker.label s
          (delete_each (delete_locker fuel) (some b) (sub_labels b s) (unlink n s))
  delete_locker_found ih here lk r at k =
      let lk' = unlink-IsLinked b n s lk here at in
      let em =
        delete_each-Emptied fuel (delete_locker fuel) ih (λ x. e x || nat_beq b x) b
          (sub_labels b s) (unlink n s) lk' (unlink-IsRooted b n s lk here at e r)
          (ground (arith, cut_link-rest n.parent n.locker.label s)) in
      record {
        linked = em.linked;
        rooted =
            IsRooted-without
              (delete_each (delete_locker fuel) (some b) (sub_labels b s) (unlink n s)) em.rooted
              (no_children (delete_each (delete_locker fuel) (some b) (sub_labels b s) (unlink n s))
                em);
        within =
            Within-trans (path_of n.parent s ++ n.locker.label ∷ []) (path_of (some b) (unlink n s))
              (Within-unlink b n s) em.within (path_begins here lk at);
        gone = child_at-Within-none n.parent n.locker.label em.within (
            ground (
              arith,
              child_at-unlink b n s n.parent n.locker.label,
              same_parent_refl n.parent,
              eq_refl n.locker.label,
            ));
      }

pub delete_locker-Deletes : (fuel : ℕ) → Deletes fuel (delete_locker fuel)
unfolding delete_locker
delete_locker-Deletes zero b e s o l lk r h k =
    absurd (ground (arith, lk.fresh b, lk.has_info o l b h))
delete_locker-Deletes (suc fuel) b e s o l lk r h k =
    let (n, x, eo, el) = linked_node o l b s lk h in
    let t = delete_each (delete_locker fuel) (some b) (sub_labels b s) (unlink n s) in
    let h' : child_at n.parent n.locker.label s ≡ some b = ap₂ (λ q m. child_at q m s) eo el ∙ h in
    rw (x, delete_locker)
      (subst (λ q. Deleted e q l s t) eo
        (subst (λ m. Deleted e n.parent m s t) el
          (delete_locker_found fuel b n e s (delete_locker-Deletes fuel) x lk r h' k)))
