-- ===== src/Locker/Labeled/Same.antt =====
-- Writes that leave the links of the labeled lockers as they are (locker.go, LabeledLockers).
use goto.Prelude.{
  ℕ, ◌≡◌, refl, ap, sym, ◌∙◌, arith, Option, none, some, inl, inr, [], ◌∷◌, ◌++◌, Option-cases,
  Text, text_eq, eq_iff, nat_eq,
}
use goto.Prelude.Dict.{get}
use goto.Locker.Labels.{labels_eq}
use goto.Locker.Labeled.{Node, LabeledLockers, with_node, child_at, path_of}
use goto.Locker.Labeled.Linked.{
  info, info_of, path_of-info, get-with_node, with_node-rest, info-with_node,
}
use goto.Locker.Labeled.Entries.{IsSound}

pub record Same (s t : LabeledLockers) : Type 0 where
  pub children : (o : Option ℕ) (l : Text) → child_at o l t ≡ child_at o l s
  pub infos : (b : ℕ) → info b t ≡ info b s
  pub entries : t.all_lockers ≡ s.all_lockers
  pub next_stays : t.next ≡ s.next

pub Same-refl : (s : LabeledLockers) → Same s s
Same-refl s = record {
  children = λ o l. refl;
  infos = λ b. refl;
  entries = refl;
  next_stays = refl;
}

pub Same-IsSound : {s t : LabeledLockers} → IsSound s → Same s t → IsSound t
Same-IsSound {s} {t} sound m =
    let lk = sound.linked in
    let paths : (o : Option ℕ) → path_of o t ≡ path_of o s = λ o. path_of-info o s t m.infos in
    let back : (o : Option ℕ) (l : Text) (b : ℕ)
        → child_at o l t ≡ some b
        → child_at o l s ≡ some b =
      λ o l b h. sym (m.children o l) ∙ h in
    record {
      linked = record {
        fresh = λ a h. ground (arith, lk.fresh a, m.infos a, m.next_stays);
        has_info = λ o l b h. ground (arith, m.infos b, paths o, lk.has_info o l b (back o l b h));
        below = λ a l b h. lk.below a l b (back (some a) l b h);
        has_entry =
            λ o l b h. ground (arith, m.entries, paths o, lk.has_entry o l b (back o l b h));
        entry = λ p b h.
            let (o, l, c, e) = lk.entry p b (sym (ap (get p) m.entries) ∙ h) in
            (o, l, m.children o l ∙ c, e ∙ ap (λ q. q ++ l ∷ []) (sym (paths o)));
      };
      rooted = λ a l b h e.
          let (o, k, c) = sound.rooted a l b (back (some a) l b h) e in (o, k, m.children o k ∙ c);
    }

pub with_node-Same :
    (a : ℕ) (f : Node → Node) (s : LabeledLockers)
    → ((n : Node) → info_of (f n) ≡ info_of n)
    → ((n : Node) (l : Text)
        → get a s.store ≡ some n
        → get l (f n).sub_lockers ≡ get l n.sub_lockers)
    → Same s (with_node a f s)
unfolding child_at
with_node-Same a f s h k = record {
  children = children-with_node;
  infos = λ b. info-with_node a b f s h;
  entries = (with_node-rest a f s).1;
  next_stays = (with_node-rest a f s).2;
}
  where
    children-with_node : (o : Option ℕ) (l : Text) → child_at o l (with_node a f s) ≡ child_at o l s
    children-with_node none l = ap (get l) (with_node-rest a f s).0
    children-with_node (some b) l = elim (Option-cases (get a s.store)) [
      | inl e ↦ ground (arith, e, get-with_node a b f s, eq_iff a b)
      | inr (n, e) ↦ ground (arith, e, get-with_node a b f s, eq_iff a b, k n l e)
    ]
