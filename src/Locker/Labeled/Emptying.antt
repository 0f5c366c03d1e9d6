-- ===== src/Locker/Labeled/Emptying.antt =====
-- The loop over the lockers below a locker (locker.go, deleteLocker and ClearLocker).
use goto.Prelude.{
  ℕ, suc, ◌+◌, ◌≡◌, ◌≤◌, ap, sym, ◌∙◌, arith, Bool, true, Option, none, some, List, [], ◌∷◌, ◌++◌,
  inl, inr, any, Bool-cases, Option-cases, Text, text_eq, ◌==◌, eq_iff, nat_eq,
}
use goto.Prelude.Dict.{Dict, get}
use goto.Locker.Labels.{is_prefix, is_prefix_refl, is_prefix-append, is_prefix-longer}
use goto.Locker.Labeled.{LabeledLockers, child_at, path_of, subs_of_node}
use goto.Locker.Labeled.Clearing.{delete_each, sub_labels, labels_in}
use goto.Locker.Labeled.Linked.{IsLinked, IsRooted}
use goto.Locker.Labeled.Cutting.{
  Within, Within-refl, path_of-Within, Within-trans, Within-weaken, child_at-Within-none,
}

any-labels_in :
    (l : Text) (b : ℕ) (m : Dict Text ℕ) → get l m ≡ some b → any (λ k. k == l) (labels_in m) ≡ true
unfolding get
any-labels_in l b [] h = cc
any-labels_in l b ((k, c) ∷ m) h = ground (arith, any-labels_in l b m)

pub any-sub_labels :
    (a : ℕ) (l : Text) (b : ℕ) (s : LabeledLockers)
    → child_at (some a) l s ≡ some b
    → any (λ k. k == l) (sub_labels a s) ≡ true
unfolding child_at
any-sub_labels a l b s h = any-labels_in l b (subs_of_node (get a s.store)) h

-- What a deletion of the locker at a link does, or leaves undone for some parents.
pub record Deleted (e : ℕ → Bool) (o : Option ℕ) (l : Text) (s t : LabeledLockers) : Type 0 where
  pub linked : IsLinked t
  pub rooted : IsRooted e t
  pub within : Within (path_of o s ++ l ∷ []) s t
  pub gone : child_at o l t ≡ none

abbrev pub Deletes : ℕ → (ℕ → LabeledLockers → LabeledLockers) → Type 0
Deletes fuel g =
    (b : ℕ) (e : ℕ → Bool) (s : LabeledLockers) (o : Option ℕ) (l : Text)
    → IsLinked s
    → IsRooted e s
    → child_at o l s ≡ some b
    → s.next ≤ b + fuel
    → Deleted e o l s (g b s)

-- The same for a loop over labels.
pub record Emptied (e : ℕ → Bool) (a : ℕ) (ls : List Text) (s t : LabeledLockers) : Type 0 where
  pub linked : IsLinked t
  pub rooted : IsRooted e t
  pub within : Within (path_of (some a) s) s t
  pub kept : (o : Option ℕ) (l : Text) → child_at o l s ≡ some a → child_at o l t ≡ some a
  pub gone : (l : Text) → any (λ k. k == l) ls ≡ true → child_at (some a) l t ≡ none

module _ (fuel : ℕ) (g : ℕ → LabeledLockers → LabeledLockers) (ih : Deletes fuel g) (e : ℕ → Bool)
    (a : ℕ) where
  gone-cons :
      (l : Text) (ls : List Text) (t : LabeledLockers)
      → child_at (some a) l t ≡ none
      → ((k : Text) → any (λ j. j == k) ls ≡ true → child_at (some a) k t ≡ none)
      → (k : Text) → any (λ j. j == k) (l ∷ ls) ≡ true
      → child_at (some a) k t ≡ none
  gone-cons l ls t h rest k m = elim (Bool-cases (l == k)) [
    | inl same ↦ ap (λ j. child_at (some a) j t) (sym ((eq_iff l k).0 same)) ∙ h
    | inr other ↦ rest k (ground (arith, m, other))
  ]

  -- A deletion below a locker leaves the link to it.
  link_kept :
      (l : Text) (s t : LabeledLockers)
      → IsLinked s
      → Within (path_of (some a) s ++ l ∷ []) s t
      → (o : Option ℕ) (k : Text) → child_at o k s ≡ some a
      → child_at o k t ≡ some a
  link_kept l s t lk w o k m =
      ground (arith, w.links o k, lk.has_info o k a m, is_prefix-longer (path_of (some a) s) l)

  pub delete_each-Emptied :
      (ls : List Text) (s : LabeledLockers)
      → IsLinked s
      → IsRooted e s
      → s.next ≤ suc a + fuel
      → Emptied e a ls s (delete_each g (some a) ls s)
  unfolding delete_each
  delete_each-Emptied [] s lk r h = record {
    linked = lk;
    rooted = r;
    within = Within-refl (path_of (some a) s) s;
    kept = λ o l k. k;
    gone = λ l k. cc;
  }
  delete_each-Emptied (l ∷ ls) s lk r h = elim (Option-cases (child_at (some a) l s)) [
    | inl x ↦
        let em = delete_each-Emptied ls s lk r h in
        rw x (record {
          linked = em.linked;
          rooted = em.rooted;
          within = em.within;
          kept = em.kept;
          gone =
              gone-cons l ls (delete_each g (some a) ls s)
                (child_at-Within-none (some a) l em.within x) em.gone;
        })
    | inr (b, x) ↦
        let d = ih b e s (some a) l lk r x (omega (arith, lk.below a l b x)) in
        let em =
          delete_each-Emptied ls (g b s) d.linked d.rooted (ground (arith, d.within.next_stays)) in
        rw x (record {
          linked = em.linked;
          rooted = em.rooted;
          within =
              Within-trans (path_of (some a) s) (path_of (some a) (g b s))
                (Within-weaken (path_of (some a) s) (path_of (some a) s ++ l ∷ []) d.within
                  (is_prefix-append (path_of (some a) s) (l ∷ [])))
                em.within
                (ap (is_prefix (path_of (some a) s)) (path_of-Within (some a) d.within)
                  ∙ is_prefix_refl (path_of (some a) s));
          kept = λ o k m. em.kept o k (link_kept l s (g b s) lk d.within o k m);
          gone =
              gone-cons l ls (delete_each g (some a) ls (g b s))
                (child_at-Within-none (some a) l em.within d.gone) em.gone;
        })
  ]
