-- ===== src/Locker/Labeled/Effects.antt =====
-- What opening, closing and clearing a labeled locker does (locker.go, OpenLocker and ClearLocker).
use goto.Prelude.{
  ℕ, ◌≡◌, refl, ap, ◌∙◌, arith, true, false, ◌&&◌, ◌||◌, not, Option, none, some, List, [],
  if◌then◌else◌, Text, text_eq, nat_eq,
}
use goto.Prelude.Dict.{get, get_empty}
use goto.Locker.Combi
use goto.Locker.Labels.{labels_eq, is_prefix}
use goto.Locker.Labeled.{
  Node, LabeledLockers, with_locker, child_at, default_label, not_current, not_current_at,
  opened_at, create_or_get_locker, open_locker,
}
use goto.Locker.Labeled.Clearing.{
  mark_current, emptied, current_at, closed_at, emptied_at, back_to_default, is_current,
  delete_locker, delete_each, sub_labels,
}
use goto.Locker.Labeled.Entries.{IsSound}
use goto.Locker.Labeled.Closing.{
  close-IsSound, close-entries, empty-IsSound, empty-entries, empty-none,
}
use goto.Locker.Labeled.Opening.{is_some}
use goto.Locker.Labeled.Created.{known, Outcome, create_or_get-Created}
use goto.Locker.Labeled.Same.{Same, Same-refl, Same-IsSound, with_node-Same}
use goto.Locker.Labeled.Promised.{Known, has_name, with_path, without_path, without_below}

pub not_current_at-Same : (o : Option ℕ) (s : LabeledLockers) → Same s (not_current_at o s)
not_current_at-Same none s = Same-refl s
not_current_at-Same (some a) s =
    with_node-Same a (with_locker not_current) s (λ n. refl) (λ n l h. refl)

children-pointed :
    (o : Option ℕ) (s : LabeledLockers) (o' : Option ℕ) (l : Text)
    → child_at o' l (record s { current_locker = o }) ≡ child_at o' l s
unfolding child_at
children-pointed o s none l = refl
children-pointed o s (some b) l = refl

-- Another current locker.
pub pointed-Same : (o : Option ℕ) (s : LabeledLockers) → Same s (record s { current_locker = o })
pointed-Same o s = record {
  children = children-pointed o s;
  infos = λ b. refl;
  entries = refl;
  next_stays = refl;
}

Same-trans : {s t u : LabeledLockers} → Same s t → Same t u → Same s u
Same-trans m n = record {
  children = λ o l. n.children o l ∙ m.children o l;
  infos = λ b. n.infos b ∙ m.infos b;
  entries = n.entries ∙ m.entries;
  next_stays = n.next_stays ∙ m.next_stays;
}

opened_at-Same : (now : ℕ) (s : LabeledLockers) (o : Option ℕ) → Same s (opened_at now (s, o)).0
opened_at-Same now s none = pointed-Same none s
opened_at-Same now s (some a) = Same-trans (pointed-Same (some a) s) (
    with_node-Same a (with_locker (Combi.open_at now)) (record s { current_locker = some a })
      (λ n. ground arith) (λ n l h. refl))

current_at-Same : (o : Option ℕ) (s : LabeledLockers) → Same s (current_at o s).0
current_at-Same none s = pointed-Same none s
current_at-Same (some d) s = Same-trans (pointed-Same (some d) s) (
    with_node-Same d (with_locker mark_current) (record s { current_locker = some d }) (λ n. refl)
      (λ n l h. refl))

-- A call whose writes leave the links.
pub Same-Outcome : {s t : LabeledLockers} {k : Known} → Outcome k s → Same s t → Outcome k t
Same-Outcome {s} {t} out m = record {
  sound = Same-IsSound out.sound m;
  knows = λ p. ap (λ e. is_some (get p e)) m.entries ∙ out.knows p;
}

pub self-Outcome : (s : LabeledLockers) → IsSound s → Outcome (known s) s
self-Outcome s sound = record { sound = sound; knows = λ p. refl }

pub open_locker-Outcome :
    (now : ℕ) (ls : List Text) (s : LabeledLockers)
    → IsSound s
    → Outcome (with_path ls (known s)) (open_locker now ls s).0
unfolding open_locker
open_locker-Outcome now ls s sound =
    let m = not_current_at-Same s.current_locker s in
    let r = create_or_get_locker now ls (not_current_at s.current_locker s) in
    let c =
      create_or_get-Created now ls (not_current_at s.current_locker s) (Same-IsSound sound m) in
    record {
      sound = Same-IsSound c.outcome.sound (opened_at-Same now r.0 r.1);
      knows = λ p.
          ap (λ e. is_some (get p e)) (opened_at-Same now r.0 r.1).entries
          ∙ c.outcome.knows p
          ∙ ap (λ e. is_some (get p e) || has_name ls && (is_prefix p ls && not (is_prefix p [])))
              m.entries;
    }

back_to_default-Same : (t : LabeledLockers) → Same t (back_to_default t).0
unfolding back_to_default
back_to_default-Same t = current_at-Same (get default_label t.lockers) t

pub closed_at-Outcome :
    (q : List Text) (a : ℕ) (s : LabeledLockers)
    → IsSound s
    → get q s.all_lockers ≡ some a
    → Outcome (without_path q (known s)) (closed_at a s).0
closed_at-Outcome q a s sound at =
    let t = delete_locker s.next a s in
    let out : Outcome (without_path q (known s)) t = record {
      sound = close-IsSound q a s sound at;
      knows = λ p. ground (arith, at, close-entries q a s sound at p);
    } in
    elim (is_current a t)
      as (λ b. Outcome (without_path q (known s)) (if b then back_to_default t else (t, false)).0) [
        | true ↦ Same-Outcome out (back_to_default-Same t)
        | false ↦ out
      ]

no_subs :
    (a : ℕ) (n : Node) (l : Text) (t : LabeledLockers)
    → get a t.store ≡ some n
    → child_at (some a) l t ≡ none
    → get l [] ≡ get l n.sub_lockers
unfolding child_at
no_subs a n l t h e = ground (arith, h, e, get_empty {V = ℕ} l)

pub emptied_at-Outcome :
    (now : ℕ) (q : List Text) (a : ℕ) (s : LabeledLockers)
    → IsSound s
    → get q s.all_lockers ≡ some a
    → Outcome (without_below q (known s)) (emptied_at now a s)
emptied_at-Outcome now q a s sound at =
    let t = delete_each (delete_locker s.next) (some a) (sub_labels a s) s in
    let out : Outcome (without_below q (known s)) t = record {
      sound = empty-IsSound q a s sound at;
      knows = λ p. ground (arith, at, empty-entries q a s sound at p);
    } in
    Same-Outcome out (
      with_node-Same a (emptied now) t (λ n. ground arith)
        (λ n l h. no_subs a n l t h (empty-none q a s sound at l)))
