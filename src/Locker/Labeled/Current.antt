-- ===== src/Locker/Labeled/Current.antt =====
-- The current locker (locker.go, OpenLocker and ClearLocker, with registry/lockerApi.go).
use goto.Prelude.{
  ℕ, ◌≡◌, ◌≢◌, refl, ap, sym, ◌∙◌, arith, Bool, true, false, Option, none, some, List, ◌∷◌, inl,
  inr, if◌then◌else◌, Bool-cases, Text, text_eq, nat_eq, nat_beq, nat_beq_iff, equal_fold,
}
use goto.Prelude.Dict.{get}
use goto.Locker.Combi
use goto.Locker.Labels.{labels_eq, is_prefix, split}
use goto.Locker.Labeled.{
  LabeledLockers, with_locker, new_labeled_lockers, default_label, create_or_get_locker,
  open_locker, opened_at, not_current_at,
}
use goto.Locker.Labeled.Clearing.{clear_locker, closed_at, clear_at, delete_locker, is_current}
use goto.Locker.Labeled.Entries.{entry-Within}
use goto.Locker.Labeled.Closing.{close-IsSound, close-entries, close-Within}
use goto.Locker.Labeled.Linked.{with_node-rest}
use goto.Locker.Labeled.Created.{create_or_get-Created}
use goto.Locker.Labeled.Effects.{not_current_at-Same}
use goto.Locker.Labeled.Same.{Same-IsSound}
use goto.Locker.Labeled.Handlers.{
  open_labeled_locker, close_or_clear_labeled_locker, replied, done, panicked,
}
use goto.Locker.Labeled.Promised.{Call, run_calls, has_name}
use goto.Locker.Labeled.Refined.{run_calls-IsSound}
use goto.Locker.Labeled.Stored.{entry-inj}

opened_at-none :
    (now : ℕ) (r : LabeledLockers × Option ℕ)
    → r.1 ≡ none
    → ((opened_at now r).1 ≡ true) × ((opened_at now r).0.current_locker ≡ none)
opened_at-none now (s, none) h = (refl, refl)
opened_at-none now (s, some a) h = cc

opened_at-some :
    (now a : ℕ) (r : LabeledLockers × Option ℕ)
    → r.1 ≡ some a
    → ((opened_at now r).1 ≡ false)
      × ((opened_at now r).0.current_locker ≡ some a)
      × ((opened_at now r).0.all_lockers ≡ r.0.all_lockers)
opened_at-some now a (s, none) h = cc
opened_at-some now a (s, some b) h =
    let rest =
      with_node-rest b (with_locker (Combi.open_at now)) (record s { current_locker = some b }) in
    (refl, rest.3 ∙ h, rest.1)

pub replied-reply : (r : LabeledLockers × Bool) → (replied r).1 ≡ (if r.1 then panicked else done)
replied-reply (s, true) = refl
replied-reply (s, false) = refl

replied-state : (r : LabeledLockers × Bool) → (replied r).0 ≡ r.0
replied-state (s, true) = refl
replied-state (s, false) = refl

-- After any calls, opening a label that is not empty makes the label's locker, which is there, the current one,
-- unless the label begins with a comma: then the request panics, and no locker is current.
pub open_labeled_locker-current :
    (start now : ℕ) (cs : List Call) (c : ℕ) (label : Text)
    → ((open_labeled_locker now (c ∷ label) (run_calls cs (new_labeled_lockers start))).1
        ≡ (if has_name (split (c ∷ label)) then done else panicked))
      × ((open_labeled_locker now
            (c ∷ label)
            (run_calls cs (new_labeled_lockers start))).0.current_locker
          ≡ (if has_name (split (c ∷ label))
              then get
                  (split (c ∷ label))
                  (open_labeled_locker now
                    (c ∷ label)
                    (run_calls cs (new_labeled_lockers start))).0.all_lockers
              else none))
      × ((open_labeled_locker now
              (c ∷ label)
              (run_calls cs (new_labeled_lockers start))).0.current_locker
            ≡ none
          → has_name (split (c ∷ label)) ≡ false)
unfolding open_labeled_locker open_locker
open_labeled_locker-current start now cs c label =
    let s = run_calls cs (new_labeled_lockers start) in
    let s' = not_current_at s.current_locker s in
    let r = create_or_get_locker now (split (c ∷ label)) s' in
    let sound =
      Same-IsSound (run_calls-IsSound start cs) (not_current_at-Same s.current_locker s) in
    elim ((create_or_get-Created now (split (c ∷ label)) s' sound).reached) [
      | inl (h, e) ↦ ground (
        arith,
        h,
        opened_at-none now r e,
        replied-reply (opened_at now r),
        replied-state (opened_at now r),
      )
      | inr (a, e, at, h) ↦ ground (
        arith,
        h,
        at,
        opened_at-some now a r e,
        replied-reply (opened_at now r),
        replied-state (opened_at now r),
      )
    ]

is_current-ne :
    (a c : ℕ) (t : LabeledLockers)
    → t.current_locker ≡ some c
    → nat_beq a c ≡ false
    → is_current a t ≡ false
is_current-ne a c t h k = ground (arith, h, k)

closed_at-other :
    (a c : ℕ) (s : LabeledLockers)
    → (delete_locker s.next a s).current_locker ≡ some c
    → nat_beq a c ≡ false
    → closed_at a s ≡ (delete_locker s.next a s, false)
closed_at-other a c s h k = rw (is_current-ne a c (delete_locker s.next a s) h k) refl

clear_locker-at :
    (now : ℕ) (ls : List Text) (a : ℕ) (s : LabeledLockers)
    → get ls s.all_lockers ≡ some a
    → clear_locker now ls true s ≡ closed_at a s
unfolding clear_locker
clear_locker-at now ls a s at = ap (λ o. clear_at now true o s) at

closing-other :
    (now d : ℕ) (label : Text) (a c : ℕ) (s : LabeledLockers)
    → equal_fold (d ∷ label) default_label ≡ false
    → get (split (d ∷ label)) s.all_lockers ≡ some a
    → (delete_locker s.next a s).current_locker ≡ some c
    → nat_beq a c ≡ false
    → (close_or_clear_labeled_locker now (d ∷ label) true s).0 ≡ delete_locker s.next a s
unfolding close_or_clear_labeled_locker
closing-other now d label a c s fold at cur ne = rw fold (
    replied-state (clear_locker now (split (d ∷ label)) true s)
    ∙ ap (λ x. x.0) (clear_locker-at now (split (d ∷ label)) a s at ∙ closed_at-other a c s cur ne))

-- Closing a locker above the current one leaves the current one: after any calls, if the current locker's
-- path goes on after the label's, then closing the label keeps the locker current, and no label
-- has that locker any more.
pub closing_above_strands :
    (start now : ℕ) (cs : List Call) (d : ℕ) (label : Text) (p : List Text) (a c : ℕ)
    → equal_fold (d ∷ label) default_label ≡ false
    → (run_calls cs (new_labeled_lockers start)).current_locker ≡ some c
    → get p (run_calls cs (new_labeled_lockers start)).all_lockers ≡ some c
    → get (split (d ∷ label)) (run_calls cs (new_labeled_lockers start)).all_lockers ≡ some a
    → is_prefix (split (d ∷ label)) p ≡ true
    → split (d ∷ label) ≢ p
    → ((close_or_clear_labeled_locker now
          (d ∷ label)
          true
          (run_calls cs (new_labeled_lockers start))).0.current_locker
        ≡ some c)
      × ((q : List Text)
          → get q
              (close_or_clear_labeled_locker now
                (d ∷ label)
                true
                (run_calls cs (new_labeled_lockers start))).0.all_lockers
            ≢ some c)
closing_above_strands start now cs d label p a c fold cur at_p at under ne =
    let s = run_calls cs (new_labeled_lockers start) in
    let sound = run_calls-IsSound start cs in
    let q = split (d ∷ label) in
    let t = delete_locker s.next a s in
    let w = close-Within q a s sound at in
    let sound' = close-IsSound q a s sound at in
    let same : a ≡ c → q ≡ p = λ e. entry-inj q p c s sound (at ∙ ap some e) at_p in
    let apart : nat_beq a c ≡ false = elim (Bool-cases (nat_beq a c)) [
      | inl x ↦ absurd (ne (same ((nat_beq_iff a c).0 x)))
      | inr x ↦ x
    ] in
    let closed : (close_or_clear_labeled_locker now (d ∷ label) true s).0 ≡ t =
      closing-other now d label a c s fold at (w.current_stays ∙ cur) apart in
    (
      ap (λ u. u.current_locker) closed ∙ w.current_stays ∙ cur,
      λ r h.
          let h' : get r t.all_lockers ≡ some c = ap (λ u. get r u.all_lockers) (sym closed) ∙ h in
          let e = entry-inj r p c s sound (entry-Within sound.linked sound'.linked w r c h') at_p in
          absurd (ground (arith, h', e, under, close-entries q a s sound at p)),
    )
