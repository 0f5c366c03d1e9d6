-- ===== src/Locker/Labeled/Default.antt =====
-- The default locker, which the routes do not close (registry/lockerApi.go, closeOrClearLabeledLocker).
use goto.Prelude.{
  ℕ, ◌≡◌, refl, ap, sym, ◌∙◌, arith, Bool, true, false, ◌&&◌, not, Option, none, some, List, [],
  ◌∷◌, inl, inr, if◌then◌else◌, Bool-cases, Option-cases, Text, text_eq, ◌==◌, eq_iff, eq_refl,
  nat_eq, equal_fold, to_lower, equal_fold_refl,
}
use goto.Prelude.Dict.{get}
use goto.Locker.Labels.{
  labels_eq, is_prefix, split, join, split_cons, join-split, join_one, snoc_inj, nil_ne_snoc,
}
use goto.Locker.Labeled.{
  LabeledLockers, child_at, path_of, new_labeled_lockers, default_label, says_current,
}
use goto.Locker.Labeled.Clearing.{
  clear_locker, closed_at, clear_at, delete_locker, is_current, back_to_default, current_at,
}
use goto.Locker.Labeled.Entries.{IsSound}
use goto.Locker.Labeled.Making.{parent-Hangs, path_of-linked}
use goto.Locker.Labeled.Opening.{is_known}
use goto.Locker.Labeled.Closing.{close-IsSound, close-entries}
use goto.Locker.Labeled.Handlers.{close_or_clear_labeled_locker, replied, done, bad_request}
use goto.Locker.Labeled.Promised.{
  Known, Call, opens, clears, stores, removes, promised, all_promised, run_calls, filled, cleared,
}
use goto.Locker.Labeled.Refined.{run_calls-IsSound, run_calls-promised}
use goto.Locker.Labeled.Current.{replied-reply}

abbrev default_path : List Text
default_path = default_label ∷ []

begins_default :
    (label l : Text) (ls : List Text)
    → split label ≡ l ∷ ls
    → is_prefix (l ∷ ls) default_path ≡ true
    → label ≡ default_label
unfolding is_prefix
begins_default label l [] e h =
    sym (join-split label) ∙ ap join e ∙ join_one l ∙ (eq_iff l default_label).0 (ground (arith, h))
begins_default label l (m ∷ ls) e h = absurd (ground (arith, h))

-- Only the label `default` begins the default locker's path.
not_default :
    (label : Text)
    → equal_fold label default_label ≡ false
    → is_prefix (split label) default_path ≡ false
not_default label h = elim (Bool-cases (is_prefix (split label) default_path)) [
  | inr x ↦ x
  | inl x ↦
      let (l, ls, e) = split_cons label in
      let same = begins_default label l ls e (ap (λ q. is_prefix q default_path) (sym e) ∙ x) in
      absurd (ground (arith, h, same, equal_fold_refl label))
]

split_default : split default_label ≡ default_path
unfolding split
split_default = refl

only_itself :
    (label : Text)
    → (is_prefix (split label) default_path && not (split label == default_path)) ≡ false
only_itself label = elim (Bool-cases (is_prefix (split label) default_path)) [
  | inr x ↦ ground (arith, x)
  | inl x ↦
      let (l, ls, e) = split_cons label in
      let same = begins_default label l ls e (ap (λ q. is_prefix q default_path) (sym e) ∙ x) in
      ground (arith, ap split same ∙ split_default, eq_iff (split label) default_path)
]

filled-default :
    (label : Text) (keys : List Text) (k : Known)
    → k default_path ≡ true
    → filled label keys k default_path ≡ true
filled-default [] keys k h = h
filled-default (c ∷ label) [] k h = h
filled-default (c ∷ label) (key ∷ keys) k h = elim (Bool-cases (says_current (split (c ∷ label)))) [
  | inl x ↦ rw x h
  | inr x ↦ rw x (ground (arith, h))
]

cleared-default :
    (label : Text) (closing : Bool) (k : Known)
    → k default_path ≡ true
    → cleared label closing k default_path ≡ true
cleared-default [] closing k h = eq_refl default_path
cleared-default (c ∷ label) false k h = ground (arith, h, only_itself (c ∷ label))
cleared-default (c ∷ label) true k h = elim (Bool-cases (equal_fold (c ∷ label) default_label)) [
  | inl x ↦ rw x h
  | inr x ↦ rw x (ground (arith, h, not_default (c ∷ label) x))
]

promised-default :
    (call : Call) (k : Known) → k default_path ≡ true → promised call k default_path ≡ true
promised-default (opens now label) k h = ground (arith, h)
promised-default (clears now label closing) k h = cleared-default label closing k h
promised-default (stores now label keys v) k h = filled-default label keys k h
promised-default (removes now label keys) k h = filled-default label keys k h

all_promised-default :
    (cs : List Call) (k : Known) → k default_path ≡ true → all_promised cs k default_path ≡ true
unfolding all_promised
all_promised-default [] k h = h
all_promised-default (c ∷ cs) k h = all_promised-default cs (promised c k) (promised-default c k h)

-- The entry of the default locker is at the top.
default_on_top :
    (d : ℕ) (t : LabeledLockers)
    → IsSound t
    → get default_path t.all_lockers ≡ some d
    → get default_label t.lockers ≡ some d
unfolding child_at
default_on_top d t sound h =
    let (o, l, c, e) = sound.linked.entry default_path d h in
    let (p, m) = snoc_inj [] (path_of o t) default_label l e in on_top o l c p m
  where
    on_top :
        (o : Option ℕ) (l : Text)
        → child_at o l t ≡ some d
        → [] ≡ path_of o t
        → default_label ≡ l
        → get default_label t.lockers ≡ some d
    on_top none l c p m = ap (λ k. get k t.lockers) m ∙ c
    on_top (some x) l c p m =
        let (o', l', c') = parent-Hangs 0 t sound (some x) l d c in
        absurd (nil_ne_snoc (path_of o' t) l' (p ∙ path_of-linked 0 t sound o' l' x c'))

back_to_default-there :
    (t : LabeledLockers) (d : ℕ)
    → get default_label t.lockers ≡ some d
    → (back_to_default t).1 ≡ false
unfolding back_to_default
back_to_default-there t d h = ap (λ o. (current_at o t).1) h

closed_at-there :
    (q : List Text) (a : ℕ) (s : LabeledLockers)
    → IsSound s
    → get q s.all_lockers ≡ some a
    → is_prefix q default_path ≡ false
    → is_known default_path s ≡ true
    → (closed_at a s).1 ≡ false
closed_at-there q a s sound at other known = elim (Option-cases (get default_path s.all_lockers)) [
  | inl x ↦ absurd (ground (arith, x, known))
  | inr (d, x) ↦
      let t = delete_locker s.next a s in
      let there : get default_path t.all_lockers ≡ some d =
        ground (arith, x, other, close-entries q a s sound at default_path) in
      let back =
        back_to_default-there t d (default_on_top d t (close-IsSound q a s sound at) there) in
      elim (is_current a t) as (λ b. (if b then back_to_default t else (t, false)).1 ≡ false) [
        | true ↦ back
        | false ↦ refl
      ]
]

clear_at-emptying :
    (now : ℕ) (o : Option ℕ) (s : LabeledLockers) → (clear_at now false o s).1 ≡ false
clear_at-emptying now none s = refl
clear_at-emptying now (some a) s = refl

clear_at-closing :
    (now : ℕ) (q : List Text) (o : Option ℕ) (s : LabeledLockers)
    → IsSound s
    → get q s.all_lockers ≡ o
    → is_prefix q default_path ≡ false
    → is_known default_path s ≡ true
    → (clear_at now true o s).1 ≡ false
clear_at-closing now q none s sound at other known = refl
clear_at-closing now q (some a) s sound at other known = closed_at-there q a s sound at other known

replied-done : (r : LabeledLockers × Bool) → r.1 ≡ false → (replied r).1 ≡ done
replied-done r h = replied-reply r ∙ ground (arith, h)

close-answer :
    (now : ℕ) (label : Text) (closing : Bool) (s : LabeledLockers)
    → IsSound s
    → is_known default_path s ≡ true
    → (close_or_clear_labeled_locker now label closing s).1
      ≡ (if closing && equal_fold label default_label then bad_request else done)
unfolding close_or_clear_labeled_locker clear_locker equal_fold to_lower
close-answer now [] false s sound known = refl
close-answer now [] true s sound known = refl
close-answer now (c ∷ label) false s sound known =
    replied-done (clear_at now false (get (split (c ∷ label)) s.all_lockers) s)
      (clear_at-emptying now (get (split (c ∷ label)) s.all_lockers) s)
close-answer now (c ∷ label) true s sound known =
    elim (Bool-cases (equal_fold (c ∷ label) default_label)) [
      | inl x ↦ rw x refl
      | inr x ↦ rw x (
          replied-done (clear_at now true (get (split (c ∷ label)) s.all_lockers) s) (
            clear_at-closing now (split (c ∷ label)) (get (split (c ∷ label)) s.all_lockers) s sound
              refl (not_default (c ∷ label) x) known))
    ]

-- After any calls, closing or clearing a label, or all, does not panic: the answer is 400 for closing `default`,
-- in any case, and 200 else.
pub closing_answers :
    (start now : ℕ) (cs : List Call) (label : Text) (closing : Bool)
    → (close_or_clear_labeled_locker now label closing (run_calls cs (new_labeled_lockers start))).1
      ≡ (if closing && equal_fold label default_label then bad_request else done)
closing_answers start now cs label closing =
    close-answer now label closing (run_calls cs (new_labeled_lockers start))
      (run_calls-IsSound start cs)
      (run_calls-promised start cs default_path
        ∙ all_promised-default cs (λ q. q == default_path) (eq_refl default_path))
