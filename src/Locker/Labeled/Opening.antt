-- ===== src/Locker/Labeled/Opening.antt =====
-- A locker got by its label, and made with those above it where they are not there (locker.go,
-- unsafeCreateOrGetLocker).
use goto.Prelude.{
  ℕ, ◌≡◌, refl, ap, sym, ◌∙◌, arith, Bool, true, false, ◌&&◌, ◌||◌, not, Option, none, some, List,
  [], ◌∷◌, ◌++◌, inl, inr, Bool-cases, Option-cases, Text, text_eq, ◌==◌, eq_iff, nat_eq,
}
use mathlib.Core.List.{append_assoc, append-nil}
use goto.Prelude.Dict.{get}
use goto.Locker.Labels.{labels_eq, is_prefix, is_prefix-append, is_prefix-snoc, is_prefix-longer}
use goto.Locker.Labeled.{LabeledLockers, child_at, path_of, make_locker, get_or_make, descend}
use goto.Locker.Labeled.Linked.{labeled_data}
use goto.Locker.Labeled.Entries.{IsSound}
use goto.Locker.Labeled.Making.{
  Hangs, rest-made, entry_in_store, own_data-made, free_entry, path_of-linked,
}
use goto.Locker.Labeled.Made.{make_locker-entries, make_locker-IsSound, new_there, paths_stay}

abbrev pub is_some : Option ℕ → Bool
is_some none = false
is_some (some a) = true

-- Whether a path is one of a locker in allLockers.
abbrev pub is_known : List Text → LabeledLockers → Bool
is_known p s = is_some (get p s.all_lockers)

record Got (path : List Text) (s : LabeledLockers) (r : LabeledLockers × ℕ) : Type 0 where
  sound : IsSound r.0
  hangs : Hangs (some r.1) r.0
  named : path ≡ path_of (some r.1) r.0
  known : (p : List Text) → is_known p r.0 ≡ (is_known p s || path == p)
  keeps : (p : List Text) (b : ℕ) → get p s.all_lockers ≡ some b → get p r.0.all_lockers ≡ some b
  current_stays : r.0.current_locker ≡ s.current_locker
  data_stays : (p : List Text) → labeled_data p r.0 ≡ labeled_data p s

module _ (now : ℕ) (s : LabeledLockers) (sound : IsSound s) (path : List Text) (o : Option ℕ)
    (l : Text) (hangs : Hangs o s) (e : path ≡ path_of o s ++ l ∷ []) where
  found-Got : (b : ℕ) → child_at o l s ≡ some b → Got path s (s, b)
  found-Got b x = record {
    sound = sound;
    hangs = (o, l, x);
    named = e ∙ sym (path_of-linked now s sound o l b x);
    known = λ p. ground (arith, e, eq_iff path p, sound.linked.has_entry o l b x);
    keeps = λ p c h. h;
    current_stays = refl;
    data_stays = λ p. refl;
  }

  made-Got : child_at o l s ≡ none → Got path s (make_locker now path o l s, s.next)
  made-Got x =
      let sound' = make_locker-IsSound now s sound path o l hangs x e in
      let there = new_there now s sound path o l hangs x e in
      let entries = make_locker-entries now s sound path o l hangs x e in
      record {
        sound = sound';
        hangs = (o, l, there);
        named =
            e
            ∙ ap (λ q. q ++ l ∷ []) (sym (paths_stay now s sound path o l hangs x e o hangs))
            ∙ sym (path_of-linked now (make_locker now path o l s) sound' o l s.next there);
        known = λ p. ground (arith, entries p);
        keeps = λ p c h.
            ground (arith, e, h, entries p, eq_iff path p, free_entry now s sound o l hangs x);
        current_stays = (rest-made now s sound.linked path o l).2;
        data_stays = λ p. elim (Bool-cases (path == p)) [
          | inl same ↦ ground (
            arith,
            same,
            entries p,
            eq_iff path p,
            e,
            free_entry now s sound o l hangs x,
            own_data-made now s sound.linked path o l s.next hangs,
          )
          | inr other ↦ elim (Option-cases (get p s.all_lockers)) [
            | inl y ↦ ground (arith, other, y, entries p)
            | inr (b, y) ↦ ground (
              arith,
              other,
              y,
              entries p,
              eq_iff s.next b,
              own_data-made now s sound.linked path o l b hangs,
              entry_in_store now s sound p b y,
            )
          ]
        ];
      }

  get_or_make-Got : Got path s (get_or_make now path o l s)
  unfolding get_or_make
  get_or_make-Got = elim (Option-cases (child_at o l s)) [
    | inr (b, x) ↦ rw (x, get_or_make) (found-Got b x)
    | inl x ↦ rw (x, get_or_make) (made-Got x)
  ]

-- The paths on the way from one path down some labels.
abbrev pub on_the_way : List Text → List Text → List Text → Bool
on_the_way path ls p = is_prefix p (path ++ ls) && not (is_prefix p path)

pub record Descended (path ls : List Text) (s : LabeledLockers) (r : LabeledLockers × Option ℕ)
    : Type 0 where
  pub sound : IsSound r.0
  pub hangs : Hangs r.1 r.0
  pub named : path_of r.1 r.0 ≡ path ++ ls
  pub known : (p : List Text) → is_known p r.0 ≡ (is_known p s || on_the_way path ls p)
  pub keeps :
      (p : List Text) (b : ℕ) → get p s.all_lockers ≡ some b → get p r.0.all_lockers ≡ some b
  pub current_stays : r.0.current_locker ≡ s.current_locker
  pub data_stays : (p : List Text) → labeled_data p r.0 ≡ labeled_data p s

on_the_way-cons :
    (path : List Text) (l : Text) (ls p : List Text)
    → ((path ++ l ∷ []) == p || on_the_way (path ++ l ∷ []) ls p) ≡ on_the_way path (l ∷ ls) p
on_the_way-cons path l ls p = ground (
  arith,
  append_assoc path (l ∷ []) ls,
  eq_iff (path ++ l ∷ []) p,
  eq_iff p (path ++ l ∷ []),
  is_prefix-snoc p path l,
  is_prefix-append (path ++ l ∷ []) ls,
  is_prefix-longer path l,
)

pub descend-Descended :
    (now : ℕ) (path : List Text) (o : Option ℕ) (ls : List Text) (s : LabeledLockers)
    → IsSound s
    → Hangs o s
    → path ≡ path_of o s
    → Descended path ls s (descend now path o ls s)
unfolding descend
descend-Descended now path o [] s sound hangs e = record {
  sound = sound;
  hangs = hangs;
  named = sym e ∙ sym (append-nil path);
  known = λ p. ground (arith, append-nil path);
  keeps = λ p b h. h;
  current_stays = refl;
  data_stays = λ p. refl;
}
descend-Descended now path o (l ∷ ls) s sound hangs e =
    let path' = path ++ l ∷ [] in
    let g = get_or_make-Got now s sound path' o l hangs (ap (λ q. q ++ l ∷ []) e) in
    let r = get_or_make now path' o l s in
    let d = descend-Descended now path' (some r.1) ls r.0 g.sound g.hangs g.named in
    record {
      sound = d.sound;
      hangs = d.hangs;
      named = d.named ∙ append_assoc path (l ∷ []) ls;
      known = λ p. ground (arith, d.known p, g.known p, on_the_way-cons path l ls p);
      keeps = λ p b h. d.keeps p b (g.keeps p b h);
      current_stays = d.current_stays ∙ g.current_stays;
      data_stays = λ p. d.data_stays p ∙ g.data_stays p;
    }
