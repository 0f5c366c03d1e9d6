-- ===== src/Locker/Labeled/Created.antt =====
-- What getting a locker by its label does, with the locker made where it is not there (locker.go).
use goto.Prelude.{
  ℕ, ◌≡◌, ◌≢◌, refl, ap, sym, ◌∙◌, arith, true, false, Option, none, some, List, [], ◌∷◌, ◌⊎◌, inl,
  inr, Text, text_eq, nat_eq,
}
use goto.Prelude.Dict.{get}
use goto.Locker.Labels.{labels_eq}
use goto.Locker.Labeled.{LabeledLockers, path_of, create_or_get_locker}
use goto.Locker.Labeled.Linked.{labeled_data}
use goto.Locker.Labeled.Entries.{IsSound}
use goto.Locker.Labeled.Making.{Hangs, path_of-entry}
use goto.Locker.Labeled.Opening.{is_known, descend-Descended}
use goto.Locker.Labeled.{descend}
use goto.Locker.Labeled.Promised.{Known, has_name, with_path}

abbrev pub known : LabeledLockers → Known
known s p = is_known p s

pub record Outcome (k : Known) (t : LabeledLockers) : Type 0 where
  pub sound : IsSound t
  pub knows : (p : List Text) → known t p ≡ k p

pub record Created (ls : List Text) (s : LabeledLockers) (r : LabeledLockers × Option ℕ)
    : Type 0 where
  pub outcome : Outcome (with_path ls (known s)) r.0
  pub reached :
      (has_name ls ≡ false × (r.1 ≡ none))
      ⊎ ((a : ℕ) × (r.1 ≡ some a) × (get ls r.0.all_lockers ≡ some a) × (has_name ls ≡ true))
  pub data_stays : (p : List Text) → labeled_data p r.0 ≡ labeled_data p s
  pub current_stays : r.0.current_locker ≡ s.current_locker

reached_entry :
    (ls : List Text) (o : Option ℕ) (t : LabeledLockers)
    → IsSound t
    → Hangs o t
    → path_of o t ≡ ls
    → [] ≢ ls
    → (a : ℕ) × (o ≡ some a) × (get ls t.all_lockers ≡ some a)
reached_entry ls none t sound h e named = absurd (named e)
reached_entry ls (some a) t sound h e named =
    (a, refl, ap (λ p. get p t.all_lockers) (sym e) ∙ path_of-entry 0 t sound a h)

unchanged-Created :
    (ls : List Text) (s : LabeledLockers) → IsSound s → has_name ls ≡ false → Created ls s (s, none)
unchanged-Created ls s sound h = record {
  outcome = record { sound = sound; knows = λ p. ground (arith, h) };
  reached = inl (h, refl);
  data_stays = λ p. refl;
  current_stays = refl;
}

pub create_or_get-Created :
    (now : ℕ) (ls : List Text) (s : LabeledLockers)
    → IsSound s
    → Created ls s (create_or_get_locker now ls s)
unfolding create_or_get_locker
create_or_get-Created now [] s sound = unchanged-Created [] s sound refl
create_or_get-Created now ([] ∷ ls) s sound = unchanged-Created ([] ∷ ls) s sound refl
create_or_get-Created now ((c ∷ l) ∷ ls) s sound =
    let d = descend-Descended now [] none ((c ∷ l) ∷ ls) s sound tt refl in
    record {
      outcome = record { sound = d.sound; knows = d.known };
      reached =
          let (a, e, at) =
            reached_entry ((c ∷ l) ∷ ls) (descend now [] none ((c ∷ l) ∷ ls) s).1
              (descend now [] none ((c ∷ l) ∷ ls) s).0 d.sound d.hangs d.named (λ e. cc) in
          inr (a, e, at, refl);
      data_stays = d.data_stays;
      current_stays = d.current_stays;
    }
