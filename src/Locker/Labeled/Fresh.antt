-- ===== src/Locker/Labeled/Fresh.antt =====
-- The labeled lockers at the start (locker.go, LabeledLockers.Init).
use goto.Prelude.{
  ℕ, ◌≡◌, refl, arith, Option, none, some, [], ◌∷◌, Text, text_eq, ◌==◌, eq_iff, nat_eq,
}
use goto.Prelude.Dict.{get_empty}
use goto.Locker.Labels.{labels_eq}
use goto.Locker.Labeled.{
  Node, child_at, default_label, nothing_labeled, new_labeled_lockers, make_locker,
}
use goto.Locker.Labeled.Entries.{IsSound}
use goto.Locker.Labeled.Made.{make_locker-IsSound, make_locker-entries}
use goto.Locker.Labeled.Created.{Outcome}
use goto.Locker.Labeled.Effects.{Same-Outcome, pointed-Same}

nothing_labeled-IsSound : IsSound nothing_labeled
unfolding child_at
nothing_labeled-IsSound = record {
  linked = record {
    fresh = λ a h. get_empty a;
    has_info = λ o l b h. absurd (no_child o l b h);
    below = λ a l b h. absurd (no_child (some a) l b h);
    has_entry = λ o l b h. absurd (no_child o l b h);
    entry = λ p b h. absurd (ground (arith, h, get_empty {V = ℕ} p));
  };
  rooted = λ a l b h e. absurd (no_child (some a) l b h);
}
  where
    no_child : (o : Option ℕ) (l : Text) (b : ℕ) → child_at o l nothing_labeled ≡ some b → ⊥
    no_child none l b h = ground (arith, h, get_empty {V = ℕ} l)
    no_child (some a) l b h = ground (arith, h, get_empty {V = Node} a, get_empty {V = ℕ} l)

nothing_there : (l : Text) → child_at none l nothing_labeled ≡ none
unfolding child_at
nothing_there l = get_empty l

pub new-Outcome : (now : ℕ) → Outcome (λ p. p == default_label ∷ []) (new_labeled_lockers now)
unfolding new_labeled_lockers
new-Outcome now =
    let free : child_at none default_label nothing_labeled ≡ none = nothing_there default_label in
    let path = default_label ∷ [] in
    let made = make_locker now path none default_label nothing_labeled in
    Same-Outcome
      (record {
        sound =
            make_locker-IsSound now nothing_labeled nothing_labeled-IsSound path none default_label
              tt free refl;
        knows = λ p. ground (
          arith,
          make_locker-entries now nothing_labeled nothing_labeled-IsSound path none default_label tt
              free refl p,
          get_empty {V = ℕ} p,
          eq_iff path p,
          eq_iff p path,
        );
      })
      (pointed-Same (some 0) made)
