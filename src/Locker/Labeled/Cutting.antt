-- ===== src/Locker/Labeled/Cutting.antt =====
-- Links cut below a path, and all else left as it is (locker.go, deleteLocker).
use goto.Prelude.{
  ℕ, ◌≡◌, refl, ◌∙◌, arith, true, Option, none, some, List, [], ◌∷◌, ◌++◌, ◌⊎◌, inl, Text, text_eq,
  nat_eq,
}
use goto.Locker.Labels.{is_prefix, is_prefix_trans}
use goto.Locker.Labeled.{LabeledLockers, child_at, path_of}
use goto.Locker.Labeled.Linked.{info, own_data, path_of-info}

-- Only links to paths that begin with p are cut, and nothing else is done.
pub record Within (p : List Text) (s t : LabeledLockers) : Type 0 where
  pub links :
      (o : Option ℕ) (l : Text)
      → (child_at o l t ≡ child_at o l s)
        ⊎ ((child_at o l t ≡ none) × (is_prefix p (path_of o s ++ l ∷ []) ≡ true))
  pub infos : (b : ℕ) → info b t ≡ info b s
  pub datas : (b : ℕ) → own_data b t ≡ own_data b s
  pub next_stays : t.next ≡ s.next
  pub current_stays : t.current_locker ≡ s.current_locker

pub Within-refl : (p : List Text) (s : LabeledLockers) → Within p s s
Within-refl p s = record {
  links = λ o l. inl refl;
  infos = λ b. refl;
  datas = λ b. refl;
  next_stays = refl;
  current_stays = refl;
}

pub path_of-Within :
    {p : List Text} {s t : LabeledLockers} (o : Option ℕ) → Within p s t → path_of o t ≡ path_of o s
path_of-Within {s = s} {t = t} o w = path_of-info o s t w.infos

pub Within-trans :
    (p q : List Text) {s t u : LabeledLockers}
    → Within p s t
    → Within q t u
    → is_prefix p q ≡ true
    → Within p s u
Within-trans p q {s} {t} {u} v w h = record {
  links = λ o l. ground (
    arith,
    v.links o l,
    w.links o l,
    path_of-Within o v,
    is_prefix_trans p q (path_of o s ++ l ∷ []),
  );
  infos = λ b. w.infos b ∙ v.infos b;
  datas = λ b. w.datas b ∙ v.datas b;
  next_stays = w.next_stays ∙ v.next_stays;
  current_stays = w.current_stays ∙ v.current_stays;
}

pub Within-weaken :
    (p q : List Text) {s t : LabeledLockers} → Within q s t → is_prefix p q ≡ true → Within p s t
Within-weaken p q {s} {t} w h = record {
  links = λ o l. ground (arith, w.links o l, is_prefix_trans p q (path_of o s ++ l ∷ []));
  infos = w.infos;
  datas = w.datas;
  next_stays = w.next_stays;
  current_stays = w.current_stays;
}

-- No link is new.
pub child_at-Within :
    {p : List Text} {s t : LabeledLockers} (o : Option ℕ) (l : Text) (b : ℕ)
    → Within p s t
    → child_at o l t ≡ some b
    → child_at o l s ≡ some b
child_at-Within o l b w h = ground (arith, w.links o l)

pub child_at-Within-none :
    {p : List Text} {s t : LabeledLockers} (o : Option ℕ) (l : Text)
    → Within p s t
    → child_at o l s ≡ none
    → child_at o l t ≡ none
child_at-Within-none o l w h = ground (arith, w.links o l)
