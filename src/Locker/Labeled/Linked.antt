-- ===== src/Locker/Labeled/Linked.antt =====
-- How the maps and pointers of the labeled lockers fit together (locker.go, LabeledLockers).
use goto.Prelude.{
  ℕ, ◌≡◌, ◌≤◌, ◌<◌, refl, ap, arith, Bool, true, false, ◌&&◌, Option, none, some, List, [], ◌∷◌,
  ◌++◌, inl, inr, if◌then◌else◌, Option-cases, Text, text_eq, ◌==◌, eq_iff, nat_beq, nat_eq,
}
use goto.Prelude.Dict.{get, get-put, get-delete, get_empty}
use goto.Locker.Tree.{Locker, empty}
use goto.Locker.Labels.{labels_eq}
use goto.Locker.Labeled.{Node, LabeledLockers, with_node, child_at, path_of, cut_link, without_sub}

-- What never changes of a locker: its parent, its label and its path.
pub record Info : Type 0 where
  pub parent : Option ℕ
  pub label : Text
  pub path : List Text

abbrev pub info_of : Node → Info
info_of n = record { parent = n.parent; label = n.locker.label; path = n.path_label }

abbrev pub node_info : Option Node → Option Info
node_info none = none
node_info (some n) = some (info_of n)

abbrev pub info : ℕ → LabeledLockers → Option Info
info a s = node_info (get a s.store)

abbrev pub same_parent : Option ℕ → Option ℕ → Bool
same_parent none none = true
same_parent none (some b) = false
same_parent (some a) none = false
same_parent (some a) (some b) = nat_beq a b

abbrev pub node_data : Option Node → Locker
node_data none = empty
node_data (some n) = n.locker.data_locker.locker

-- The data that a locker holds of its own.
abbrev pub own_data : ℕ → LabeledLockers → Locker
own_data a s = node_data (get a s.store)

abbrev data_at_entry : Option ℕ → LabeledLockers → Locker
data_at_entry none s = empty
data_at_entry (some a) s = own_data a s

-- The data of the locker with a path, none where there is no locker.
abbrev pub labeled_data : List Text → LabeledLockers → Locker
labeled_data p s = data_at_entry (get p s.all_lockers) s

-- Each locker that a map holds has the map's owner as its parent and the map's key as its label, comes after its
-- parent, and is in allLockers under its path; and allLockers has no others.
pub record IsLinked (s : LabeledLockers) : Type 0 where
  pub fresh : (a : ℕ) → s.next ≤ a → get a s.store ≡ none
  pub has_info :
      (o : Option ℕ) (l : Text) (b : ℕ)
      → child_at o l s ≡ some b
      → info b s ≡ some (record { parent = o; label = l; path = path_of o s ++ l ∷ [] })
  pub below : (a : ℕ) (l : Text) (b : ℕ) → child_at (some a) l s ≡ some b → a < b
  pub has_entry :
      (o : Option ℕ) (l : Text) (b : ℕ)
      → child_at o l s ≡ some b
      → get (path_of o s ++ l ∷ []) s.all_lockers ≡ some b
  pub entry :
      (p : List Text) (b : ℕ)
      → get p s.all_lockers ≡ some b
      → (o : Option ℕ) × (l : Text) × (child_at o l s ≡ some b) × (p ≡ path_of o s ++ l ∷ [])

-- The parent of a linked locker is linked, but for some parents.
abbrev pub IsRooted : (ℕ → Bool) → LabeledLockers → Type 0
IsRooted e s =
    (a : ℕ) (l : Text) (b : ℕ)
    → child_at (some a) l s ≡ some b
    → e a ≡ false
    → (o : Option ℕ) × (k : Text) × (child_at o k s ≡ some a)

pub path_of-info :
    (o : Option ℕ) (s t : LabeledLockers)
    → ((b : ℕ) → info b t ≡ info b s)
    → path_of o t ≡ path_of o s
path_of-info none s t h = refl
path_of-info (some b) s t h = ground (arith, h b)

abbrev pub changed : (Node → Node) → Option Node → Option Node
changed f none = none
changed f (some n) = some (f n)

pub get-with_node :
    (a b : ℕ) (f : Node → Node) (s : LabeledLockers)
    → get b (with_node a f s).store ≡ (if a == b then changed f (get a s.store) else get b s.store)
unfolding with_node
get-with_node a b f s = elim (Option-cases (get a s.store)) [
  | inl e ↦ rw e (ground (arith, e, eq_iff a b))
  | inr (n, e) ↦ ground (arith, e, get-put a b (f n) s.store)
]

pub info-with_node :
    (a b : ℕ) (f : Node → Node) (s : LabeledLockers)
    → ((n : Node) → info_of (f n) ≡ info_of n)
    → info b (with_node a f s) ≡ info b s
info-with_node a b f s h = elim (Option-cases (get a s.store)) [
  | inl e ↦ ground (arith, e, get-with_node a b f s, eq_iff a b)
  | inr (n, e) ↦ ground (arith, e, get-with_node a b f s, eq_iff a b, h n)
]

pub own_data-with_node :
    (a b : ℕ) (f : Node → Node) (s : LabeledLockers)
    → ((n : Node) → (f n).locker.data_locker.locker ≡ n.locker.data_locker.locker)
    → own_data b (with_node a f s) ≡ own_data b s
own_data-with_node a b f s h = elim (Option-cases (get a s.store)) [
  | inl e ↦ ground (arith, e, get-with_node a b f s, eq_iff a b)
  | inr (n, e) ↦ ground (arith, e, get-with_node a b f s, eq_iff a b, h n)
]

pub fresh-with_node :
    (a b : ℕ) (f : Node → Node) (s : LabeledLockers)
    → get b s.store ≡ none
    → get b (with_node a f s).store ≡ none
fresh-with_node a b f s h = ground (arith, h, get-with_node a b f s, eq_iff a b)

pub with_node-rest :
    (a : ℕ) (f : Node → Node) (s : LabeledLockers)
    → ((with_node a f s).lockers ≡ s.lockers)
      × ((with_node a f s).all_lockers ≡ s.all_lockers)
      × ((with_node a f s).next ≡ s.next)
      × ((with_node a f s).current_locker ≡ s.current_locker)
unfolding with_node
with_node-rest a f s = ground arith

pub info-cut_link :
    (b : ℕ) (o : Option ℕ) (l : Text) (s : LabeledLockers) → info b (cut_link o l s) ≡ info b s
unfolding cut_link
info-cut_link b none l s = refl
info-cut_link b (some a) l s = info-with_node a b (without_sub l) s (λ n. refl)

pub own_data-cut_link :
    (b : ℕ) (o : Option ℕ) (l : Text) (s : LabeledLockers)
    → own_data b (cut_link o l s) ≡ own_data b s
unfolding cut_link
own_data-cut_link b none l s = refl
own_data-cut_link b (some a) l s = own_data-with_node a b (without_sub l) s (λ n. refl)

pub child_at-cut_link :
    (o o' : Option ℕ) (l l' : Text) (s : LabeledLockers)
    → child_at o' l' (cut_link o l s)
      ≡ (if same_parent o o' && l == l' then none else child_at o' l' s)
unfolding cut_link child_at
child_at-cut_link none none l l' s = ground (arith, get-delete l l' s.lockers)
child_at-cut_link none (some b) l l' s = refl
child_at-cut_link (some a) none l l' s = ap (λ m. get l' m) (with_node-rest a (without_sub l) s).0
child_at-cut_link (some a) (some b) l l' s = elim (Option-cases (get a s.store)) [
  | inl e ↦ ground (arith, get-with_node a b (without_sub l) s, e, eq_iff a b, get_empty {V = ℕ} l')
  | inr (n, e) ↦
      ground
        (arith, get-with_node a b (without_sub l) s, e, eq_iff a b, get-delete l l' n.sub_lockers)
]

pub cut_link-rest :
    (o : Option ℕ) (l : Text) (s : LabeledLockers)
    → ((cut_link o l s).all_lockers ≡ s.all_lockers)
      × ((cut_link o l s).next ≡ s.next)
      × ((cut_link o l s).current_locker ≡ s.current_locker)
unfolding cut_link
cut_link-rest none l s = (refl, refl, refl)
cut_link-rest (some a) l s = let (e, f, g, h) = with_node-rest a (without_sub l) s in (f, g, h)

pub fresh-cut_link :
    (b : ℕ) (o : Option ℕ) (l : Text) (s : LabeledLockers)
    → get b s.store ≡ none
    → get b (cut_link o l s).store ≡ none
unfolding cut_link
fresh-cut_link b none l s h = h
fresh-cut_link b (some a) l s h = fresh-with_node a b (without_sub l) s h

pub same_parent_iff : (o o' : Option ℕ) → same_parent o o' ≡ true → o ≡ o'
same_parent_iff none none h = refl
same_parent_iff none (some b) h = cc
same_parent_iff (some a) none h = cc
same_parent_iff (some a) (some b) h = ground arith

pub same_parent_refl : (o : Option ℕ) → same_parent o o ≡ true
same_parent_refl none = refl
same_parent_refl (some a) = ground arith
