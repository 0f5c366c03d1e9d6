-- ===== src/Locker/Labeled.antt =====
-- LabeledLockers and ContextLockers (locker.go): lockers by label, each with lockers below it. The lockers
-- stand in a store, and the maps, a locker's parent and the current locker hold their addresses, so that
-- what is written through one is read through all. A label is its parts (Locker/Labels); a path of
-- labels, as the key of allLockers or as PathLabel, is the list of its parts.
pub mod Clearing
pub mod Linked
pub mod Unlinking
pub mod Cutting
pub mod Emptying
pub mod Deleting
pub mod Entries
pub mod Closing
pub mod Making
pub mod Made
pub mod Opening
pub mod Handlers
pub mod Same
pub mod Promised
pub mod Created
pub mod Effects
pub mod Fresh
pub mod Routes
pub mod Refined
pub mod Walking
pub mod Stored
pub mod Current
pub mod Default
use goto.Prelude.{
  ℕ, zero, suc, Bool, true, false, ◌||◌, ◌&&◌, not, Option, none, some, List, [], ◌∷◌, ◌++◌,
  if◌then◌else◌, Text, codes, text_eq, ◌==◌, nat_beq, nat_eq, equal_fold,
}
use goto.Prelude.Dict.{Dict, get, put, delete}
use goto.Locker.Data
use goto.Locker.Combi.{CombiLocker}
use goto.Locker.Combi
use goto.Locker.Labels.{labels_eq, split}

-- A CombiLocker with what it holds of other lockers.
pub record Node : Type 0 where
  pub locker : CombiLocker
  pub path_label : List Text
  pub parent : Option ℕ
  pub sub_lockers : Dict Text ℕ

pub record LabeledLockers : Type 0 where
  pub store : Dict ℕ Node
  pub next : ℕ
  pub lockers : Dict Text ℕ
  pub all_lockers : Dict (List Text) ℕ
  pub current_locker : Option ℕ

-- A write through a pointer.
unfoldable pub with_node : ℕ → (Node → Node) → LabeledLockers → LabeledLockers
with_node a f s = elim (get a s.store) [
  | none ↦ s
  | some n ↦ record s { store = put a (f n) s.store }
]

abbrev pub path_of_node : Option Node → List Text
path_of_node none = []
path_of_node (some n) = n.path_label

abbrev pub subs_of_node : Option Node → Dict Text ℕ
subs_of_node none = []
subs_of_node (some n) = n.sub_lockers

-- The locker with a label in the lockers of a parent, or in the lockers at the top.
unfoldable pub child_at : Option ℕ → Text → LabeledLockers → Option ℕ
child_at none l s = get l s.lockers
child_at (some b) l s = get l (subs_of_node (get b s.store))

abbrev pub path_of : Option ℕ → LabeledLockers → List Text
path_of none s = []
path_of (some b) s = path_of_node (get b s.store)

-- NewCombiLocker with Init and Open
abbrev pub new_combi_locker : ℕ → Text → CombiLocker
new_combi_locker now l = Combi.init now (record {
  label = l;
  peer_lockers = [];
  data_locker = Data.new;
  current = false;
  first_opened = 0;
  last_opened = 0;
})

abbrev pub new_node : ℕ → Option ℕ → Text → LabeledLockers → Node
new_node now o l s = record {
  locker = new_combi_locker now l;
  path_label = path_of o s ++ l ∷ [];
  parent = o;
  sub_lockers = [];
}

abbrev pub with_sub : Text → ℕ → Node → Node
with_sub l a n = record n { sub_lockers = put l a n.sub_lockers }

abbrev pub without_sub : Text → Node → Node
without_sub l n = record n { sub_lockers = delete l n.sub_lockers }

unfoldable pub link : Option ℕ → Text → ℕ → LabeledLockers → LabeledLockers
link none l a s = record s { lockers = put l a s.lockers }
link (some b) l a s = with_node b (with_sub l a) s

unfoldable pub cut_link : Option ℕ → Text → LabeledLockers → LabeledLockers
cut_link none l s = record s { lockers = delete l s.lockers }
cut_link (some b) l s = with_node b (without_sub l) s

abbrev pub allocate : Node → LabeledLockers → LabeledLockers
allocate n s = record s { store = put s.next n s.store; next = suc s.next }

-- A new locker below a parent, or at the top, entered under its path.
unfoldable pub make_locker : ℕ → List Text → Option ℕ → Text → LabeledLockers → LabeledLockers
make_locker now path o l s =
    let made = link o l s.next (allocate (new_node now o l s) s) in
    record made { all_lockers = put path s.next made.all_lockers }

-- One step of unsafeCreateOrGetLocker: the locker with the label, which is made if it is not there.
unfoldable pub get_or_make : ℕ → List Text → Option ℕ → Text → LabeledLockers → LabeledLockers × ℕ
get_or_make now path o l s = elim (child_at o l s) [
  | some b ↦ (s, b)
  | none ↦ (make_locker now path o l s, s.next)
]

-- The loop of unsafeCreateOrGetLocker.
unfoldable pub descend :
    ℕ → List Text → Option ℕ → List Text → LabeledLockers → LabeledLockers × Option ℕ
descend now path o [] s = (s, o)
descend now path o (l ∷ ls) s =
    let r = get_or_make now (path ++ l ∷ []) o l s in descend now (path ++ l ∷ []) (some r.1) ls r.0

-- unsafeCreateOrGetLocker; there is none for a label that begins with a comma, or is empty.
unfoldable pub create_or_get_locker : ℕ → List Text → LabeledLockers → LabeledLockers × Option ℕ
create_or_get_locker now [] s = (s, none)
create_or_get_locker now ([] ∷ ls) s = (s, none)
create_or_get_locker now ((c ∷ l) ∷ ls) s = descend now [] none ((c ∷ l) ∷ ls) s

abbrev pub default_label : Text
default_label = codes "default"

abbrev pub nothing_labeled : LabeledLockers
nothing_labeled = record {
  store = [];
  next = 0;
  lockers = [];
  all_lockers = [];
  current_locker = none;
}

-- NewLabeledLockers and Init
unfoldable pub new_labeled_lockers : ℕ → LabeledLockers
new_labeled_lockers now =
    record (make_locker now (default_label ∷ []) none default_label nothing_labeled) {
      current_locker = some 0;
    }

abbrev pub with_locker : (CombiLocker → CombiLocker) → Node → Node
with_locker f n = record n { locker = f n.locker }

abbrev pub not_current : CombiLocker → CombiLocker
not_current cl = record cl { current = false }

abbrev pub not_current_at : Option ℕ → LabeledLockers → LabeledLockers
not_current_at none s = s
not_current_at (some a) s = with_node a (with_locker not_current) s

abbrev pub opened_at : ℕ → LabeledLockers × Option ℕ → LabeledLockers × Bool
opened_at now (s, none) = (record s { current_locker = none }, true)
opened_at now (s, some a) =
    (with_node a (with_locker (Combi.open_at now)) (record s { current_locker = some a }), false)

-- OpenLocker, and whether it panics: where a label has no locker, the current one is nil from then on.
unfoldable pub open_locker : ℕ → List Text → LabeledLockers → LabeledLockers × Bool
open_locker now labels s =
    opened_at now (create_or_get_locker now labels (not_current_at s.current_locker s))

-- strings.EqualFold(label, "current")
unfoldable pub says_current : List Text → Bool
says_current [] = false
says_current (l ∷ []) = equal_fold l (codes "current")
says_current (l ∷ m ∷ ls) = false

-- GetLocker
unfoldable pub get_locker : List Text → LabeledLockers → Option ℕ
get_locker labels s = if says_current labels then s.current_locker else get labels s.all_lockers

-- GetOrCreateLocker
unfoldable pub get_or_create_locker : ℕ → List Text → LabeledLockers → LabeledLockers × Option ℕ
get_or_create_locker now labels s =
    if says_current labels then (s, s.current_locker) else create_or_get_locker now labels s
