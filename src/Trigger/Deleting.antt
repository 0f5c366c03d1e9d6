-- ===== src/Trigger/Deleting.antt =====
-- The removal of a trigger from a port's lists (trigger.go, deleteTrigger).
use goto.Prelude.{
  ℕ, zero, suc, ◌-◌, Bool, true, false, Option, none, some, List, [], ◌∷◌, ◌++◌, length, get_elem?,
  take, drop, leb, int_eq, Text, text_eq, ◌==◌, ◌>>=◌,
}
use goto.Prelude.Dict.{Dict, delete}
use goto.Trigger.{Trigger}

-- append(s[:i], s[i+1:]...) on the array of s, which has `live` elements: those behind i move up by one,
-- and what is behind s stays.
abbrev pub cut : ℕ → ℕ → List Text → List Text
cut i live names = take i names ++ (drop (suc i) (take live names) ++ drop (live - 1) names)

abbrev pub is_name_at : Text → Option Text → Bool
is_name_at name none = false
is_name_at name (some n) = n == name

-- The loop that takes a name out of a slice: `range` goes over the slice as it was, and reads the array as
-- it is. The array and how many of its elements the slice has left; s[i+1:] panics behind the slice's end.
unfoldable pub delete_loop : Text → ℕ → ℕ → ℕ → List Text → Option (List Text × ℕ)
delete_loop name zero i live names = some (names, live)
delete_loop name (suc k) i live names = elim (is_name_at name (get_elem? names i)) [
  | true ↦ elim (leb (suc i) live) [
    | true ↦ delete_loop name k (suc i) (live - 1) (cut i live names)
    | false ↦ none
  ]
  | false ↦ delete_loop name k (suc i) live names
]

unfoldable pub delete_name : Text → List Text → Option (List Text × ℕ)
delete_name name names = delete_loop name (length names) 0 (length names) names

module _ {K : Type 0} where
  abbrev pub keep_slice : K → List Text × ℕ → Dict K (List Text) → Dict K (List Text)
  keep_slice k (names, zero) m = m
  keep_slice k (names, suc live) m = (k, take (suc live) names) ∷ m

  unfoldable pub delete_from : Text → Dict K (List Text) → Option (Dict K (List Text))
  delete_from name [] = some []
  delete_from name ((k, names) ∷ m) = do
    (kept, live) ← delete_name name names
    rest ← delete_from name m
    some (keep_slice k (kept, live) rest)

  -- The map keeps its own slice, as long as it was, unless the loop's has become empty.
  abbrev pub keep_array : K → List Text × ℕ → Dict K (List Text) → Dict K (List Text)
  keep_array k (names, zero) m = m
  keep_array k (names, suc live) m = (k, names) ∷ m

unfoldable pub delete_from_values : Text → Dict Text (List Text) → Option (Dict Text (List Text))
delete_from_values name [] = some []
delete_from_values name ((hv, names) ∷ m) = do
  (kept, live) ← delete_name name names
  rest ← delete_from_values name m
  some (keep_array hv (kept, live) rest)

abbrev pub keep_values :
    Text
    → Dict Text (List Text)
    → Dict Text (Dict Text (List Text))
    → Dict Text (Dict Text (List Text))
keep_values h [] m = m
keep_values h (entry ∷ hvs) m = (h, entry ∷ hvs) ∷ m

unfoldable pub delete_from_headers :
    Text → Dict Text (Dict Text (List Text)) → Option (Dict Text (Dict Text (List Text)))
delete_from_headers name [] = some []
delete_from_headers name ((h, hvs) ∷ m) = do
  kept ← delete_from_values name hvs
  rest ← delete_from_headers name m
  some (keep_values h kept rest)

unfoldable pub delete_trigger : Text → Trigger → Option Trigger
delete_trigger name t = do
  by_uris ← delete_from name t.targets_by_uris
  by_headers ← delete_from_headers name t.targets_by_headers
  by_status ← delete_from name t.targets_by_status
  some (record t {
    targets = delete name t.targets;
    targets_by_uris = by_uris;
    targets_by_headers = by_headers;
    targets_by_status = by_status;
  })
