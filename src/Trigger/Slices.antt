-- ===== src/Trigger/Slices.antt =====
-- The loop that takes a name out of a slice (trigger.go, deleteTrigger), against the list without the name.
use goto.Prelude.{
  ℕ, zero, suc, ◌+◌, ◌≤◌, ◌≡◌, refl, ap, sym, subst, ◌∙◌, arith, true, false, Option, none, some,
  List, [], ◌∷◌, ◌++◌, length, get_elem?, take, drop, if◌then◌else◌, Text, text_eq, ◌==◌, eq_iff,
  eq_refl, Bool-cases, inl, inr,
}
use goto.Trigger.Deleting.{delete_loop, delete_name, cut, is_name_at}

abbrev pub occurrences : Text → List Text → ℕ
occurrences name [] = 0
occurrences name (n ∷ names) =
    if n == name then suc (occurrences name names) else occurrences name names

abbrev pub without : Text → List Text → List Text
without name [] = []
without name (n ∷ names) = if n == name then without name names else n ∷ without name names

pub without-absent :
    (name : Text) (names : List Text) → occurrences name names ≡ 0 → without name names ≡ names
without-absent name [] none_there = refl
without-absent name (n ∷ names) none_there = ground (arith, without-absent name names)

is_name_at-absent :
    (name : Text) (i : ℕ) (names : List Text)
    → occurrences name names ≡ 0
    → is_name_at name (get_elem? names i) ≡ false
is_name_at-absent name i [] none_there = refl
is_name_at-absent name zero (n ∷ names) none_there = ground arith
is_name_at-absent name (suc i) (n ∷ names) none_there =
    is_name_at-absent name i names (ground arith)

-- Nothing is taken out of an array without the name.
delete_loop-absent :
    (name : Text) (k i live : ℕ) (names : List Text)
    → occurrences name names ≡ 0
    → delete_loop name k i live names ≡ some (names, live)
unfolding delete_loop
delete_loop-absent name zero i live names none_there = refl
delete_loop-absent name (suc k) i live names none_there = ground (
  arith,
  is_name_at-absent name i names none_there,
  delete_loop-absent name k (suc i) live names none_there,
)

abbrev pub behind : Text → Option (List Text × ℕ) → Option (List Text × ℕ)
behind x none = none
behind x (some (names, live)) = some (x ∷ names, suc live)

-- The loop leaves alone what it is past.
delete_loop-suc :
    (name x : Text) (k i live : ℕ) (names : List Text)
    → delete_loop name k (suc i) (suc live) (x ∷ names) ≡ behind x (delete_loop name k i live names)
unfolding delete_loop
delete_loop-suc name x zero i live names = refl
delete_loop-suc name x (suc k) i zero names =
    ground (arith, delete_loop-suc name x k (suc i) zero names)
delete_loop-suc name x (suc k) i (suc live) names = ground (
  arith,
  delete_loop-suc name x k (suc i) live (cut i (suc live) names),
  delete_loop-suc name x k (suc i) (suc live) names,
)

take-length : (names more : List Text) → take (length names) (names ++ more) ≡ names
take-length [] more = refl
take-length (n ∷ names) more = ap (λ ns. n ∷ ns) (take-length names more)

take-all : (names : List Text) → take (length names) names ≡ names
take-all [] = refl
take-all (n ∷ names) = ap (λ ns. n ∷ ns) (take-all names)

occurrences-append :
    (name : Text) (xs ys : List Text)
    → occurrences name (xs ++ ys) ≡ occurrences name xs + occurrences name ys
occurrences-append name [] ys = omega arith
occurrences-append name (x ∷ xs) ys = ground (arith, occurrences-append name xs ys)

occurrences-drop :
    (name : Text) (n : ℕ) (xs : List Text)
    → occurrences name xs ≡ 0
    → occurrences name (drop n xs) ≡ 0
occurrences-drop name zero xs h = h
occurrences-drop name (suc n) [] h = refl
occurrences-drop name (suc n) (x ∷ xs) h = occurrences-drop name n xs (ground arith)

-- A slice that a name was taken out of: its elements are `names`.
abbrev pub IsSlice : List Text → Option (List Text × ℕ) → Type 0
IsSlice names o =
    (kept : List Text) × (live : ℕ) × (o ≡ some (kept, live))
    × (take live kept ≡ names)
    × (live ≡ length names)

behind-IsSlice :
    (x : Text) (names : List Text) (o : Option (List Text × ℕ))
    → IsSlice names o
    → IsSlice (x ∷ names) (behind x o)
behind-IsSlice x names o (kept, live, e, t, l) =
    (x ∷ kept, suc live, rw e refl, ap (λ ns. x ∷ ns) t, ap suc l)

-- At the name itself: those behind it move up.
delete_name-here :
    (name : Text) (names : List Text)
    → delete_name name (name ∷ names)
      ≡ delete_loop name
          (length names)
          1
          (length names)
          (names ++ drop (length names) (name ∷ names))
unfolding delete_loop delete_name
delete_name-here name names = ground (arith, eq_refl name, take-all names)

delete_name-first :
    (name : Text) (names : List Text)
    → occurrences name names ≡ 0
    → delete_name name (name ∷ names)
      ≡ some (names ++ drop (length names) (name ∷ names), length names)
unfolding delete_loop
delete_name-first name [] h = delete_name-here name []
delete_name-first name (n ∷ names) h =
    delete_name-here name (n ∷ names)
    ∙ delete_loop-absent name (length (n ∷ names)) 1 (length (n ∷ names))
        ((n ∷ names) ++ drop (length names) (n ∷ names))
        (ground (
          arith,
          occurrences-append name (n ∷ names) (drop (length names) (n ∷ names)),
          occurrences-drop name (length names) (n ∷ names) h,
        ))

delete_name-later :
    (name n : Text) (names : List Text)
    → (n == name) ≡ false
    → delete_name name (n ∷ names) ≡ behind n (delete_name name names)
unfolding delete_loop delete_name
delete_name-later name n names h =
    ground (arith, h, delete_loop-suc name n (length names) 0 (length names) names)

first-IsSlice :
    (name n : Text) (names : List Text)
    → name ≡ n
    → occurrences name names ≡ 0
    → IsSlice names (delete_name name (n ∷ names))
first-IsSlice name n names e h = (
  names ++ drop (length names) (name ∷ names),
  length names,
  rw (sym e) (delete_name-first name names h),
  take-length names (drop (length names) (name ∷ names)),
  refl,
)

later-IsSlice :
    (name n : Text) (names kept : List Text)
    → (n == name) ≡ false
    → IsSlice kept (delete_name name names)
    → IsSlice (n ∷ kept) (delete_name name (n ∷ names))
later-IsSlice name n names kept e slice =
    rw (delete_name-later name n names e) (behind-IsSlice n kept (delete_name name names) slice)

without-first :
    (name n : Text) (names : List Text)
    → (n == name) ≡ true
    → occurrences name names ≡ 0
    → without name (n ∷ names) ≡ names
without-first name n names e h = ground (arith, without-absent name names)

without-later :
    (name n : Text) (names : List Text)
    → (n == name) ≡ false
    → without name (n ∷ names) ≡ n ∷ without name names
without-later name n names e = ground arith

-- The loop takes a name that is at most once in a slice out of it, and does not panic.
pub delete_name-IsSlice :
    (name : Text) (names : List Text)
    → occurrences name names ≤ 1
    → IsSlice (without name names) (delete_name name names)
unfolding delete_name delete_loop
delete_name-IsSlice name [] h = ([], 0, refl, refl, refl)
delete_name-IsSlice name (n ∷ names) h =
    elim (Bool-cases (n == name))
      as (λ c. IsSlice (without name (n ∷ names)) (delete_name name (n ∷ names))) [
        | inl e ↦
            let absent : occurrences name names ≡ 0 = ground arith in
            subst (λ kept. IsSlice kept (delete_name name (n ∷ names)))
              (sym (without-first name n names e absent))
              (first-IsSlice name n names (sym ((eq_iff n name).0 e)) absent)
        | inr e ↦
            subst (λ kept. IsSlice kept (delete_name name (n ∷ names)))
              (sym (without-later name n names e))
              (later-IsSlice name n names (without name names) e
                (delete_name-IsSlice name names (ground arith)))
      ]
