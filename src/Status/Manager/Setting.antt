-- ===== src/Status/Manager/Setting.antt =====
-- Setting a status again, and clearing it (statusManager.go, SetStatusFor and Clear).
use goto.Prelude.{
  ℕ, zero, suc, ◌≡◌, ◌⊎◌, inl, inr, refl, arith, Bool, true, false, none, some, List, [], ◌∷◌, ◌++◌,
  All, all, length, ℤ, Text, to_lower, equal_fold_refl, int_eq, eq_refl, ◌∙◌, ap, equal_fold_empty,
  text_eq, Option-cases,
}
use goto.Status.Config.{StatusConfig, set_status, match_one, bool_eq}
use goto.Status.Manager.{
  StatusManager, Target, configs, names, find_config, update_at, set_or_append, set_status_for,
  new_status_config, clear, clear_target, remove_status_config, lower_target, trim_space,
  header_list,
}
use goto.Status.Manager.Apply.{configs-put}

names-set_status :
    (t : Target) (codes : List ℤ) (times : ℤ) (sc : StatusConfig)
    → names t (set_status codes times sc) ≡ names t sc
unfolding names set_status
names-set_status t codes times sc = ground arith

find_config-update_at :
    (t : Target) (codes : List ℤ) (times : ℤ) (i : ℕ) (l : List StatusConfig)
    → find_config t (update_at i (set_status codes times) l) ≡ find_config t l
unfolding find_config update_at
find_config-update_at t codes times i [] = refl
find_config-update_at t codes times zero (sc ∷ l) = rw names-set_status
find_config-update_at t codes times (suc i) (sc ∷ l) = rw (find_config-update_at t codes times i l)

find_config-append :
    (t : Target) (sc : StatusConfig) (l : List StatusConfig)
    → find_config t l ≡ none
    → names t sc ≡ true
    → find_config t (l ++ sc ∷ []) ≡ some (length l)
unfolding find_config
find_config-append t sc [] e h = rw h
find_config-append t sc (x ∷ l) e h = ground (arith, find_config-append t sc l)

length-update_at :
    (i : ℕ) (f : StatusConfig → StatusConfig) (l : List StatusConfig)
    → length (update_at i f l) ≡ length l
unfolding update_at
length-update_at i f [] = refl
length-update_at zero f (sc ∷ l) = refl
length-update_at (suc i) f (sc ∷ l) = ap suc (length-update_at i f l)

bool_eq_refl : (b : Bool) → bool_eq b b ≡ true
bool_eq_refl true = refl
bool_eq_refl false = refl

header_list-match_one :
    (h hv : Text) (present : Bool)
    → all (λ m. match_one m h hv present) (header_list h hv present) ≡ true
unfolding match_one
header_list-match_one [] hv present = refl
header_list-match_one (c ∷ h) hv present =
    rw (bool_eq_refl present, equal_fold_refl (c ∷ h), equal_fold_refl hv)

-- A new config is the one that its target names, if the header has no blanks around it.
names-new :
    (t : Target) (methods : List Text) (codes : List ℤ) (times : ℤ)
    → trim_space t.header ≡ t.header
    → names t (new_status_config t methods codes times) ≡ true
unfolding names new_status_config
names-new t methods codes times e = rw (
  equal_fold_refl t.uri_exact,
  equal_fold_refl t.uri_prefix,
  e,
  header_list-match_one t.header t.header_value t.present,
)

-- Once a target was set, its config is found.
found_again :
    (t : Target) (methods : List Text) (codes : List ℤ) (times : ℤ) (l : List StatusConfig)
    → trim_space t.header ≡ t.header
    → (i : ℕ) × (find_config t (set_or_append (find_config t l) t methods codes times l) ≡ some i)
found_again t methods codes times l e = elim (Option-cases (find_config t l)) [
  | inl new' ↦ (
    length l,
    rw new' (
        find_config-append t (new_status_config t methods codes times) l new'
          (names-new t methods codes times e)),
  )
  | inr (i, old) ↦ (i, rw old (find_config-update_at t codes times i l ∙ old))
]

set_again-length :
    (t : Target) (methods methods' : List Text) (codes codes' : List ℤ) (times times' : ℤ)
    (l : List StatusConfig)
    → trim_space t.header ≡ t.header
    → let l' = set_or_append (find_config t l) t methods codes times l in
      length (set_or_append (find_config t l') t methods' codes' times' l') ≡ length l'
set_again-length t methods methods' codes codes' times times' l e =
    let (i, found) = found_again t methods codes times l e in
    let l' = set_or_append (find_config t l) t methods codes times l in
    rw found (length-update_at i (set_status codes' times') l')

configs-set_status_for :
    (port : ℤ) (t : Target) (methods : List Text) (codes : List ℤ) (times : ℤ) (m : StatusManager)
    → configs port (set_status_for port t methods codes times m)
      ≡ set_or_append
          (find_config (lower_target t) (configs port m))
          (lower_target t)
          methods
          codes
          times
          (configs port m)
unfolding set_status_for
configs-set_status_for port t methods codes times m = rw (configs-put, eq_refl port)

-- Setting the status of a target a second time makes no second config: the port has as many as after
-- the first time. (The header's name has no blanks around it.)
set_status_for_again :
    (port : ℤ) (t : Target) (methods methods' : List Text) (codes codes' : List ℤ)
    (times times' : ℤ) (m : StatusManager)
    → trim_space (to_lower t.header) ≡ to_lower t.header
    → let m' = set_status_for port t methods codes times m in
      length (configs port (set_status_for port t methods' codes' times' m'))
      ≡ length (configs port m')
set_status_for_again port t methods methods' codes codes' times times' m e =
    rw
      (
        configs-set_status_for port t methods' codes' times'
            (set_status_for port t methods codes times m),
        configs-set_status_for port t methods codes times m,
      )
      (set_again-length (lower_target t) methods methods' codes codes' times times' (configs port m)
        e)

-- A config whose exact URI or whose prefix is not given.
abbrev pub IsOneSided : StatusConfig → Type 0
IsOneSided sc = (sc.match.uri_match.exact ≡ []) ⊎ (sc.match.uri_match.prefix ≡ [])

not-names :
    (t : Target) (sc : StatusConfig) (c : ℕ) (s : Text)
    → t.uri_exact ≡ c ∷ s
    → t.uri_prefix ≡ c ∷ s
    → IsOneSided sc
    → names t sc ≡ false
unfolding names
not-names t sc c s e f (inl x) = rw (e, x, equal_fold_empty c s) refl
not-names t sc c s e f (inr x) = rw (f, x, equal_fold_empty c s) (ground arith)

find_config-none :
    (t : Target) (c : ℕ) (s : Text) (l : List StatusConfig)
    → t.uri_exact ≡ c ∷ s
    → t.uri_prefix ≡ c ∷ s
    → All IsOneSided l
    → find_config t l ≡ none
unfolding find_config
find_config-none t c s [] e f h = refl
find_config-none t c s (sc ∷ l) e f h =
    rw (not-names t sc c s e f h.0, find_config-none t c s l e f h.1)

-- Clearing one URI, as the handler clearStatus does it, looks for configs that have the URI both as
-- their exact URI and as their prefix: where each config of the port has one of the two at most,
-- nothing is cleared.
clear_uri_clears_nothing :
    (port : ℤ) (c : ℕ) (uri : Text) (m : StatusManager)
    → All IsOneSided (configs port m)
    → clear port (c ∷ uri) (c ∷ uri) m ≡ m
unfolding clear remove_status_config
clear_uri_clears_nothing port c uri m h = rw (
  find_config-none (clear_target (c ∷ uri) (c ∷ uri)) c uri (configs port m) refl refl h,
  remove_status_config,
)
