-- ===== src/Prelude/Strings.antt =====
-- Text as its bytes, which are ASCII: what the code uses of Go's package strings.
use Prim.Native.Nat.{ℕ, ◌+◌}
use Prim.Native.Char.{code}
use Prim.Native.String.{String}
use mathlib.Core.Path.{◌≡◌, refl, ap₂}
use mathlib.Core.Logic.{◌↔◌}
use mathlib.Core.Bool.{Bool, true, false, ◌&&◌, ◌||◌}
use mathlib.Core.List.{List, [], ◌∷◌}
use native.Mathlib.Omega.{arith}
use goto.Prelude.Tests.{leb, nat_beq, if◌then◌else◌, Eq}

abbrev pub Text : Type 0
Text = List ℕ

-- A text that the source writes as a literal.
abbrev pub codes : String → Text
codes (String.◌∷◌ letter rest) = code letter ∷ codes rest
codes String.[] = []

pub text_beq : Text → Text → Bool
text_beq [] [] = true
text_beq [] (d ∷ t) = false
text_beq (c ∷ s) [] = false
text_beq (c ∷ s) (d ∷ t) = nat_beq c d && text_beq s t

text_beq→eq : (s t : Text) → text_beq s t ≡ true → s ≡ t
unfolding text_beq
text_beq→eq [] [] h = refl
text_beq→eq [] (d ∷ t) h = cc
text_beq→eq (c ∷ s) [] h = cc
text_beq→eq (c ∷ s) (d ∷ t) h = ground (arith, text_beq→eq s t)

text_beq_refl : (s : Text) → text_beq s s ≡ true
unfolding text_beq
text_beq_refl [] = refl
text_beq_refl (c ∷ s) = ground (arith, text_beq_refl s)

pub text_beq_iff : (s t : Text) → (text_beq s t ≡ true) ↔ (s ≡ t)
text_beq_iff s t = (text_beq→eq s t, λ e. rw e (text_beq_refl t))

instance unfoldable pub text_eq : Eq Text
unfolding text_beq
text_eq = record { same = text_beq; decides = text_beq_iff }

lower_byte : ℕ → ℕ
lower_byte c = if leb b'A' c && leb c b'Z' then c + 32 else c

lower_byte_idem : (c : ℕ) → lower_byte (lower_byte c) ≡ lower_byte c
unfolding lower_byte
lower_byte_idem c = ground arith

-- strings.ToLower
unfoldable pub to_lower : Text → Text
unfolding lower_byte
to_lower [] = []
to_lower (c ∷ s) = lower_byte c ∷ to_lower s

pub to_lower_idem : (s : Text) → to_lower (to_lower s) ≡ to_lower s
unfolding to_lower
to_lower_idem [] = refl
to_lower_idem (c ∷ s) = ap₂ (λ (d : ℕ) (t : Text). d ∷ t) (lower_byte_idem c) (to_lower_idem s)

-- strings.EqualFold
unfoldable pub equal_fold : Text → Text → Bool
unfolding text_beq
equal_fold s t = text_beq (to_lower s) (to_lower t)

-- strings.HasPrefix s p
unfoldable pub has_prefix : Text → Text → Bool
has_prefix s [] = true
has_prefix [] (d ∷ p) = false
has_prefix (c ∷ s) (d ∷ p) = nat_beq c d && has_prefix s p

-- strings.Contains s p
unfoldable pub contains : Text → Text → Bool
unfolding has_prefix
contains [] p = has_prefix [] p
contains (c ∷ s) p = has_prefix (c ∷ s) p || contains s p

pub equal_fold_iff : (s t : Text) → (equal_fold s t ≡ true) ↔ (to_lower s ≡ to_lower t)
unfolding equal_fold
equal_fold_iff s t = text_beq_iff (to_lower s) (to_lower t)

pub equal_fold_refl : (s : Text) → equal_fold s s ≡ true
equal_fold_refl s = (equal_fold_iff s s).1 refl

pub equal_fold-to_lower : (s t : Text) → equal_fold (to_lower s) t ≡ equal_fold s t
unfolding equal_fold
equal_fold-to_lower s t = rw (to_lower_idem s) refl

pub equal_fold_sym : (s t : Text) → equal_fold s t ≡ equal_fold t s
equal_fold_sym s t = ground (arith, equal_fold_iff s t, equal_fold_iff t s)

-- The text in front of the first `sep`: strings.Split(s, sep)[0].
unfoldable pub before : Text → Text → Text
unfolding has_prefix
before sep [] = []
before sep (c ∷ s) = let rest = before sep s in if has_prefix (c ∷ s) sep then [] else c ∷ rest

pub equal_fold_empty : (c : ℕ) (s : Text) → equal_fold [] (c ∷ s) ≡ false
unfolding equal_fold to_lower
equal_fold_empty c s = refl
