-- ===== src/Params/Numbers.antt =====
-- strconv.ParseInt in base 10, strconv.Atoi and strconv.Itoa, as pkg/util uses them.
pub mod RoundTrip
use goto.Prelude.{
  ℕ, zero, suc, ◌+◌, ◌-◌, ◌*◌, ◌/◌, ◌%◌, ◌^◌, ◌≤◌, ◌<◌, ◌≡◌, refl, Bool, true, false, ◌&&◌, ◌||◌,
  List, [], ◌∷◌, ◌++◌, arith, ltb, leb, nat_beq, if◌then◌else◌, ℤ, pos, negsuc, sub_ℕ, Text, codes,
}

-- The value that comes back beside an error: a syntax error gives 0, a value out of range the bound.
pub data Parsed : Type 0 where
  parsed : ℤ → Parsed
  bad_syntax : Parsed
  out_of_range : ℤ → Parsed

pub data Digits : Type 0 where
  number : ℕ → Digits
  not_a_digit : Digits
  too_large : Digits

-- strconv.ParseUint: the loop over the digits, which stops at the first value past the maximum.
unfoldable pub parse_digits : ℕ → ℕ → Text → Digits
parse_digits max_val n [] = number n
parse_digits max_val n (c ∷ s) =
    let n' = n * 10 + (c - b'0') in
    let rest = parse_digits max_val n' s in
    if leb b'0' c && leb c b'9' then (if ltb max_val n' then too_large else rest) else not_a_digit

unfoldable pub signed : ℕ → Bool → ℕ → Parsed
signed half false n = if ltb n half then parsed (pos n) else out_of_range (pos (half - 1))
signed half true n = if leb n half then parsed (sub_ℕ 0 n) else out_of_range (sub_ℕ 0 half)

unfoldable pub parse_unsigned : ℕ → Bool → Text → Parsed
parse_unsigned half neg [] = bad_syntax
parse_unsigned half neg (c ∷ s) = elim (parse_digits (half * 2 - 1) 0 (c ∷ s)) [
  | number n ↦ signed half neg n
  | not_a_digit ↦ bad_syntax
  | too_large ↦ signed half neg (half * 2 - 1)
]

-- strconv.ParseInt(s, 10, bits), `half` being 2 ^ (bits - 1).
unfoldable pub parse_int : ℕ → Text → Parsed
parse_int half [] = bad_syntax
parse_int half (c ∷ s) =
    if nat_beq c b'+'
    then parse_unsigned half false s
    else if nat_beq c b'-'
    then parse_unsigned half true s
    else parse_unsigned half false (c ∷ s)

-- `n, _ := strconv.ParseInt(…)` takes the value that stands beside the error.
abbrev pub value : Parsed → ℤ
value (parsed n) = n
value bad_syntax = pos 0
value (out_of_range n) = n

abbrev pub half_32 : ℕ
half_32 = 2 ^ 31

abbrev pub half_64 : ℕ
half_64 = 2 ^ 63

unfoldable pub atoi : Text → Parsed
atoi s = parse_int half_64 s

-- The decimal digits of n in front of `acc`, on fuel; a fuel above n is enough.
unfoldable pub digits_onto : ℕ → ℕ → Text → Text
digits_onto zero n acc = acc
digits_onto (suc f) n acc =
    let more = digits_onto f (n / 10) ((n % 10 + b'0') ∷ acc) in
    if ltb n 10 then (n + b'0') ∷ acc else more

unfoldable pub itoa : ℤ → Text
itoa (pos n) = digits_onto (suc n) n []
itoa (negsuc n) = b'-' ∷ digits_onto (suc (suc n)) (suc n) []

-- A Go `int` of 64 bits.
abbrev pub IsInt64 : ℤ → Type 0
IsInt64 (pos n) = n < 9223372036854775808
IsInt64 (negsuc n) = n < 9223372036854775808

atoi_runs :
    (atoi (codes "8080") ≡ parsed (pos 8080))
    × (atoi (codes "-12") ≡ parsed (negsuc 11))
    × (atoi (codes "1x") ≡ bad_syntax)
    × (parse_int half_32 (codes "4294967296x") ≡ out_of_range (pos 2147483647))
    × (itoa (pos 8080) ≡ codes "8080")
unfolding atoi itoa parse_int parse_unsigned parse_digits signed digits_onto
atoi_runs = (refl, refl, refl, refl, refl)
