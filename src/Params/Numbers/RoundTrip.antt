-- ===== src/Params/Numbers/RoundTrip.antt =====
-- Reading back what strconv.Itoa prints.
use goto.Prelude.{
  ℕ, zero, suc, ◌+◌, ◌-◌, ◌*◌, ◌/◌, ◌%◌, ◌≤◌, ◌<◌, ◌≡◌, refl, [], ◌∷◌, arith, ltb, ℤ, pos, negsuc,
  Text, Bool, true, false, ◌∙◌, Bool-cases, inl, inr,
}
use goto.Params.Numbers.{
  parse_digits, number, digits_onto, parse_int, parse_unsigned, signed, parsed, atoi, itoa, IsInt64,
  half_64,
}

parse-digits_onto :
    (max_val f n : ℕ) (acc : Text)
    → n < f
    → n ≤ max_val
    → parse_digits max_val 0 (digits_onto f n acc) ≡ parse_digits max_val n acc
unfolding parse_digits digits_onto
parse-digits_onto max_val zero n acc h k = absurd (omega arith)
parse-digits_onto max_val (suc f) n acc h k =
    ground (arith, parse-digits_onto max_val f (n / 10) ((n % 10 + 48) ∷ acc))

digits_onto-head :
    (f n : ℕ) (acc : Text)
    → n < f
    → (c : ℕ) × (s : Text) × (digits_onto f n acc ≡ c ∷ s) × (48 ≤ c) × (c < 58)
unfolding digits_onto
digits_onto-head zero n acc h = absurd (omega arith)
digits_onto-head (suc f) n acc h = elim (Bool-cases (ltb n 10)) [
  | inl small ↦ (n + 48, acc, rw small, omega arith, ground arith)
  | inr large ↦ rw large (digits_onto-head f (n / 10) ((n % 10 + 48) ∷ acc) (ground arith))
]

parse_unsigned-cons :
    (half n c : ℕ) (neg : Bool) (s : Text)
    → parse_digits (half * 2 - 1) 0 (c ∷ s) ≡ number n
    → parse_unsigned half neg (c ∷ s) ≡ signed half neg n
unfolding parse_unsigned
parse_unsigned-cons half n c neg s e = rw (e, parse_unsigned)

parse-digits :
    (max_val n : ℕ) → n ≤ max_val → parse_digits max_val 0 (digits_onto (suc n) n []) ≡ number n
parse-digits max_val n h =
    parse-digits_onto max_val (suc n) n [] (omega arith) h ∙ (unfold parse_digits in refl)

-- The digits are read back, whatever sign stood in front of them.
parse_unsigned-digits :
    (half n : ℕ) (neg : Bool)
    → n ≤ half * 2 - 1
    → parse_unsigned half neg (digits_onto (suc n) n []) ≡ signed half neg n
parse_unsigned-digits half n neg h =
    let (c, s, e, lo, hi) = digits_onto-head (suc n) n [] (omega arith) in
    rw e (parse_unsigned-cons half n c neg s (rw (← e) (parse-digits (half * 2 - 1) n h)))

-- A digit is no sign.
parse_int-digit :
    (half c : ℕ) (s : Text) → 48 ≤ c → parse_int half (c ∷ s) ≡ parse_unsigned half false (c ∷ s)
unfolding parse_int
parse_int-digit half c s h = ground arith

parse_int-digits :
    (half n : ℕ)
    → parse_int half (digits_onto (suc n) n [])
      ≡ parse_unsigned half false (digits_onto (suc n) n [])
parse_int-digits half n =
    let (c, s, e, lo, hi) = digits_onto-head (suc n) n [] (omega arith) in
    rw e (parse_int-digit half c s lo)

parse_int-minus : (half : ℕ) (s : Text) → parse_int half (45 ∷ s) ≡ parse_unsigned half true s
unfolding parse_int
parse_int-minus half s = refl

-- Atoi reads back every 64-bit number that Itoa prints.
pub atoi-itoa : (n : ℤ) → IsInt64 n → atoi (itoa n) ≡ parsed n
unfolding atoi itoa signed
atoi-itoa (pos n) h =
    parse_int-digits half_64 n ∙ parse_unsigned-digits half_64 n false (omega arith) ∙ ground arith
atoi-itoa (negsuc n) h =
    parse_int-minus half_64 (digits_onto (suc (suc n)) (suc n) [])
    ∙ parse_unsigned-digits half_64 (suc n) true (omega arith)
    ∙ ground arith
