-- ===== src/Util/Bencode/Decimal.antt =====
-- Numbers printed and read in decimal, as llarp/util/bencode.cpp does through the C library.
use native.Mathlib.Nat.{pow-suc}
use lokinet.Base.Bytes.{Bytes}
use lokinet.Base.{
  ℕ, zero, suc, ◌+◌, ◌*◌, ◌/◌, ◌%◌, ◌^◌, ◌<◌, ◌≤◌, ◌≡◌, refl, true, false, [], ◌∷◌, ltb, length,
  arith, All, Bool-cases, inl, inr, ap, ◌∙◌,
}
use lokinet.Util.Bencode.{digits, decimal, value_from, is_digit, skip_spaces, parse_number}

digits_last : (f n : ℕ) (rest : Bytes) → ltb n 10 ≡ true → digits (suc f) n rest ≡ (b'0' + n) ∷ rest
unfolding digits
digits_last f n rest e = rw (e, digits) refl

digits_more :
    (f n : ℕ) (rest : Bytes)
    → ltb n 10 ≡ false
    → digits (suc f) n rest ≡ digits f (n / 10) ((b'0' + n % 10) ∷ rest)
unfolding digits
digits_more f n rest e = rw (e, digits) refl

digit_is_digit : (d : ℕ) → d < 10 → is_digit (b'0' + d) ≡ true
digit_is_digit d h = ground arith

value_from_digit :
    (acc d : ℕ) (rest : Bytes)
    → d < 10
    → value_from acc ((b'0' + d) ∷ rest) ≡ value_from (acc * 10 + d) rest
unfolding value_from
value_from_digit acc d rest h =
    rw (digit_is_digit d h, value_from) (ap (λ (x : ℕ). value_from x rest) (omega arith))

positive : (f n : ℕ) → n < 10 ^ suc f → 10 ≤ n → 0 < f
positive zero n h q = absurd (omega arith)
positive (suc f) n h q = omega arith

pub value_from-digits :
    (f n : ℕ) (rest : Bytes)
    → n < 10 ^ f
    → 0 < f
    → value_from 0 (digits f n rest) ≡ value_from n rest
value_from-digits zero n rest h p = absurd (omega arith)
value_from-digits (suc f) n rest h p = elim (Bool-cases (ltb n 10)) [
  | inl one ↦
      rw (digits_last f n rest one)
        (value_from_digit 0 n rest (ground arith) ∙ ap (λ (x : ℕ). value_from x rest) (omega arith))
  | inr more ↦ rw (digits_more f n rest more) (
      value_from-digits f (n / 10) _ (omega (arith, pow-suc 10 f)) (positive f n h (ground arith))
      ∙ value_from_digit (n / 10) (n % 10) rest (omega arith)
      ∙ ap (λ (x : ℕ). value_from x rest) (omega arith))
]

-- Only digits, at least one, and at most as many as there is fuel.
pub digits-All :
    (f n : ℕ) (rest : Bytes)
    → All (λ c. is_digit c ≡ true) rest
    → All (λ c. is_digit c ≡ true) (digits f n rest)
digits-All zero n rest h = unfold digits in h
digits-All (suc f) n rest h = elim (Bool-cases (ltb n 10)) [
  | inl one ↦ rw (digits_last f n rest one) (digit_is_digit n (ground arith), h)
  | inr more ↦
      rw (digits_more f n rest more)
        (digits-All f (n / 10) _ (digit_is_digit (n % 10) (omega arith), h))
]

pub length-digits : (f n : ℕ) (rest : Bytes) → length (digits f n rest) ≤ f + length rest
length-digits zero n rest = unfold digits in omega arith
length-digits (suc f) n rest = elim (Bool-cases (ltb n 10)) [
  | inl one ↦ rw (digits_last f n rest one) (omega arith)
  | inr more ↦
      rw (digits_more f n rest more)
        (omega (arith, length-digits f (n / 10) ((b'0' + n % 10) ∷ rest)))
]

digits_grow : (f n : ℕ) (rest : Bytes) → length rest ≤ length (digits f n rest)
digits_grow zero n rest = unfold digits in omega arith
digits_grow (suc f) n rest = elim (Bool-cases (ltb n 10)) [
  | inl one ↦ rw (digits_last f n rest one) (omega arith)
  | inr more ↦
      rw (digits_more f n rest more)
        (omega (arith, digits_grow f (n / 10) ((b'0' + n % 10) ∷ rest)))
]

pub length-decimal_pos : (n : ℕ) → 0 < length (decimal n)
unfolding decimal
length-decimal_pos n = elim (Bool-cases (ltb n 10)) [
  | inl one ↦ rw (digits_last 19 n [] one) (omega arith)
  | inr more ↦
      rw (digits_more 19 n [] more) (omega (arith, digits_grow 19 (n / 10) ((b'0' + n % 10) ∷ [])))
]

pub length-decimal_le : (n : ℕ) → length (decimal n) ≤ 20
unfolding decimal
length-decimal_le n = omega (arith, length-digits 20 n [])

-- A short number has few digits.
digits_short :
    (f k n : ℕ) (rest : Bytes) → n < 10 ^ k → 0 < k → length (digits f n rest) ≤ k + length rest
digits_short f zero n rest h p = absurd (omega arith)
digits_short zero (suc k) n rest h p = unfold digits in omega arith
digits_short (suc f) (suc k) n rest h p = elim (Bool-cases (ltb n 10)) [
  | inl one ↦ rw (digits_last f n rest one) (omega arith)
  | inr more ↦ rw (digits_more f n rest more) (
      omega (
        arith,
        digits_short f k (n / 10) ((b'0' + n % 10) ∷ rest) (omega (arith, pow-suc 10 k))
            (positive k n h (ground arith)),
      ))
]

pub length-decimal_short : (n : ℕ) → n < 10 ^ 9 → length (decimal n) ≤ 9
unfolding decimal
length-decimal_short n h = omega (arith, digits_short 20 9 n [] h)

pub decimal-All : (n : ℕ) → All (λ c. is_digit c ≡ true) (decimal n)
unfolding decimal
decimal-All n = digits-All 20 n [] tt

-- What begins with a digit has no white space and no sign to be skipped.
plain_number :
    (text : Bytes)
    → All (λ c. is_digit c ≡ true) text
    → 0 < length text
    → parse_number text ≡ (false, value_from 0 text)
unfolding parse_number skip_spaces
plain_number [] a h = absurd (omega arith)
plain_number (c ∷ cs) a h = ground (arith, a.0)

pub parse_number-decimal : (n : ℕ) → n < 10 ^ 20 → parse_number (decimal n) ≡ (false, n)
unfolding decimal value_from
parse_number-decimal n h =
    plain_number (decimal n) (decimal-All n) (length-decimal_pos n)
    ∙ ap (λ (x : ℕ). (false, x)) (value_from-digits 20 n [] h (omega arith))
