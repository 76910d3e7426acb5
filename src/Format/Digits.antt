-- ===== src/Format/Digits.antt =====
-- The digits that `fprintf` writes spell the number back, and are digits.
use native.Mathlib.Nat.{div-add-mod}
use make_strace.Common.{
  ℕ, zero, suc, ◌+◌, ◌-◌, ◌*◌, ◌/◌, ◌%◌, ◌≤◌, ◌<◌, ◌≡◌, ◌∙◌, ap, [], ◌∷◌, Bytes, ltb, ◌==◌,
  if◌then◌else◌, arith, All, Bool-cases, inl, inr,
}
use make_strace.Format.{digit, digits, print_base}

-- The value of a digit, of either case that `digit` writes.
unfoldable pub digit_value : ℕ → ℕ
digit_value c = if ltb c b'a' then c - b'0' else c - b'a' + 10

-- The number that digits spell behind `acc`.
unfoldable pub value : ℕ → ℕ → Bytes → ℕ
unfolding digit_value
value base acc [] = acc
value base acc (c ∷ s) = value base (acc * base + digit_value c) s

digit_value-digit : (d : ℕ) → d < 16 → digit_value (digit d) ≡ d
unfolding digit_value digit
digit_value-digit d h = ground arith

pub div_smaller : (base n f : ℕ) → 1 < base → 0 < n → n < suc f → n / base < f
div_smaller base n f h k l = grind arith

last_digit : (base n : ℕ) → n / base * base + n % base ≡ n
last_digit base n = omega (arith, div-add-mod n base)

module _ (base : ℕ) (small : 1 < base) (fits : base ≤ 16) where
  value_last :
      (n : ℕ) (out : Bytes) → value base (n / base) (digit (n % base) ∷ out) ≡ value base n out
  unfolding value
  value_last n out =
      ap (λ k. value base k out)
        (ap (λ d. n / base * base + d) (digit_value-digit (n % base) (omega arith))
          ∙ last_digit base n)

  pub value-digits :
      (f n : ℕ) (out : Bytes) → n < f → value base 0 (digits base f n out) ≡ value base n out
  unfolding digits
  value-digits zero n out h = elim h [ ]
  value-digits (suc f) n out h = elim (Bool-cases (n == 0)) [
    | inl e ↦ rw e (ap (λ k. value base k out) (ground arith))
    | inr e ↦ rw e (
        value-digits f (n / base) (digit (n % base) ∷ out)
          (div_smaller base n f small (ground arith) h)
        ∙ value_last n out)
  ]

  -- Reading back what was printed gives the number.
  pub value-print_base : (n : ℕ) → value base 0 (print_base base n) ≡ n
  unfolding print_base value
  value-print_base n = elim (Bool-cases (n == 0)) [
    | inl e ↦ rw e (ground arith)
    | inr e ↦ rw e (rw e at (value-digits (suc n) n [] (omega arith)))
  ]

-- A decimal digit.
abbrev pub IsDigit : ℕ → Type 0
IsDigit c = (b'0' ≤ c) × (c ≤ b'9')

All-digits : (f n : ℕ) (out : Bytes) → All IsDigit out → All IsDigit (digits 10 f n out)
unfolding digits
All-digits zero n out h = h
All-digits (suc f) n out h = elim (Bool-cases (n == 0)) [
  | inl e ↦ rw e h
  | inr e ↦
      rw e (All-digits f (n / 10) (digit (n % 10) ∷ out) (decimal_digit (n % 10) (omega arith), h))
]
  where
    decimal_digit : (d : ℕ) → d < 10 → IsDigit (digit d)
    decimal_digit d h = ground arith

-- A decimal print holds digits only.
pub All-print_base : (n : ℕ) → All IsDigit (print_base 10 n)
unfolding print_base
All-print_base n = elim (Bool-cases (n == 0)) [
  | inl e ↦ rw e (omega arith)
  | inr e ↦ rw e (rw e at (All-digits (suc n) n [] tt))
]
