-- ===== src/Format/Append.antt =====
-- A further decimal digit is printed behind the digits before it.
use make_strace.Common.{
  ℕ, zero, suc, ◌+◌, ◌*◌, ◌/◌, ◌%◌, ◌<◌, ◌≡◌, refl, sym, ◌∙◌, ap, [], ◌∷◌, ◌++◌, append_assoc,
  Bytes, ◌==◌, arith, Bool-cases, inl, inr,
}
use make_strace.Format.{digit, digits, print_base}
use make_strace.Format.Digits.{div_smaller}

digits-append : (base f n : ℕ) (out : Bytes) → digits base f n out ≡ digits base f n [] ++ out
unfolding digits
digits-append base zero n out = refl
digits-append base (suc f) n out = elim (Bool-cases (n == 0)) [
  | inl e ↦ rw e
  | inr e ↦ rw e (
      digits-append base f (n / base) (digit (n % base) ∷ out)
      ∙ sym (
          ap (λ s. s ++ out) (digits-append base f (n / base) (digit (n % base) ∷ []))
          ∙ append_assoc (digits base f (n / base) []) (digit (n % base) ∷ []) out))
]

-- Any fuel above the number gives the same digits.
digits_fuel :
    (base f g n : ℕ) (out : Bytes)
    → 1 < base
    → n < f
    → n < g
    → digits base f n out ≡ digits base g n out
unfolding digits
digits_fuel base zero g n out s h k = elim h [ ]
digits_fuel base (suc f) zero n out s h k = elim k [ ]
digits_fuel base (suc f) (suc g) n out s h k = elim (Bool-cases (n == 0)) [
  | inl e ↦ rw e
  | inr e ↦ rw e (
      digits_fuel base f g (n / base) (digit (n % base) ∷ out) s
        (div_smaller base n f s (ground arith) h) (div_smaller base n g s (ground arith) k))
]

digits_step :
    (base f n : ℕ) (out : Bytes)
    → 0 < n
    → digits base (suc f) n out ≡ digits base f (n / base) (digit (n % base) ∷ out)
unfolding digits
digits_step base f n out h = ground arith

print_base-pos : (base n : ℕ) → 0 < n → print_base base n ≡ digits base (suc n) n []
unfolding print_base
print_base-pos base n h = ground arith

pub print_base-append :
    (b d : ℕ) → 0 < b → d < 10 → print_base 10 (10 * b + d) ≡ print_base 10 b ++ digit d ∷ []
print_base-append b d p l =
    print_base-pos 10 n (omega arith)
    ∙ digits_step 10 n n [] (omega arith)
    ∙ ap (λ m. digits 10 n m (digit (n % 10) ∷ [])) quotient
    ∙ ap (λ m. digits 10 n b (digit m ∷ [])) remainder
    ∙ digits_fuel 10 n (suc b) b (digit d ∷ []) (omega arith) (omega arith) (omega arith)
    ∙ digits-append 10 (suc b) b (digit d ∷ [])
    ∙ ap (λ s. s ++ digit d ∷ []) (sym (print_base-pos 10 b p))
  where
    n : ℕ
    n = 10 * b + d

    quotient : n / 10 ≡ b
    quotient = omega arith

    remainder : n % 10 ≡ d
    remainder = omega arith
