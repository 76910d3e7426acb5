-- ===== src/Tracee/Quoted.antt =====
-- ft_strace.c, `print_quoted`: which buffers a reader can recover from the printed text.
use make_strace.Common.{
  ℕ, ◌+◌, ◌-◌, ◌*◌, ◌%◌, ◌^◌, ◌<◌, ◌≡◌, ◌≢◌, refl, ap, sym, ◌∙◌, Bool, true, false, ◌&&◌, not,
  Option, none, some, [], ◌∷◌, ◌++◌, append_assoc, Bytes, leb, ◌==◌, if◌then◌else◌, arith, All,
}
use make_strace.Format.{format_u, print_base}
use make_strace.Format.Digits.{IsDigit, All-print_base, value, value-print_base, digit_value}
use make_strace.Tracee.{isprint, quote_byte, quote_loop, print_quoted}

-- A reader of quoted text: between bytes, behind a backslash, or within a decimal escape.
pub data Mode : Type 0 where
  plain : Mode
  escaped : Mode
  number : ℕ → Mode

abbrev pub is_digit : ℕ → Bool
is_digit c = leb b'0' c && leb c b'9'

abbrev pub prepend : ℕ → Option Bytes → Option Bytes
prepend c none = none
prepend c (some s) = some (c ∷ s)

abbrev pub finished : Bytes → Option Bytes
finished [] = some []
finished (c ∷ s) = none

-- Reads up to the closing quote, which ends the text.
unfoldable pub unquote : Mode → Bytes → Option Bytes
unquote mode [] = none
unquote plain (c ∷ s) = elim (c == b'"') [
  | true ↦ finished s
  | false ↦ elim (c == b'\\') [ true ↦ unquote escaped s | false ↦ prepend c (unquote plain s) ]
]
unquote escaped (c ∷ s) = elim (is_digit c) [
  | true ↦ unquote (number (c - b'0')) s
  | false ↦ prepend c (unquote plain s)
]
unquote (number n) (c ∷ s) = elim (is_digit c) [
  | true ↦ unquote (number (n * 10 + (c - b'0'))) s
  | false ↦ prepend n (elim (c == b'"') [
    | true ↦ finished s
    | false ↦ elim (c == b'\\') [ true ↦ unquote escaped s | false ↦ prepend c (unquote plain s) ]
  ])
]

unfoldable pub unquote_text : Bytes → Option Bytes
unfolding unquote
unquote_text [] = none
unquote_text (c ∷ s) = if c == b'"' then unquote plain s else none

-- No byte that is printed by its decimal code stands before a digit.
abbrev pub IsUnambiguous : Bytes → Type 0
IsUnambiguous [] = Unit
IsUnambiguous (c ∷ []) = Unit
IsUnambiguous (c ∷ d ∷ buf) = ((not (isprint c) && is_digit d) ≡ false) × IsUnambiguous (d ∷ buf)

-- The text does not go on with a digit.
abbrev StartsPlain : Bytes → Type 0
StartsPlain [] = Unit
StartsPlain (c ∷ s) = is_digit c ≡ false

unquote-number :
    (ds rest : Bytes) (n : ℕ)
    → All IsDigit ds
    → unquote (number n) (ds ++ rest) ≡ unquote (number (value 10 n ds)) rest
unfolding unquote value
unquote-number [] rest n h = refl
unquote-number (d ∷ ds) rest n h =
    ground (arith, unquote-number ds rest (n * 10 + digit_value d) h.1)

unquote-escaped :
    (ds rest : Bytes)
    → ds ≢ []
    → All IsDigit ds
    → unquote escaped (ds ++ rest) ≡ unquote (number (value 10 0 ds)) rest
unfolding unquote value
unquote-escaped [] rest e h = absurd (e refl)
unquote-escaped (d ∷ ds) rest e h = ground (arith, unquote-number ds rest (digit_value d) h.1)

unquote_after_number :
    (n : ℕ) (rest : Bytes)
    → StartsPlain rest
    → unquote (number n) rest ≡ prepend n (unquote plain rest)
unfolding unquote
unquote_after_number n [] h = refl
unquote_after_number n (c ∷ s) h = ground arith

print_base_zero : print_base 10 0 ≢ []
unfolding print_base
print_base_zero e = cc

print_base-ne-nil : (n : ℕ) → print_base 10 n ≢ []
unfolding value
print_base-ne-nil n e =
    let zero_value : 0 ≡ n =
      ap (value 10 0) (sym e) ∙ value-print_base 10 (omega arith) (omega arith) n in
    print_base_zero (rw (← zero_value) at e)

unquote-format_u :
    (c : ℕ) (rest : Bytes)
    → c < 256
    → StartsPlain rest
    → unquote escaped (format_u c ++ rest) ≡ prepend c (unquote plain rest)
unfolding format_u
unquote-format_u c rest h s = rw (small) (
    rw
      (
        unquote-escaped _ rest (print_base-ne-nil c) (All-print_base c),
        value-print_base 10 (omega arith) (omega arith) c,
      )
      (unquote_after_number c rest s))
  where
    small : c % 2 ^ 32 ≡ c
    small = omega arith

unquote-quote_byte :
    (c : ℕ) (rest : Bytes)
    → c < 256
    → (isprint c ≡ false → StartsPlain rest)
    → unquote plain (quote_byte c ++ rest) ≡ prepend c (unquote plain rest)
unfolding quote_byte unquote
unquote-quote_byte c rest h s = ground (arith, unquote-format_u c rest h)

quote_loop-StartsPlain :
    (c : ℕ) (buf : Bytes)
    → IsUnambiguous (c ∷ buf)
    → isprint c ≡ false
    → StartsPlain (quote_loop buf ++ b'"' ∷ [])
unfolding quote_loop
quote_loop-StartsPlain c [] h e = refl
quote_loop-StartsPlain c (d ∷ buf) h e = ground arith

IsUnambiguous-tail : (c : ℕ) (buf : Bytes) → IsUnambiguous (c ∷ buf) → IsUnambiguous buf
IsUnambiguous-tail c [] h = tt
IsUnambiguous-tail c (d ∷ buf) h = h.1

pub quote_loop-cons : (c : ℕ) (buf : Bytes) → quote_loop (c ∷ buf) ≡ quote_byte c ++ quote_loop buf
unfolding quote_loop
quote_loop-cons c buf = refl

unquote-end : unquote plain (b'"' ∷ []) ≡ some []
unfolding unquote
unquote-end = refl

quote_loop-nil : quote_loop [] ≡ []
unfolding quote_loop
quote_loop-nil = refl

unquote-quote_loop :
    (buf : Bytes)
    → All (λ c. c < 256) buf
    → IsUnambiguous buf
    → unquote plain (quote_loop buf ++ b'"' ∷ []) ≡ some buf
unquote-quote_loop [] b h = rw quote_loop-nil unquote-end
unquote-quote_loop (c ∷ buf) b h = rw (
  quote_loop-cons,
  append_assoc,
  unquote-quote_byte c _ b.0 (quote_loop-StartsPlain c buf h),
  unquote-quote_loop buf b.1 (IsUnambiguous-tail c buf h),
)

-- A buffer of bytes, in which no byte that is printed by its decimal code stands before a digit, is
-- recovered from what `print_quoted` prints.
pub unquote_text-print_quoted :
    (buf : Bytes)
    → All (λ c. c < 256) buf
    → IsUnambiguous buf
    → unquote_text (print_quoted buf) ≡ some buf
unfolding unquote_text print_quoted
unquote_text-print_quoted buf b h = unquote-quote_loop buf b h
