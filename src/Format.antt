-- ===== src/Format.antt =====
-- The conversions of `fprintf` that ft_strace.c uses: `%llu`, `%u`, `%llx`, `%d`, `%lld`, and a
-- text for `%s`. Fuel `suc n` is enough for the digits of `n`, which is divided in each round.
pub mod Digits
pub mod Append
use make_strace.Common.{
  ℕ, zero, suc, ◌+◌, ◌-◌, ◌/◌, ◌%◌, ◌^◌, Option, none, some, List, [], ◌∷◌, ◌++◌, Bytes, codes, ltb,
  ◌==◌, if◌then◌else◌,
}
use make_strace.Common.Int.{ℤ, pos, negsuc, int32, int64}

-- '0' to '9', then 'a' to 'f'.
unfoldable pub digit : ℕ → ℕ
digit d = if ltb d 10 then b'0' + d else b'a' + (d - 10)

unfoldable pub digits : ℕ → ℕ → ℕ → Bytes → Bytes
unfolding digit
digits base zero n out = out
digits base (suc f) n out =
    let rest = digits base f (n / base) (digit (n % base) ∷ out) in if n == 0 then out else rest

unfoldable pub print_base : ℕ → ℕ → Bytes
unfolding digits
print_base base n = if n == 0 then b'0' ∷ [] else digits base (suc n) n []

-- `%llu` of a 64-bit word.
unfoldable pub format_llu : ℕ → Bytes
format_llu v = print_base 10 (v % 2 ^ 64)

-- `%u` of `(unsigned)v`.
unfoldable pub format_u : ℕ → Bytes
format_u v = print_base 10 (v % 2 ^ 32)

-- `0x%llx`.
unfoldable pub format_hex : ℕ → Bytes
format_hex v = codes "0x" ++ print_base 16 (v % 2 ^ 64)

unfoldable pub format_signed : ℤ → Bytes
format_signed (pos n) = print_base 10 n
format_signed (negsuc n) = b'-' ∷ print_base 10 (suc n)

-- `%d` of `(int)v`.
unfoldable pub format_d : ℕ → Bytes
format_d v = format_signed (int32 v)

-- `%s`: the C library prints a null pointer as `(null)`.
unfoldable pub format_s : Option Bytes → Bytes
format_s none = codes "(null)"
format_s (some s) = s
