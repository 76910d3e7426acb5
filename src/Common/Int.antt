-- ===== src/Common/Int.antt =====
-- Signed integers over the native numbers, and the C conversions of words to them.
use make_strace.Common.Tests.{ltb, if◌then◌else◌}
use Prim.Native.Nat.{ℕ, suc, ◌-◌, ◌^◌, ◌%◌}
use mathlib.Core.Bool.{Bool, true, false}

-- `negsuc n` is -(n + 1).
pub data ℤ : Type 0 where
  pos : ℕ → ℤ
  negsuc : ℕ → ℤ

abbrev pub is_negative : ℤ → Bool
is_negative (pos n) = false
is_negative (negsuc n) = true

-- -x as a natural number, for a negative x; 0 otherwise.
abbrev pub magnitude : ℤ → ℕ
magnitude (pos n) = 0
magnitude (negsuc n) = suc n

-- x as a natural number, for an x that is not negative; 0 otherwise.
abbrev pub to_nat : ℤ → ℕ
to_nat (pos n) = n
to_nat (negsuc n) = 0

-- `(int32_t)v`: the low 32 bits in two's complement.
abbrev pub int32 : ℕ → ℤ
int32 v = let w = v % 2 ^ 32 in if ltb w (2 ^ 31) then pos w else negsuc (2 ^ 32 - w - 1)

-- `(long long)v` of a 64-bit word.
abbrev pub int64 : ℕ → ℤ
int64 v = let w = v % 2 ^ 64 in if ltb w (2 ^ 63) then pos w else negsuc (2 ^ 64 - w - 1)
