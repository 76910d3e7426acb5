-- ===== src/Syscall/Numbers.antt =====
-- ft_strace.c, `print_arg` on the arguments that are printed as numbers: the number is read back from
-- the text, in the width and the sign of the argument's type.
use mathlib.Core.Path.{subst}
use make_strace.Common.{
  ℕ, zero, suc, ◌%◌, ◌^◌, ◌<◌, ◌≡◌, refl, ap, ◌∙◌, Bool, Option, none, some, [], ◌∷◌, Bytes, drop,
  ◌==◌, if◌then◌else◌, arith, All,
}
use make_strace.Common.Int.{ℤ, pos, negsuc, int32, int64}
use make_strace.Format.{print_base, format_llu, format_u, format_hex, format_d, format_signed}
use make_strace.Format.Digits.{value, value-print_base, IsDigit, All-print_base}
use make_strace.Table.{
  ArgType, arg_str, arg_input_bytes, arg_output_bytes, arg_vstr, arg_flags, arg_size, arg_offset,
  arg_signal, arg_struct_ptr, arg_ptr, arg_uint, arg_ulong, arg_long,
}
use make_strace.Tracee.{VmReadv}
use make_strace.Registers.{SyscallArgs}
use make_strace.Syscall.{print_arg, format_long, arg_at}

-- How a type's number is written: signed or unsigned decimal, or hexadecimal.
pub data Notation : Type 0 where
  signed unsigned hexadecimal : Notation

-- The notation of a type, with the number that an argument of 64 bits stands for in it; `none` for
-- the types that are read out of memory.
abbrev pub number_of : Bool → ℕ → ArgType → Option (Notation × ℤ)
number_of compat v arg_input_bytes = none
number_of compat v arg_output_bytes = none
number_of compat v arg_str = none
number_of compat v arg_vstr = none
number_of compat v arg_offset = some (signed, if compat then int32 v else int64 v)
number_of compat v arg_long = some (signed, if compat then int32 v else int64 v)
number_of compat v arg_size = some (unsigned, pos v)
number_of compat v arg_uint = some (unsigned, pos (v % 2 ^ 32))
number_of compat v arg_flags = some (hexadecimal, pos v)
number_of compat v arg_signal = some (hexadecimal, pos v)
number_of compat v arg_struct_ptr = some (hexadecimal, pos v)
number_of compat v arg_ptr = some (hexadecimal, pos v)
number_of compat v arg_ulong = some (hexadecimal, pos v)
number_of compat v _ = some (signed, int32 v)

abbrev negate : ℕ → ℤ
negate zero = pos 0
negate (suc n) = negsuc n

-- Reads a number in a notation.
unfoldable pub read_number : Notation → Bytes → ℤ
unfolding value
read_number signed [] = pos 0
read_number signed (c ∷ s) = if c == b'-' then negate (value 10 0 s) else pos (value 10 0 (c ∷ s))
read_number unsigned s = pos (value 10 0 s)
read_number hexadecimal s = pos (value 16 0 (drop 2 s))

read_digits : (s : Bytes) → All IsDigit s → read_number signed s ≡ pos (value 10 0 s)
unfolding read_number
read_digits [] h = refl
read_digits (c ∷ s) h = ground arith

read_number-format_signed : (z : ℤ) → read_number signed (format_signed z) ≡ z
unfolding format_signed
read_number-format_signed (pos n) =
    read_digits (print_base 10 n) (All-print_base n)
    ∙ ap pos (value-print_base 10 (omega arith) (omega arith) n)
read_number-format_signed (negsuc n) =
    unfold read_number in ap negate (value-print_base 10 (omega arith) (omega arith) (suc n))

read_number-format_llu : (v : ℕ) → v < 2 ^ 64 → read_number unsigned (format_llu v) ≡ pos v
unfolding read_number format_llu
read_number-format_llu v h =
    ap pos (value-print_base 10 (omega arith) (omega arith) (v % 2 ^ 64) ∙ omega arith)

read_number-format_u : (v : ℕ) → read_number unsigned (format_u v) ≡ pos (v % 2 ^ 32)
unfolding read_number format_u
read_number-format_u v = ap pos (value-print_base 10 (omega arith) (omega arith) (v % 2 ^ 32))

read_number-format_hex : (v : ℕ) → v < 2 ^ 64 → read_number hexadecimal (format_hex v) ≡ pos v
unfolding read_number format_hex
read_number-format_hex v h =
    ap pos (value-print_base 16 (omega arith) (omega arith) (v % 2 ^ 64) ∙ omega arith)

-- A text reads back as a number, if one is given.
abbrev ReadsBack : Option (Notation × ℤ) → Bytes → Type 0
ReadsBack none text = Unit
ReadsBack (some (notation, number)) text = read_number notation text ≡ number

print_arg-ReadsBack :
    (vm : VmReadv) (pid : ℕ) (args : SyscallArgs) (index : ℕ) (type : ArgType) (result : ℤ)
    → arg_at args index < 2 ^ 64
    → ReadsBack
        (number_of args.compat (arg_at args index) type)
        (print_arg vm pid args index type result)
unfolding print_arg format_long format_d
print_arg-ReadsBack vm pid args index arg_input_bytes result h = tt
print_arg-ReadsBack vm pid args index arg_output_bytes result h = tt
print_arg-ReadsBack vm pid args index arg_str result h = tt
print_arg-ReadsBack vm pid args index arg_vstr result h = tt
print_arg-ReadsBack vm pid args index arg_offset result h = read_number-format_signed _
print_arg-ReadsBack vm pid args index arg_long result h = read_number-format_signed _
print_arg-ReadsBack vm pid args index arg_size result h = read_number-format_llu _ h
print_arg-ReadsBack vm pid args index arg_uint result h = read_number-format_u _
print_arg-ReadsBack vm pid args index arg_flags result h = read_number-format_hex _ h
print_arg-ReadsBack vm pid args index arg_signal result h = read_number-format_hex _ h
print_arg-ReadsBack vm pid args index arg_struct_ptr result h = read_number-format_hex _ h
print_arg-ReadsBack vm pid args index arg_ptr result h = read_number-format_hex _ h
print_arg-ReadsBack vm pid args index arg_ulong result h = read_number-format_hex _ h
print_arg-ReadsBack vm pid args index _ result h = read_number-format_signed _

-- Of an argument below 2 ^ 64 that is printed as a number, the text reads back, in its type's
-- notation, as the number that the argument stands for: all 64 bits of a size, a pointer or flags, and
-- of an offset or a long outside compat mode; the low 32 bits, signed, of an offset or a long in
-- compat mode and of the integer types; and the low 32 bits, unsigned, of an `ARG_UINT`.
pub read_number-print_arg :
    (vm : VmReadv) (pid : ℕ) (args : SyscallArgs) (index : ℕ) (type : ArgType) (result : ℤ)
    (notation : Notation) (number : ℤ)
    → arg_at args index < 2 ^ 64
    → number_of args.compat (arg_at args index) type ≡ some (notation, number)
    → read_number notation (print_arg vm pid args index type result) ≡ number
read_number-print_arg vm pid args index type result notation number h e =
    subst (λ found. ReadsBack found (print_arg vm pid args index type result)) e
      (print_arg-ReadsBack vm pid args index type result h)
