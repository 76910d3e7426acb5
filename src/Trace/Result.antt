-- ===== src/Trace/Result.antt =====
-- ft_strace.c, `trace`: the result of a call, and the whole line of one call.
use make_strace.Common.{
  ℕ, ◌+◌, ◌^◌, ◌≤◌, ◌<◌, ◌≡◌, Bool, true, false, ◌++◌, codes, arith, if◌then◌else◌,
}
use make_strace.Common.Int.{ℤ, int32, int64, magnitude}
use make_strace.Format.{format_hex}
use make_strace.Registers.{SyscallArgs}
use make_strace.Trace.{Libc, newline, is_errno, print_result}

-- The number of words of a register of the mode.
abbrev pub word_mod : Bool → ℕ
word_mod true = 2 ^ 32
word_mod false = 2 ^ 64

-- The register as `result` reads it.
abbrev signed : Bool → ℕ → ℤ
signed compat rax = if compat then int32 rax else int64 rax

signed_error :
    (compat : Bool) (rax errno : ℕ)
    → 0 < errno
    → errno ≤ 4095
    → rax + errno ≡ word_mod compat
    → (is_errno (signed compat rax) ≡ true) × (magnitude (signed compat rax) ≡ errno)
signed_error true rax errno lo hi e = ground arith
signed_error false rax errno lo hi e = ground arith

signed_other :
    (compat : Bool) (rax : ℕ)
    → rax < word_mod compat
    → rax + 4095 < word_mod compat
    → is_errno (signed compat rax) ≡ false
signed_other true rax h l = ground arith
signed_other false rax h l = ground arith

-- A result register of either mode that holds -errno, for an errno from 1 to 4095, is printed as -1
-- and the error's text.
pub print_result-error :
    (libc : Libc) (regs : SyscallArgs) (errno : ℕ)
    → 0 < errno
    → errno ≤ 4095
    → regs.rax + errno ≡ word_mod regs.compat
    → print_result libc regs ≡ codes " = -1 " ++ (libc.strerror errno ++ newline)
unfolding print_result
print_result-error libc regs errno lo hi e =
    let (negative, exact) = signed_error regs.compat regs.rax errno lo hi e in rw (negative, exact)

-- A result register of either mode that holds anything else is printed in hexadecimal.
pub print_result-value :
    (libc : Libc) (regs : SyscallArgs)
    → regs.rax + 4095 < word_mod regs.compat
    → print_result libc regs ≡ codes " = " ++ (format_hex regs.rax ++ newline)
unfolding print_result
print_result-value libc regs l = rw (signed_other regs.compat regs.rax (omega arith) l)
