-- ===== src/Syscall/Buffers.antt =====
-- ft_strace.c, `print_arg` on the buffers of a call, and the conversion of its numbers.
use Prim.Native.Nat.{min}
use make_strace.Common.{ℕ, ◌+◌, ◌≡◌, refl, ap, ◌∙◌, Bytes, arith}
use make_strace.Common.Int.{ℤ, pos, negsuc}
use make_strace.Format.{format_hex}
use make_strace.Table.{arg_output_bytes}
use make_strace.Tracee.{VmReadv}
use make_strace.Tracee.Dumps.{Serves, dump, print_bytes-dump}
use make_strace.Registers.{SyscallArgs}
use make_strace.Syscall.{print_arg, print_output, output_count, arg_at}

output_count-min : (result count : ℕ) → output_count result count ≡ min result count
unfolding output_count
output_count-min result count = ground arith

-- An output buffer shows as many bytes as the call returned and the caller asked for, at most 64, as
-- they stand at exit; after a failed call it is the address alone.
pub print_arg-output :
    (vm : VmReadv) (pid : ℕ) (args : SyscallArgs) (index : ℕ) (contents : Bytes) (result : ℤ)
    → Serves vm pid (arg_at args index) contents
    → print_arg vm pid args index arg_output_bytes result ≡ (elim result [
      | pos r ↦ dump (arg_at args index) contents (min r (arg_at args (index + 1)))
      | negsuc _ ↦ format_hex (arg_at args index)
    ])
unfolding print_arg print_output
print_arg-output vm pid args index contents (pos r) h =
    print_bytes-dump vm pid (arg_at args index) contents (output_count r (arg_at args (index + 1)))
      h
    ∙ ap (dump (arg_at args index) contents) (output_count-min r (arg_at args (index + 1)))
print_arg-output vm pid args index contents (negsuc n) h = refl
