-- ===== src/Examples/Calls.antt =====
-- Tests of the tables, the register sets and the printing of a call, and the theorems about them at
-- concrete inputs.
use Prim.Native.Nat.{min}
use make_strace.Common.{
  ◌+◌, ◌<◌, true, false, none, some, [], ◌∷◌, ◌++◌, codes, length, ◌≡◌, refl, arith,
}
use make_strace.Common.Int.{pos}
use make_strace.Table.{arg_output_bytes, arg_offset, array_size}
use make_strace.Table.Laws.{find_row}
use make_strace.Table.Rows.{reads_next}
use make_strace.Tracee.Dumps.{dump}
use make_strace.Tracee.Argv.{comma_join}
use make_strace.Registers.{
  SyscallArgs, UserRegsStruct32, registers, read_registers, sizeof_regs64, sizeof_regs32,
}
use make_strace.Registers.Layout.{
  layout, members64, members32, read_registers-layout64, read_registers-layout32,
}
use make_strace.Syscall.{lookup_syscall, print_arg, print_entry, finish_args}
use make_strace.Syscall.Lookup.{row_entry, rows_of, lookup_syscall-row, lookup_syscall-in_range}
use make_strace.Syscall.Line.{line_args, print_entry-finish_args}
use make_strace.Syscall.Buffers.{print_arg-output}
use make_strace.Syscall.Numbers.{signed, read_number, read_number-print_arg}
use make_strace.Examples.Inputs.{
  child, mapped, regs_of, read_args, unknown_args, read_entry, read_found,
}

unknown_not_found : lookup_syscall unknown_args ≡ none
unfolding lookup_syscall
unknown_not_found = refl

lookup_syscall-row_example : lookup_syscall (read_args 0) ≡ row_entry (find_row 0 (rows_of false))
lookup_syscall-row_example = lookup_syscall-row (read_args 0)

lookup_syscall-in_range_example :
    (0 < array_size (rows_of false))
    × (length read_entry.arg_type ≡ 6)
    × (1 < 6)
    × (1 + 1 < 3)
    × (1 + 1 < 6)
unfolding reads_next
lookup_syscall-in_range_example =
    lookup_syscall-in_range (read_args 0) 1 (read_found 0) (omega arith)

print_entry-finish_args_example :
    (print_entry (mapped (codes "XXXX")) child (read_args 0)).0
      ++ finish_args
          (mapped (codes "READ"))
          child
          (print_entry (mapped (codes "XXXX")) child (read_args 0)).1
          (pos 4)
    ≡ codes "read"
      ++ (codes "("
          ++ (comma_join (
                line_args
                  (mapped (codes "XXXX"))
                  (mapped (codes "READ"))
                  child
                  (read_args 0)
                  read_entry
                  (pos 4))
              ++ codes ")"))
print_entry-finish_args_example =
    print_entry-finish_args (mapped (codes "XXXX")) (mapped (codes "READ")) child (read_args 0)
      (pos 4) (read_found 0)

print_arg-output_example :
    print_arg (mapped (codes "READ")) child (read_args 2) 1 arg_output_bytes (pos 2)
    ≡ dump 0x1000 (codes "READ") (min 2 4)
print_arg-output_example =
    print_arg-output (mapped (codes "READ")) child (read_args 2) 1 (codes "READ") (pos 2)
      (λ n. refl)

read_registers-layout64_example :
    read_registers (some (sizeof_regs64, layout 8 (members64 (regs_of 0 4)) ++ 255 ∷ []))
    ≡ registers (read_args 4)
read_registers-layout64_example = read_registers-layout64 (regs_of 0 4) (255 ∷ []) (omega arith)

abbrev regs32 : UserRegsStruct32
regs32 = record {
  ebx = 3;
  ecx = 0x1000;
  edx = 4;
  esi = 0;
  edi = 0;
  ebp = 0;
  eax = 0xffff_fff7;
  xds = 0;
  xes = 0;
  xfs = 0;
  xgs = 0;
  orig_eax = 3;
  eip = 0;
  xcs = 0;
  eflags = 0;
  esp = 0;
  xss = 0;
}

read_registers-layout32_example :
    read_registers (some (sizeof_regs32, layout 4 (members32 regs32) ++ 255 ∷ []))
    ≡ registers (record {
      arg = 3 ∷ 0x1000 ∷ 4 ∷ 0 ∷ 0 ∷ 0 ∷ [];
      orig_ax = 3;
      rax = 0xffff_fff7;
      compat = true;
    })
read_registers-layout32_example = read_registers-layout32 regs32 (255 ∷ []) (omega arith)

-- The offset 4294967298 of `lseek`, which has 34 bits.
abbrev lseek_args : SyscallArgs
lseek_args = record (read_args 0) { arg = 3 ∷ 4294967298 ∷ 0 ∷ 0 ∷ 0 ∷ 0 ∷ []; orig_ax = 8 }

read_number-print_arg_example :
    read_number signed (print_arg (mapped []) child lseek_args 1 arg_offset (pos 0))
    ≡ pos 4294967298
read_number-print_arg_example =
    read_number-print_arg (mapped []) child lseek_args 1 arg_offset (pos 0) signed (pos 4294967298)
      (omega arith) refl
