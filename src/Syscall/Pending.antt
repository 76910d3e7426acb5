-- ===== src/Syscall/Pending.antt =====
-- ft_strace.c, `struct pending_call`: what `print_entry` leaves for `finish_args`.
use mathlib.Core.Path.{subst}
use make_strace.Common.Int.{pos}
use make_strace.Common.{
  ℕ, zero, suc, ◌+◌, ◌<◌, ◌≡◌, refl, sym, true, Option, none, some, ◌⊎◌, inl, inr, Bool-cases,
  Option-cases, arith,
}
use make_strace.Table.{SysTable}
use make_strace.Tracee.{VmReadv}
use make_strace.Registers.{SyscallArgs}
use make_strace.Syscall.{lookup_syscall, PendingCall, entry_loop, print_entry, is_output, type_at}
use make_strace.Syscall.Line.{entry_loop-output, entry_loop-next, print_entry-known}

-- Argument `n` is the next to print: it is an output buffer, or all are printed.
abbrev pub IsNext : Option SysTable → ℕ → Type 0
IsNext none n = n ≡ 0
IsNext (some e) n = (n ≡ e.arg_count) ⊎ ((n < e.arg_count) × (is_output (type_at e n) ≡ true))

-- The entry of the call's number, and a next argument that is an output buffer or none at all.
abbrev pub IsPending : PendingCall → Type 0
IsPending call = (call.syscall ≡ lookup_syscall call.entry) × IsNext call.syscall call.next_arg

module _ (vm : VmReadv) (pid : ℕ) (args : SyscallArgs) where
  entry_loop-IsNext :
      (e : SysTable) (i left : ℕ)
      → i + left ≡ e.arg_count
      → IsNext (some e) (entry_loop vm pid args e i left).1
  unfolding entry_loop
  entry_loop-IsNext e i zero h = inl (omega arith)
  entry_loop-IsNext e i (suc left) h = elim (Bool-cases (is_output (type_at e i))) [
    | inl o ↦ rw (entry_loop-output vm vm pid args e (pos 0) i left o) (inr (omega arith, o))
    | inr o ↦
        rw (entry_loop-next vm vm pid args e (pos 0) i left o)
          (entry_loop-IsNext e (suc i) left (omega arith))
  ]

  print_entry-none :
      lookup_syscall args ≡ none
      → (print_entry vm pid args).1 ≡ record { entry = args; syscall = none; next_arg = 0 }
  unfolding print_entry
  print_entry-none h = ground arith

  pub print_entry-entry : (print_entry vm pid args).1.entry ≡ args
  unfolding print_entry
  print_entry-entry = ground arith

  pub print_entry-IsPending : IsPending (print_entry vm pid args).1
  print_entry-IsPending = elim (Option-cases (lookup_syscall args)) [
    | inl h ↦ subst IsPending (sym (print_entry-none h)) (sym h, refl)
    | inr (e, h) ↦
        subst (λ p. IsPending p.1) (sym (print_entry-known vm pid args h))
          (sym h, entry_loop-IsNext e 0 e.arg_count (omega arith))
  ]
