-- ===== src/Trace/Lines.antt =====
-- ft_strace.c, `trace`: the lines of a 64-bit child that no signal disturbs.
use make_strace.Common.{
  ℕ, ◌+◌, ◌-◌, ◌^◌, ◌<◌, ◌≡◌, refl, sym, ap, ◌∙◌, Bool, false, none, some, List, [], ◌∷◌, ◌++◌,
  append_assoc, append-nil, Bytes, codes, leb, arith, if◌then◌else◌, All, Option, Bool-cases,
  Option-cases, inl, inr,
}
use make_strace.Common.Int.{ℤ, int32, int64}
use make_strace.Format.{format_hex, format_llu}
use make_strace.Table.{SysTable}
use make_strace.Registers.{SyscallArgs}
use make_strace.Tracee.{VmReadv}
use make_strace.Tracee.Argv.{comma_join}
use make_strace.Syscall.{PendingCall, lookup_syscall, name_bytes, print_entry, finish_args}
use make_strace.Syscall.Line.{line_args, print_entry-finish_args, print_entry-unknown}
use make_strace.Trace.{Libc, Round, finished, newline, trace, result_of, print_result}
use make_strace.Trace.Stops.{at_end, stop_of}
use make_strace.Trace.Output.{observe, mode_text}
use make_strace.Trace.Calls.{
  Entered, Call, IsCall, calls_rounds, entered_text, exit_text, calls_text,
}
use make_strace.Trace.Result.{word_mod, print_result-error, print_result-value}
use make_strace.Trace.Transcript.{trace-transcript}

-- The last 4095 words of a register are errors; every other word is a value.
abbrev pub result_text : Libc → Bool → ℕ → Bytes
result_text libc compat rax =
    if leb (word_mod compat) (rax + 4095)
    then codes " = -1 " ++ (libc.strerror (word_mod compat - rax) ++ newline)
    else codes " = " ++ (format_hex rax ++ newline)

print_result-result_text :
    (libc : Libc) (regs : SyscallArgs)
    → regs.rax < word_mod regs.compat
    → print_result libc regs ≡ result_text libc regs.compat regs.rax
print_result-result_text libc regs l =
    elim (Bool-cases (leb (word_mod regs.compat) (regs.rax + 4095))) [
      | inl b ↦ rw b (
          print_result-error libc regs (word_mod regs.compat - regs.rax) (omega arith)
            (ground arith) (omega arith))
      | inr b ↦ rw b (print_result-value libc regs (ground arith))
    ]

module _ (vm vm' : VmReadv) (pid : ℕ) (args : SyscallArgs) (result : ℤ) where
  -- A call's name, or its number where that has no name, and its arguments, as they are in the
  -- memories at its entry and at its exit.
  abbrev pub known_text : Option SysTable → Bytes
  known_text none = codes "syscall_" ++ (format_llu args.orig_ax ++ codes "(/* unknown */)")
  known_text (some e) =
      name_bytes e.name
      ++ (codes "(" ++ (comma_join (line_args vm vm' pid args e result) ++ codes ")"))

  halves-known_text :
      (print_entry vm pid args).0 ++ finish_args vm' pid (print_entry vm pid args).1 result
      ≡ known_text (lookup_syscall args)
  halves-known_text = elim (Option-cases (lookup_syscall args)) [
    | inl h ↦
        let (entry, rest) = print_entry-unknown vm vm' pid args result h in
        (λ i. entry i ++ rest i) ∙ append-nil (known_text none) ∙ sym (ap known_text h)
    | inr (e, h) ↦ print_entry-finish_args vm vm' pid args result h ∙ sym (ap known_text h)
  ]

-- The whole line of a call of a 64-bit process.
abbrev pub call_line : Libc → ℕ → Call → Bytes
call_line libc pid c =
    known_text c.entered.enter.vm c.leave.vm pid c.entered.entry (int64 c.exit.rax)
      (lookup_syscall c.entered.entry)
    ++ result_text libc false c.exit.rax

abbrev pub call_lines : Libc → ℕ → List Call → Bytes
call_lines libc pid [] = []
call_lines libc pid (c ∷ calls) = call_line libc pid c ++ call_lines libc pid calls

-- A call of a 64-bit process, with no other stop before or within it.
abbrev pub IsPlain : ℕ → Call → Type 0
IsPlain child c =
    IsCall child c
    × (c.entered.before ≡ [])
    × (c.entered.within ≡ [])
    × (c.entered.entry.compat ≡ false)
    × (c.exit.compat ≡ false)
    × (c.exit.rax < 2 ^ 64)

module _ (libc : Libc) (pid child : ℕ) where
  entered_text-plain :
      (c : Entered)
      → c.before ≡ []
      → c.within ≡ []
      → c.entry.compat ≡ false
      → entered_text libc pid child false c ≡ (print_entry c.enter.vm pid c.entry).0
  entered_text-plain c b w m = simp (b, w, m, append-nil)

  exit_text-plain :
      (c : Call)
      → c.entered.entry.compat ≡ false
      → c.exit.compat ≡ false
      → c.exit.rax < 2 ^ 64
      → exit_text libc pid child c
        ≡ finish_args c.leave.vm pid
            (print_entry c.entered.enter.vm pid c.entered.entry).1
            (int64 c.exit.rax)
          ++ result_text libc false c.exit.rax
  unfolding result_of
  exit_text-plain c m m' l =
      let pending = (print_entry c.entered.enter.vm pid c.entered.entry).1 in
      let rax = c.exit.rax in
      let result : result_of c.exit ≡ int64 rax =
        ap (λ mode. if mode then int32 rax else int64 rax) m' in
      let text : print_result libc c.exit ≡ result_text libc false rax =
        print_result-result_text libc c.exit (rw m' l)
        ∙ ap (λ mode. result_text libc mode rax) m' in
      let mode : mode_text child c.entered.entry.compat c.exit.compat ≡ [] =
        λ i. mode_text child (m i) (m' i) in
      (λ i. finish_args c.leave.vm pid pending (result i) ++ (text i ++ mode i))
      ∙ ap (λ t. finish_args c.leave.vm pid pending (int64 rax) ++ t)
          (append-nil (result_text libc false rax))

  calls_text-plain :
      (calls : List Call)
      → All (IsPlain child) calls
      → calls_text libc pid child false calls [] ≡ call_lines libc pid calls
  calls_text-plain [] h = refl
  calls_text-plain (c ∷ calls) ((seen, b, w, m, m', l), h) =
      let entry = (print_entry c.entered.enter.vm pid c.entered.entry).0 in
      let rest =
        finish_args c.leave.vm pid (print_entry c.entered.enter.vm pid c.entered.entry).1
          (int64 c.exit.rax) in
      let result = result_text libc false c.exit.rax in
      let later =
        ap (λ mode. calls_text libc pid child mode calls []) m' ∙ calls_text-plain calls h in
      (λ i. entered_text-plain c.entered b w m i ++ (exit_text-plain c m m' l i ++ later i))
      ∙ sym (append_assoc entry (rest ++ result) (call_lines libc pid calls))
      ∙ ap (λ t. t ++ call_lines libc pid calls) (sym (append_assoc entry rest result))
      ∙ ap (λ t. (t ++ result) ++ call_lines libc pid calls)
          (halves-known_text c.entered.enter.vm c.leave.vm pid c.entered.entry (int64 c.exit.rax))

  plain_calls : (calls : List Call) → All (IsPlain child) calls → All (IsCall child) calls
  plain_calls [] h = tt
  plain_calls (c ∷ calls) h = (h.0.0, plain_calls calls h.1)

-- The trace of a 64-bit child that makes any calls, with no other stop, and then ends, is one line for
-- each: the call's name and its arguments, each once and in order, or its number if that is not known;
-- and its result, which is the error's text for the last 4095 words and else the register in
-- hexadecimal. `trace` returns 0 with the child's status.
pub trace-call_lines :
    (libc : Libc) (pid child : ℕ) (call : PendingCall) (calls : List Call) (end : Round)
    (later : List Round) (status : ℕ)
    → All (IsPlain child) calls
    → stop_of child end ≡ at_end status
    → observe (trace libc pid child call (calls_rounds calls (end ∷ later)))
      ≡ (call_lines libc pid calls, finished status)
trace-call_lines libc pid child call calls end later status h e =
    trace-transcript libc pid child call calls [] end later status
      (plain_calls libc pid child calls h) tt e
    ∙ ap (λ text. (text, finished status)) (calls_text-plain libc pid child calls h)
