-- ===== src/Trace/Output.antt =====
-- ft_strace.c, `trace`: what one iteration adds to stderr, by the kind of its stop.
use make_strace.Common.{
  ℕ, ◌≡◌, refl, sym, ap, ◌∙◌, Bool, true, false, List, [], ◌∷◌, ◌++◌, append_assoc, append-nil,
  Bytes, if◌then◌else◌,
}
use make_strace.Registers.{SyscallArgs}
use make_strace.Syscall.{PendingCall, print_entry, finish_args}
use make_strace.Trace.{
  Libc, Round, Action, ptrace_syscall, write, TraceState, Flow, go_on, finished, failed, waiting,
  result_of, print_result, print_signal, print_mode, same_mode, at_syscall, chain, trace_loop,
}
use make_strace.Trace.Stops.{
  Stop, at_call, at_sig, at_event, at_end, at_failure, no_answer, stop_of, at_stop,
}
use make_strace.Trace.Deliveries.{trace_loop-stop}

-- All that some actions write to stderr.
unfoldable pub output : List Action → Bytes
output [] = []
output (ptrace_syscall child sig ∷ actions) = output actions
output (write text ∷ actions) = text ++ output actions

pub output-append : (xs ys : List Action) → output (xs ++ ys) ≡ output xs ++ output ys
unfolding output
output-append [] ys = refl
output-append (ptrace_syscall child sig ∷ xs) ys = output-append xs ys
output-append (write text ∷ xs) ys = simp (output-append xs ys, append_assoc)

-- The text and the outcome of a run, and a text put before one.
abbrev pub observe : List Action × Flow → Bytes × Flow
observe run = (output run.0, run.1)

abbrev pub prefixed : Bytes → Bytes × Flow → Bytes × Flow
prefixed text run = (text ++ run.0, run.1)

abbrev pub mode_text : ℕ → Bool → Bool → Bytes
mode_text child before now = if same_mode before now then [] else print_mode child now

abbrev pub idle : PendingCall → Bool → ℕ → TraceState
idle call compat d = record { call = call; in_syscall = false; deliver = d; compat = compat }

abbrev pub inside : PendingCall → Bool → ℕ → TraceState
inside call compat d = record { call = call; in_syscall = true; deliver = d; compat = compat }

-- A stop that neither begins nor ends a call nor ends the loop.
abbrev pub is_quiet : Stop → Bool
is_quiet (at_sig sig info) = true
is_quiet at_event = true
is_quiet _ = false

chain-resume :
    (child sig : ℕ) (actions : List Action) (flow : Flow) (loop : TraceState → List Action × Flow)
    → observe (chain (ptrace_syscall child sig ∷ actions, flow) loop)
      ≡ observe (chain (actions, flow) loop)
unfolding output
chain-resume child sig actions (go_on s) loop = refl
chain-resume child sig actions (finished status) loop = refl
chain-resume child sig actions failed loop = refl
chain-resume child sig actions waiting loop = refl

-- What a stop for a system call writes, before the actions of the rest.
entry-output :
    (same : Bool) (mode text : Bytes) (later : List Action)
    → output (((if same then [] else write mode ∷ []) ++ write text ∷ []) ++ later)
      ≡ ((if same then [] else mode) ++ text) ++ output later
unfolding output
entry-output true mode text later = refl
entry-output false mode text later = sym (append_assoc mode text (output later))

exit-output :
    (same : Bool) (args result mode : Bytes) (later : List Action)
    → output ((write args ∷ write result ∷ ((if same then [] else write mode ∷ []) ++ [])) ++ later)
      ≡ (args ++ (result ++ (if same then [] else mode))) ++ output later
unfolding output
exit-output true args result mode later = simp (append_assoc, append-nil)
exit-output false args result mode later = simp (append_assoc)

module _ (libc : Libc) (pid child : ℕ) where
  abbrev pub run_from : TraceState → List Round → Bytes × Flow
  run_from s rounds = observe (trace_loop libc pid child s rounds)

  abbrev pub quiet_text : Stop → Bytes
  quiet_text (at_sig sig info) = print_signal libc sig info
  quiet_text _ = []

  pub run_from-stop :
      (s : TraceState) (r : Round) (rounds : List Round) (stop : Stop)
      → stop_of child r ≡ stop
      → run_from s (r ∷ rounds)
        ≡ observe (
            chain
              (at_stop libc pid child (record s { deliver = 0 }) r.vm stop)
              (λ s'. trace_loop libc pid child s' rounds))
  run_from-stop s r rounds stop e =
      let rest = λ (s' : TraceState). trace_loop libc pid child s' rounds in
      let cleared : TraceState = record s { deliver = 0 } in
      let met = at_stop libc pid child cleared r.vm (stop_of child r) in
      ap observe (trace_loop-stop libc pid child s r rounds)
      ∙ chain-resume child s.deliver met.0 met.1 rest
      ∙ ap (λ (x : Stop). observe (chain (at_stop libc pid child cleared r.vm x) rest)) e

  -- The signal that is pending does not show.
  pub run_from-deliver :
      (s : TraceState) (d : ℕ) (rounds : List Round)
      → run_from (record s { deliver = d }) rounds ≡ run_from s rounds
  run_from-deliver s d [] = unfold trace_loop in refl
  run_from-deliver s d (r ∷ rounds) =
      run_from-stop (record s { deliver = d }) r rounds (stop_of child r) refl
      ∙ sym (run_from-stop s r rounds (stop_of child r) refl)

  pub run_from-quiet :
      (s : TraceState) (r : Round) (rounds : List Round)
      → is_quiet (stop_of child r) ≡ true
      → run_from s (r ∷ rounds) ≡ prefixed (quiet_text (stop_of child r)) (run_from s rounds)
  unfolding output
  run_from-quiet s r rounds q = by_stop (stop_of child r) refl q
    where
      by_stop :
          (stop : Stop)
          → stop_of child r ≡ stop
          → is_quiet stop ≡ true
          → run_from s (r ∷ rounds) ≡ prefixed (quiet_text stop) (run_from s rounds)
      by_stop (at_sig sig info) e h =
          run_from-stop s r rounds (at_sig sig info) e
          ∙ ap (prefixed (print_signal libc sig info)) (run_from-deliver s sig rounds)
      by_stop at_event e h = run_from-stop s r rounds at_event e ∙ run_from-deliver s 0 rounds
      by_stop (at_call regs) e h = cc
      by_stop (at_end status) e h = cc
      by_stop at_failure e h = cc
      by_stop no_answer e h = cc

  pub run_from-entry :
      (call : PendingCall) (compat : Bool) (d : ℕ) (r : Round) (rounds : List Round)
      (regs : SyscallArgs)
      → stop_of child r ≡ at_call regs
      → run_from (idle call compat d) (r ∷ rounds)
        ≡ prefixed
            (mode_text child compat regs.compat ++ (print_entry r.vm pid regs).0)
            (run_from (inside (print_entry r.vm pid regs).1 regs.compat 0) rounds)
  unfolding at_syscall
  run_from-entry call compat d r rounds regs e =
      run_from-stop (idle call compat d) r rounds (at_call regs) e
      ∙ ap
          (λ text. (text, (run_from (inside (print_entry r.vm pid regs).1 regs.compat 0) rounds).1))
          (entry-output (same_mode compat regs.compat) (print_mode child regs.compat)
            (print_entry r.vm pid regs).0
            (trace_loop libc pid child (inside (print_entry r.vm pid regs).1 regs.compat 0)
              rounds).0)

  pub run_from-exit :
      (call : PendingCall) (compat : Bool) (d : ℕ) (r : Round) (rounds : List Round)
      (regs : SyscallArgs)
      → stop_of child r ≡ at_call regs
      → run_from (inside call compat d) (r ∷ rounds)
        ≡ prefixed
            (finish_args r.vm pid call (result_of regs)
              ++ (print_result libc regs ++ mode_text child compat regs.compat))
            (run_from (idle call regs.compat 0) rounds)
  unfolding at_syscall
  run_from-exit call compat d r rounds regs e =
      run_from-stop (inside call compat d) r rounds (at_call regs) e
      ∙ ap (λ text. (text, (run_from (idle call regs.compat 0) rounds).1))
          (exit-output (same_mode compat regs.compat) (finish_args r.vm pid call (result_of regs))
            (print_result libc regs) (print_mode child regs.compat)
            (trace_loop libc pid child (idle call regs.compat 0) rounds).0)
