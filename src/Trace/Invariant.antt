-- ===== src/Trace/Invariant.antt =====
-- ft_strace.c, `trace`: what holds of its variables at the head of every iteration.
use mathlib.Core.Path.{subst}
use make_strace.Common.{
  ℕ, ◌<◌, ◌/◌, ◌%◌, not, ◌≡◌, ◌≢◌, sym, ap, Bool, true, false, Option, none, some, arith, ◌==◌,
  Bool-cases, inl, inr, if◌then◌else◌,
}
use make_strace.Tracee.{VmReadv}
use make_strace.Registers.{SyscallArgs, RegistersResult, registers, no_registers, read_registers}
use make_strace.Syscall.{PendingCall, print_entry}
use make_strace.Syscall.Pending.{IsPending, print_entry-entry, print_entry-IsPending}
use make_strace.Wait.{WaitResult, wait_ok, wait_error, wait_pending, wait_child}
use make_strace.Wait.Laws.{read_status}
use make_strace.Trace.{
  Libc, SigInfo, Round, TraceState, Flow, go_on, initial, syscall_stop, at_syscall, trace_round,
}
use make_strace.Trace.Stops.{
  Stop, at_call, at_sig, at_event, at_end, at_failure, no_answer, stop_of, at_stop, call_stop,
  signal_stop, report_stop, wait_stop, trace_round-stop,
}
use make_strace.Trace.Reach.{Reach, start, next}

-- Within a call, `call` is what its entry left, and the mode is the call's.
abbrev pub IsEntry : TraceState → Type 0
IsEntry s = s.in_syscall ≡ true → IsPending s.call × (s.compat ≡ s.call.entry.compat)

-- A signal number that fits into a status word and is not that of a system-call stop.
abbrev pub IsSignal : ℕ → Type 0
IsSignal sig = (sig < 256) × (sig ≢ syscall_stop)

abbrev pub IsConsistent : TraceState → Type 0
IsConsistent s = IsEntry s × IsSignal s.deliver

-- The signal of a stop, if it has one.
abbrev StopSignal : Stop → Type 0
StopSignal (at_sig sig info) = IsSignal sig
StopSignal _ = Unit

call_stop-StopSignal : (answer : RegistersResult) → StopSignal (call_stop answer)
call_stop-StopSignal (registers regs) = tt
call_stop-StopSignal (no_registers errno) = tt

signal_stop-StopSignal :
    (sig : ℕ) (info : Option SigInfo) → IsSignal sig → StopSignal (signal_stop sig info)
signal_stop-StopSignal sig none h = tt
signal_stop-StopSignal sig (some info) h = h

stopped-StopSignal :
    (r : Round) (sig : ℕ) (plain : Bool)
    → sig < 256
    → StopSignal (
        if plain
        then if sig == syscall_stop
          then call_stop (read_registers r.regset)
          else signal_stop sig r.siginfo
        else at_event)
stopped-StopSignal r sig false l = tt
stopped-StopSignal r sig true l = elim (Bool-cases (sig == syscall_stop)) [
  | inl e ↦ rw e (call_stop-StopSignal (read_registers r.regset))
  | inr e ↦ rw e (signal_stop-StopSignal sig r.siginfo (l, λ same. ground (arith, same, e)))
]

report_stop-StopSignal :
    (r : Round) (status : ℕ) → StopSignal (report_stop r status (read_status status))
report_stop-StopSignal r status =
    ground (arith, stopped-StopSignal r (status / 256 % 256) (status / 65536 == 0))

wait_stop-StopSignal : (r : Round) (answer : WaitResult) → StopSignal (wait_stop r answer)
wait_stop-StopSignal r wait_pending = tt
wait_stop-StopSignal r wait_error = tt
wait_stop-StopSignal r (wait_ok status) = report_stop-StopSignal r status

stop_of-StopSignal : (child : ℕ) (r : Round) → StopSignal (stop_of child r)
unfolding stop_of
stop_of-StopSignal child r = elim (Bool-cases r.resumed) [
  | inl e ↦ rw e (wait_stop-StopSignal r (wait_child child r.waits))
  | inr e ↦ rw e tt
]

-- A flow that goes on does so in a state of which `P` holds.
abbrev Holds : (TraceState → Type 0) → Flow → Type 0
Holds P (go_on s) = P s
Holds P _ = Unit

module _ (libc : Libc) (pid child : ℕ) where
  call_after :
      (vm : VmReadv) (regs : SyscallArgs) (within : Bool) (call : PendingCall)
      → not within ≡ true
      → let call' = if within then call else (print_entry vm pid regs).1 in
        IsPending call' × (regs.compat ≡ call'.entry.compat)
  call_after vm regs true call h = cc
  call_after vm regs false call h = (
    print_entry-IsPending vm pid regs,
    ap (λ entry. entry.compat) (sym (print_entry-entry vm pid regs)),
  )

  at_stop-IsConsistent :
      (s : TraceState) (vm : VmReadv) (stop : Stop)
      → IsConsistent s
      → StopSignal stop
      → Holds IsConsistent (at_stop libc pid child s vm stop).1
  unfolding at_syscall
  at_stop-IsConsistent s vm (at_call regs) h sig = (call_after vm regs s.in_syscall s.call, h.1)
  at_stop-IsConsistent s vm (at_sig sig info) h l = (h.0, l)
  at_stop-IsConsistent s vm at_event h sig = h
  at_stop-IsConsistent s vm (at_end status) h sig = tt
  at_stop-IsConsistent s vm at_failure h sig = tt
  at_stop-IsConsistent s vm no_answer h sig = tt

  trace_round-IsConsistent :
      (s : TraceState) (r : Round)
      → IsConsistent s
      → Holds IsConsistent (trace_round libc pid child s r).1
  trace_round-IsConsistent s r h =
      subst (λ p. Holds IsConsistent p.1) (sym (trace_round-stop libc pid child s r))
        (at_stop-IsConsistent (record s { deliver = 0 }) r.vm (stop_of child r) (h.0, no_signal)
          (stop_of-StopSignal child r))
    where
      no_signal : IsSignal 0
      no_signal = (omega arith, λ e. omega (arith, e))

-- At the head of every iteration, whatever the kernel has answered: within a call, `call` holds what
-- `lookup_syscall` finds for its entry, the next argument to print is an output buffer unless all are
-- printed, and `compat` is the mode of the call; and the signal to pass on is below 256 and not the
-- number of a system-call stop.
pub trace-IsConsistent :
    (libc : Libc) (pid child : ℕ) (call : PendingCall) (s : TraceState)
    → Reach libc pid child call s
    → IsConsistent s
unfolding initial
trace-IsConsistent libc pid child call s start = (λ e. cc, (omega arith, λ e. omega (arith, e)))
trace-IsConsistent libc pid child call s' (next {s} r reached e) =
    subst (Holds IsConsistent) e (
      trace_round-IsConsistent libc pid child s r
        (trace-IsConsistent libc pid child call s reached))
