-- ===== src/Trace/Stops.antt =====
-- ft_strace.c, `trace`: the kind of stop that one iteration meets, read off the kernel's answers
-- alone, and the iteration as a function of that kind.
use make_strace.Common.{
  ℕ, ◌≡◌, refl, Option, none, some, List, [], ◌∷◌, ◌++◌, codes, ◌==◌, if◌then◌else◌, arith, ap, ◌/◌,
  ◌%◌, Bool-cases, inl, inr,
}
use make_strace.Common.Int.{negsuc}
use make_strace.Tracee.{VmReadv}
use make_strace.Registers.{SyscallArgs, RegistersResult, registers, no_registers, read_registers}
use make_strace.Syscall.{finish_args}
use make_strace.Wait.{WaitResult, wait_ok, wait_error, wait_pending, wait_child}
use make_strace.Wait.Laws.{Report, exited, signaled, stopped, read_status}
use make_strace.Trace.{
  Libc, SigInfo, Round, Action, ptrace_syscall, write, TraceState, Flow, go_on, finished, failed,
  waiting, newline, syscall_stop, print_signal, at_syscall, at_registers, at_signal, at_status,
  at_wait, trace_round,
}

-- A system-call stop with its registers, the delivery of a signal, a stop that says nothing (an
-- event, or a continued process), the end of the child, a failure, and no answer yet.
pub data Stop : Type 0 where
  at_call : SyscallArgs → Stop
  at_sig : ℕ → SigInfo → Stop
  at_event : Stop
  at_end : ℕ → Stop
  at_failure : Stop
  no_answer : Stop

abbrev pub call_stop : RegistersResult → Stop
call_stop (registers regs) = at_call regs
call_stop (no_registers _) = at_failure

abbrev pub signal_stop : ℕ → Option SigInfo → Stop
signal_stop sig none = at_failure
signal_stop sig (some info) = at_sig sig info

abbrev pub report_stop : Round → ℕ → Option Report → Stop
report_stop r status none = at_event
report_stop r status (some (exited code)) = at_end status
report_stop r status (some (signaled sig core)) = at_end status
report_stop r status (some (stopped sig event)) =
    if event == 0
    then if sig == syscall_stop
      then call_stop (read_registers r.regset)
      else signal_stop sig r.siginfo
    else at_event

abbrev pub wait_stop : Round → WaitResult → Stop
wait_stop r wait_pending = no_answer
wait_stop r wait_error = at_failure
wait_stop r (wait_ok status) = report_stop r status (read_status status)

unfoldable pub stop_of : ℕ → Round → Stop
stop_of child r = if r.resumed then wait_stop r (wait_child child r.waits) else at_failure

module _ (libc : Libc) (pid child : ℕ) where
  -- What the loop does at a stop, with no signal pending in `s`.
  abbrev pub at_stop : TraceState → VmReadv → Stop → List Action × Flow
  at_stop s vm (at_call regs) = at_syscall libc pid child s vm regs
  at_stop s vm (at_sig sig info) =
      (write (print_signal libc sig info) ∷ [], go_on (record s { deliver = sig }))
  at_stop s vm at_event = ([], go_on s)
  at_stop s vm (at_end status) = (
    if s.in_syscall
        then write (finish_args vm pid s.call (negsuc 0)) ∷ write (codes " = ?" ++ newline) ∷ []
        else [],
    finished status,
  )
  at_stop s vm at_failure = ([], failed)
  at_stop s vm no_answer = ([], waiting)

  at_registers-stop :
      (s : TraceState) (r : Round) (answer : RegistersResult)
      → at_registers libc pid child s r answer ≡ at_stop s r.vm (call_stop answer)
  unfolding at_registers
  at_registers-stop s r (registers regs) = refl
  at_registers-stop s r (no_registers errno) = refl

  at_signal-stop :
      (s : TraceState) (vm : VmReadv) (sig : ℕ) (info : Option SigInfo)
      → at_signal libc pid child s sig info ≡ at_stop s vm (signal_stop sig info)
  unfolding at_signal
  at_signal-stop s vm sig none = refl
  at_signal-stop s vm sig (some info) = refl

  at_status-stop :
      (s : TraceState) (r : Round) (status : ℕ)
      → at_status libc pid child s r status
        ≡ at_stop s r.vm (report_stop r status (read_status status))
  unfolding at_status
  at_status-stop s r status = ground (
    arith,
    at_registers-stop s r (read_registers r.regset),
    at_signal-stop s r.vm (status / 256 % 256) r.siginfo,
  )

  at_wait-stop :
      (s : TraceState) (r : Round) (answer : WaitResult)
      → at_wait libc pid child s r answer
        ≡ at_stop (record s { deliver = 0 }) r.vm (wait_stop r answer)
  unfolding at_wait
  at_wait-stop s r (wait_ok status) = at_status-stop (record s { deliver = 0 }) r status
  at_wait-stop s r wait_error = refl
  at_wait-stop s r wait_pending = refl

  resume-stop :
      (s : TraceState) (r : Round)
      → (if r.resumed then at_wait libc pid child s r (wait_child child r.waits) else ([], failed))
        ≡ at_stop (record s { deliver = 0 }) r.vm (stop_of child r)
  unfolding stop_of
  resume-stop s r = elim (Bool-cases r.resumed) [
    | inl e ↦ simp e (at_wait-stop s r (wait_child child r.waits))
    | inr e ↦ simp e
  ]

  -- One iteration resumes the child with the pending signal, clears it, and does what the stop asks.
  pub trace_round-stop :
      (s : TraceState) (r : Round)
      → trace_round libc pid child s r ≡ (
        ptrace_syscall child s.deliver
            ∷ (at_stop (record s { deliver = 0 }) r.vm (stop_of child r)).0,
        (at_stop (record s { deliver = 0 }) r.vm (stop_of child r)).1,
      )
  unfolding trace_round
  trace_round-stop s r = ap (λ p. (ptrace_syscall child s.deliver ∷ p.0, p.1)) (resume-stop s r)
