-- ===== src/Trace/Ends.antt =====
-- ft_strace.c, `trace`: how the loop ends, and that `call` is not read before a call has begun.
use make_strace.Common.{ℕ, ◌≡◌, refl, sym, ap, ◌∙◌, Bool, false, Option, none, some, List, [], ◌∷◌}
use make_strace.Tracee.{VmReadv}
use make_strace.Syscall.{PendingCall}
use make_strace.Trace.{
  Libc, Round, Action, ptrace_syscall, write, TraceState, Flow, finished, failed, waiting,
  print_signal, at_syscall, chain, trace_loop, trace, initial,
}
use make_strace.Trace.Stops.{
  Stop, at_call, at_sig, at_event, at_end, at_failure, no_answer, stop_of, at_stop,
}
use make_strace.Trace.Deliveries.{trace_loop-stop}

-- What a stop decides of the loop's outcome; `none` where the loop goes on.
abbrev pub decides : Stop → Option Flow
decides (at_end status) = some (finished status)
decides at_failure = some failed
decides no_answer = some waiting
decides _ = none

abbrev pub decided : Option Flow → Flow → Flow
decided none later = later
decided (some flow) later = flow

-- The first stop that decides an outcome, and `waiting` where none does.
unfoldable pub outcome : ℕ → List Round → Flow
outcome child [] = waiting
outcome child (r ∷ rounds) = decided (decides (stop_of child r)) (outcome child rounds)

module _ (libc : Libc) (pid child : ℕ) where
  chain-outcome :
      (s : TraceState) (vm : VmReadv) (stop : Stop) (first : Action)
      (loop : TraceState → List Action × Flow) (later : Flow)
      → ((s' : TraceState) → (loop s').1 ≡ later)
      → (chain
          (first ∷ (at_stop libc pid child s vm stop).0, (at_stop libc pid child s vm stop).1)
          loop).1
        ≡ decided (decides stop) later
  unfolding at_syscall
  chain-outcome s vm (at_call regs) first loop later h = h _
  chain-outcome s vm (at_sig sig info) first loop later h = h _
  chain-outcome s vm at_event first loop later h = h _
  chain-outcome s vm _ first loop later h = refl

  loop-outcome :
      (rounds : List Round) (s : TraceState)
      → (trace_loop libc pid child s rounds).1 ≡ outcome child rounds
  unfolding outcome
  loop-outcome [] s = unfold trace_loop in refl
  loop-outcome (r ∷ rounds) s =
      ap (λ p. p.1) (trace_loop-stop libc pid child s r rounds)
      ∙ chain-outcome (record s { deliver = 0 }) r.vm (stop_of child r)
          (ptrace_syscall child s.deliver) (λ s'. trace_loop libc pid child s' rounds)
          (outcome child rounds) (loop-outcome rounds)

  abbrev idle : PendingCall → ℕ → Bool → TraceState
  idle call deliver compat = record {
    call = call;
    in_syscall = false;
    deliver = deliver;
    compat = compat;
  }

  -- Outside a call, an iteration that is followed by a loop which does not read `call` does not
  -- depend on it.
  chain-call :
      (c c' : PendingCall) (compat : Bool) (vm : VmReadv) (stop : Stop) (first : Action)
      (loop : TraceState → List Action × Flow)
      → ((d : ℕ) → loop (idle c d compat) ≡ loop (idle c' d compat))
      → let step = λ (x : PendingCall). at_stop libc pid child (idle x 0 compat) vm stop in
        chain (first ∷ (step c).0, (step c).1) loop ≡ chain (first ∷ (step c').0, (step c').1) loop
  unfolding at_syscall
  chain-call c c' compat vm (at_call regs) first loop h = refl
  chain-call c c' compat vm (at_sig sig info) first loop h =
      ap (λ p. (first ∷ write (print_signal libc sig info) ∷ p.0, p.1)) (h sig)
  chain-call c c' compat vm at_event first loop h = ap (λ p. (first ∷ p.0, p.1)) (h 0)
  chain-call c c' compat vm _ first loop h = refl

  loop-call :
      (rounds : List Round) (c c' : PendingCall) (d : ℕ) (compat : Bool)
      → trace_loop libc pid child (idle c d compat) rounds
        ≡ trace_loop libc pid child (idle c' d compat) rounds
  loop-call [] c c' d compat = unfold trace_loop in refl
  loop-call (r ∷ rounds) c c' d compat =
      trace_loop-stop libc pid child (idle c d compat) r rounds
      ∙ chain-call c c' compat r.vm (stop_of child r) (ptrace_syscall child d)
          (λ s'. trace_loop libc pid child s' rounds) (λ e. loop-call rounds c c' e compat)
      ∙ sym (trace_loop-stop libc pid child (idle c' d compat) r rounds)

-- The first round that decides ends `trace`: with 0 and the child's status where the child has ended,
-- with -1 where PTRACE_SYSCALL, waitpid, PTRACE_GETSIGINFO or PTRACE_GETREGSET has failed or the
-- register set has neither of the two sizes, and not yet where waitpid has not returned. Signals, event
-- stops and system-call stops whose registers are read do not end it; with no round that decides, it
-- is waiting.
pub trace-outcome :
    (libc : Libc) (pid child : ℕ) (call : PendingCall) (rounds : List Round)
    → (trace libc pid child call rounds).1 ≡ outcome child rounds
unfolding trace
trace-outcome libc pid child call rounds = loop-outcome libc pid child rounds (initial call)

-- `trace` does not depend on what the variable `call` holds before the first call begins.
pub trace-call :
    (libc : Libc) (pid child : ℕ) (c c' : PendingCall) (rounds : List Round)
    → trace libc pid child c rounds ≡ trace libc pid child c' rounds
unfolding trace initial
trace-call libc pid child c c' rounds = loop-call libc pid child rounds c c' 0 false
