-- ===== src/Trace/Deliveries.antt =====
-- ft_strace.c, `trace`: which signal each PTRACE_SYSCALL passes on, how the loop ends, and that it
-- never reads `call` before a call has begun.
use make_strace.Common.{ℕ, ◌≡◌, refl, ap, ◌∙◌, false, List, [], ◌∷◌, ◌++◌, length, take, arith}
use make_strace.Registers.{SyscallArgs}
use make_strace.Tracee.{VmReadv}
use make_strace.Syscall.{PendingCall}
use make_strace.Trace.{
  Libc, Round, Action, ptrace_syscall, write, TraceState, Flow, go_on, finished, failed, waiting,
  at_syscall, chain, trace_loop, trace, initial,
}
use make_strace.Trace.Stops.{
  Stop, at_call, at_sig, at_event, at_end, stop_of, at_stop, trace_round-stop,
}

-- The signals of the PTRACE_SYSCALLs among some actions.
unfoldable pub deliveries : List Action → List ℕ
deliveries [] = []
deliveries (ptrace_syscall child sig ∷ actions) = sig ∷ deliveries actions
deliveries (write text ∷ actions) = deliveries actions

-- The signal that a stop is about: that of a signal-delivery stop, and 0 for any other.
abbrev pub signal_at : Stop → ℕ
signal_at (at_sig sig info) = sig
signal_at _ = 0

unfoldable pub signals : ℕ → List Round → List ℕ
signals child [] = []
signals child (r ∷ rounds) = signal_at (stop_of child r) ∷ signals child rounds

deliveries-append : (xs ys : List Action) → deliveries (xs ++ ys) ≡ deliveries xs ++ deliveries ys
unfolding deliveries
deliveries-append [] ys = refl
deliveries-append (ptrace_syscall child sig ∷ xs) ys = ap (λ l. sig ∷ l) (deliveries-append xs ys)
deliveries-append (write text ∷ xs) ys = deliveries-append xs ys

module _ (libc : Libc) (pid child : ℕ) where
  pub trace_loop-stop :
      (s : TraceState) (r : Round) (rounds : List Round)
      → trace_loop libc pid child s (r ∷ rounds)
        ≡ chain
            (
              ptrace_syscall child s.deliver
                  ∷ (at_stop libc pid child (record s { deliver = 0 }) r.vm (stop_of child r)).0,
              (at_stop libc pid child (record s { deliver = 0 }) r.vm (stop_of child r)).1,
            )
            (λ s'. trace_loop libc pid child s' rounds)
  unfolding trace_loop
  trace_loop-stop s r rounds =
      ap (λ p. chain p (λ s'. trace_loop libc pid child s' rounds))
        (trace_round-stop libc pid child s r)

  at_syscall-deliveries :
      (s : TraceState) (vm : VmReadv) (regs : SyscallArgs)
      → deliveries (at_syscall libc pid child s vm regs).0 ≡ []
  unfolding at_syscall deliveries
  at_syscall-deliveries s vm regs = ground arith

  at_stop-deliveries :
      (s : TraceState) (vm : VmReadv) (stop : Stop)
      → deliveries (at_stop libc pid child s vm stop).0 ≡ []
  unfolding deliveries
  at_stop-deliveries s vm (at_call regs) = at_syscall-deliveries s vm regs
  at_stop-deliveries s vm (at_end status) = ground arith
  at_stop-deliveries s vm _ = refl

  -- After a stop at which the loop goes on, the pending signal is that of the stop.
  at_stop-deliver :
      (s s' : TraceState) (vm : VmReadv) (stop : Stop)
      → s.deliver ≡ 0
      → (at_stop libc pid child s vm stop).1 ≡ go_on s'
      → s'.deliver ≡ signal_at stop
  unfolding at_syscall
  at_stop-deliver s s' vm (at_call regs) z e = ground arith
  at_stop-deliver s s' vm (at_sig sig info) z e = ground arith
  at_stop-deliver s s' vm at_event z e = ground arith
  at_stop-deliver s s' vm _ z e = ground arith

  -- The signals passed on by the rounds that are run are those pending before, one for each.
  abbrev PassesOn : (TraceState → List Action × Flow) → List ℕ → Type 0
  PassesOn loop pending =
      (s : TraceState)
      → take (length (deliveries (loop s).0)) (s.deliver ∷ pending) ≡ deliveries (loop s).0

  chain-deliveries :
      (loop : TraceState → List Action × Flow) (pending : List ℕ) (d sig : ℕ)
      (actions : List Action) (flow : Flow)
      → deliveries actions ≡ []
      → ((s : TraceState) → flow ≡ go_on s → s.deliver ≡ sig)
      → PassesOn loop pending
      → let all = deliveries (chain (ptrace_syscall child d ∷ actions, flow) loop).0 in
        take (length all) (d ∷ sig ∷ pending) ≡ all
  unfolding deliveries
  chain-deliveries loop pending d sig actions (go_on s) none_here now later =
      let all : deliveries (actions ++ (loop s).0) ≡ deliveries (loop s).0 =
        deliveries-append actions (loop s).0 ∙ ap (λ l. l ++ deliveries (loop s).0) none_here in
      rw (all, ← now s refl) (ap (λ l. d ∷ l) (later s))
  chain-deliveries loop pending d sig actions (finished status) none_here now later = rw none_here
  chain-deliveries loop pending d sig actions failed none_here now later = rw none_here
  chain-deliveries loop pending d sig actions waiting none_here now later = rw none_here

  loop-deliveries :
      (rounds : List Round)
      → PassesOn (λ s. trace_loop libc pid child s rounds) (signals child rounds)
  unfolding signals
  loop-deliveries [] s = unfold trace_loop deliveries in refl
  loop-deliveries (r ∷ rounds) s =
      let s0 : TraceState = record s { deliver = 0 } in
      let stop = stop_of child r in
      rw (trace_loop-stop s r rounds) (
        chain-deliveries (λ s'. trace_loop libc pid child s' rounds) (signals child rounds)
          s.deliver (signal_at stop) (at_stop libc pid child s0 r.vm stop).0
          (at_stop libc pid child s0 r.vm stop).1 (at_stop-deliveries s0 r.vm stop)
          (λ s' e. at_stop-deliver s0 s' r.vm stop refl e) (loop-deliveries rounds))

-- Every PTRACE_SYSCALL passes on the signal of the stop before it, once: the signals passed on are 0
-- and then, for each further round that is run, the signal of the round before where that was a
-- signal-delivery stop, and 0 where it was not.
pub trace-deliveries :
    (libc : Libc) (pid child : ℕ) (call : PendingCall) (rounds : List Round)
    → take (length (deliveries (trace libc pid child call rounds).0)) (0 ∷ signals child rounds)
      ≡ deliveries (trace libc pid child call rounds).0
unfolding trace initial
trace-deliveries libc pid child call rounds =
    loop-deliveries libc pid child rounds
      (record { call = call; in_syscall = false; deliver = 0; compat = false })
