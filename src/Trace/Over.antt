-- ===== src/Trace/Over.antt =====
-- ft_strace.c, `trace`: the status that a return of 0 leaves.
use make_strace.Common.{
  ℕ, ◌≡◌, ◌≢◌, refl, sym, ◌∙◌, Bool, true, false, Option, none, some, List, [], ◌∷◌, arith, inl,
  inr, Bool-cases,
}
use make_strace.Registers.{RegistersResult, registers, no_registers, read_registers}
use make_strace.Syscall.{PendingCall}
use make_strace.Wait.{WaitResult, wait_ok, wait_error, wait_pending, wait_child}
use make_strace.Trace.{Libc, SigInfo, Round, finished, trace}
use make_strace.Trace.Stops.{
  Stop, at_call, at_sig, at_event, at_end, at_failure, no_answer, stop_of, report_stop, wait_stop,
  call_stop, signal_stop,
}
use make_strace.Wait.Laws.{Report, exited, signaled, stopped, read_status}
use make_strace.Trace.Ends.{decides, decided, outcome, trace-outcome}

abbrev pub ends : Option Report → Bool
ends (some (exited code)) = true
ends (some (signaled sig core)) = true
ends _ = false

call_stop-at_end : (answer : RegistersResult) (status : ℕ) → call_stop answer ≢ at_end status
call_stop-at_end (registers regs) status e = cc
call_stop-at_end (no_registers errno) status e = cc

signal_stop-at_end :
    (sig : ℕ) (info : Option SigInfo) (status : ℕ) → signal_stop sig info ≢ at_end status
signal_stop-at_end sig none status e = cc
signal_stop-at_end sig (some info) status e = cc

report_end :
    (r : Round) (word status : ℕ) (report : Option Report)
    → report_stop r word report ≡ at_end status
    → (ends report ≡ true) × (word ≡ status)
report_end r word status none h = cc
report_end r word status (some (exited code)) h = (refl, ground arith)
report_end r word status (some (signaled sig core)) h = (refl, ground arith)
report_end r word status (some (stopped sig event)) h = ground (
  arith,
  call_stop-at_end (read_registers r.regset) status,
  signal_stop-at_end sig r.siginfo status,
)

stop_of-at_end :
    (child : ℕ) (r : Round) (status : ℕ)
    → stop_of child r ≡ at_end status
    → ends (read_status status) ≡ true
unfolding stop_of
stop_of-at_end child r status h = elim (Bool-cases r.resumed) [
  | inl e ↦ from_wait (wait_child child r.waits) (rw e at h)
  | inr e ↦ cc (simp e at h)
]
  where
    from_wait :
        (answer : WaitResult)
        → wait_stop r answer ≡ at_end status
        → ends (read_status status) ≡ true
    from_wait (wait_ok word) e =
        let (over, same) = report_end r word status (read_status word) e in rw same at over
    from_wait wait_error e = cc
    from_wait wait_pending e = cc

outcome-finished :
    (child : ℕ) (rounds : List Round) (status : ℕ)
    → outcome child rounds ≡ finished status
    → ends (read_status status) ≡ true
unfolding outcome
outcome-finished child [] status h = cc
outcome-finished child (r ∷ rounds) status h =
    by_stop (stop_of child r) refl (outcome-finished child rounds status) h
  where
    by_stop :
        (stop : Stop)
        → stop_of child r ≡ stop
        → (outcome child rounds ≡ finished status → ends (read_status status) ≡ true)
        → decided (decides stop) (outcome child rounds) ≡ finished status
        → ends (read_status status) ≡ true
    by_stop (at_end word) e later d = stop_of-at_end child r status (e ∙ ground arith)
    by_stop (at_call regs) e later d = later d
    by_stop (at_sig sig info) e later d = later d
    by_stop at_event e later d = later d
    by_stop at_failure e later d = cc
    by_stop no_answer e later d = cc

pub trace-ends :
    (libc : Libc) (pid child : ℕ) (call : PendingCall) (rounds : List Round) (status : ℕ)
    → (trace libc pid child call rounds).1 ≡ finished status
    → ends (read_status status) ≡ true
trace-ends libc pid child call rounds status h =
    outcome-finished child rounds status (sym (trace-outcome libc pid child call rounds) ∙ h)
