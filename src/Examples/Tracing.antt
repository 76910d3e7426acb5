-- ===== src/Examples/Tracing.antt =====
-- Tests of `wait_child` and `trace`, and the theorems about them at concrete inputs.
use make_strace.Common.{
  ℕ, ap, true, false, List, [], ◌∷◌, ◌++◌, codes, length, take, ◌≡◌, refl, ◌∙◌, arith, replicate,
}
use make_strace.Common.Int.{negsuc}
use make_strace.Format.{format_hex}
use make_strace.Syscall.{print_entry, finish_args}
use make_strace.Wait.{waited, wait_failed, wait_ok, wait_child, eintr}
use make_strace.Wait.Laws.{wait_child-interrupted}
use make_strace.Trace.{
  TraceState, initial, at_syscall, Round, finished, newline, trace, print_result,
}
use make_strace.Trace.Deliveries.{deliveries, signals, trace-deliveries}
use make_strace.Trace.Ends.{outcome, trace-outcome, trace-call}
use make_strace.Trace.Output.{observe}
use make_strace.Trace.Calls.{
  Entered, Call, IsEntered, entered_rounds, calls_rounds, quiet_texts, entered_text, calls_text,
}
use make_strace.Trace.Transcript.{trace-transcript, trace-unfinished}
use make_strace.Trace.Stops.{trace_round-stop, at_stop}
use make_strace.Trace.Reach.{Reach, start, next}
use make_strace.Trace.Invariant.{IsConsistent, trace-IsConsistent}
use make_strace.Trace.Lines.{call_lines, trace-call_lines}
use make_strace.Trace.Result.{print_result-error, print_result-value}
use make_strace.Examples.Inputs.{
  child, libc, read_args, enter_round, leave_round, signal_round, event_round, exit_round,
  blank_call, enter-stop, leave-stop, signal-stop, exit-stop, signal-quiet, event-quiet,
}

wait_child-interrupted_example :
    wait_child child (replicate 2 (wait_failed eintr) ++ waited 7 768 ∷ []) ≡ wait_ok 768
wait_child-interrupted_example = wait_child-interrupted child 2 (waited 7 768) [] (λ e. cc)

-- The child enters `read`, and a signal arrives within it.
abbrev read_entered : Entered
read_entered = record {
  before = event_round ∷ [];
  enter = enter_round;
  entry = read_args 0xffff_ffff_ffff_ffda;
  within = signal_round ∷ [];
}

abbrev read_call : Call
read_call = record { entered = read_entered; leave = leave_round; exit = read_args 4 }

read_entered-IsEntered : IsEntered child read_entered
read_entered-IsEntered = ((event-quiet, tt), enter-stop, (signal-quiet, tt))

trace-transcript_example :
    observe (
      trace libc child child blank_call
        (calls_rounds (read_call ∷ []) (signal_round ∷ exit_round ∷ [])))
    ≡ (
      calls_text libc child child false
          (read_call ∷ [])
          (quiet_texts libc child child (signal_round ∷ [])),
      finished 768,
    )
trace-transcript_example =
    trace-transcript libc child child blank_call (read_call ∷ []) (signal_round ∷ []) exit_round []
      768 ((read_entered-IsEntered, leave-stop), tt) (signal-quiet, tt) exit-stop

trace-unfinished_example :
    observe (
      trace libc child child blank_call
        (calls_rounds (read_call ∷ []) (entered_rounds read_entered (exit_round ∷ []))))
    ≡ (
      calls_text libc child child false (read_call ∷ []) (
          entered_text libc child child false read_entered
          ++ (finish_args exit_round.vm child
                (print_entry enter_round.vm child read_entered.entry).1
                (negsuc 0)
              ++ (codes " = ?" ++ newline))),
      finished 768,
    )
trace-unfinished_example =
    trace-unfinished libc child child blank_call (read_call ∷ []) read_entered exit_round [] 768
      ((read_entered-IsEntered, leave-stop), tt) read_entered-IsEntered exit-stop

abbrev rounds : List Round
rounds = enter_round ∷ signal_round ∷ leave_round ∷ exit_round ∷ []

trace-deliveries_example :
    take
      (length (deliveries (trace libc child child blank_call rounds).0))
      (0 ∷ signals child rounds)
    ≡ deliveries (trace libc child child blank_call rounds).0
trace-deliveries_example = trace-deliveries libc child child blank_call rounds

trace-outcome_example : (trace libc child child blank_call rounds).1 ≡ outcome child rounds
trace-outcome_example = trace-outcome libc child child blank_call rounds

trace-call_example :
    trace libc child child blank_call rounds
    ≡ trace libc child child (record blank_call { next_arg = 9 }) rounds
trace-call_example =
    trace-call libc child child blank_call (record blank_call { next_arg = 9 }) rounds

print_result-error_example :
    print_result libc (read_args 0xffff_ffff_ffff_fff7)
    ≡ codes " = -1 " ++ (libc.strerror 9 ++ newline)
print_result-error_example =
    print_result-error libc (read_args 0xffff_ffff_ffff_fff7) 9 (omega arith) (omega arith)
      (omega arith)

print_result-value_example :
    print_result libc (read_args 4) ≡ codes " = " ++ (format_hex 4 ++ newline)
print_result-value_example = print_result-value libc (read_args 4) (omega arith)

-- Within the call `read`, after a signal.
abbrev read_state : ℕ → TraceState
read_state sig = record {
  call = (print_entry enter_round.vm child read_entered.entry).1;
  in_syscall = true;
  deliver = sig;
  compat = false;
}

read_begins : Reach libc child child blank_call (read_state 0)
unfolding at_syscall initial
read_begins = next enter_round start (
    ap (λ p. p.1) (trace_round-stop libc child child (initial blank_call) enter_round)
    ∙ ap (λ stop. (at_stop libc child child (initial blank_call) enter_round.vm stop).1) enter-stop)

read_signalled : Reach libc child child blank_call (read_state 17)
read_signalled = next signal_round read_begins (
    ap (λ p. p.1) (trace_round-stop libc child child (read_state 0) signal_round)
    ∙ ap (λ stop. (at_stop libc child child (read_state 0) signal_round.vm stop).1) signal-stop)

trace-IsConsistent_example : IsConsistent (read_state 17)
trace-IsConsistent_example =
    trace-IsConsistent libc child child blank_call (read_state 17) read_signalled

-- The call with nothing between its two stops, and its line.
abbrev plain_call : Call
plain_call = record read_call { entered = record read_entered { before = []; within = [] } }

trace-call_lines_example :
    observe (trace libc child child blank_call (calls_rounds (plain_call ∷ []) (exit_round ∷ [])))
    ≡ (call_lines libc child (plain_call ∷ []), finished 768)
trace-call_lines_example =
    trace-call_lines libc child child blank_call (plain_call ∷ []) exit_round [] 768
      ((((tt, enter-stop, tt), leave-stop), refl, refl, refl, refl, omega arith), tt) exit-stop
