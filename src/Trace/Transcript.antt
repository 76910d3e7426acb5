-- ===== src/Trace/Transcript.antt =====
-- ft_strace.c, `trace`: the transcript of a child that makes any number of system calls, with
-- signals and event stops between and within them, and then ends.
use make_strace.Common.{
  ℕ, ◌≡◌, refl, sym, ap, ◌∙◌, Bool, true, false, List, [], ◌∷◌, ◌++◌, append_assoc, append-nil,
  Bytes, codes, All, if◌then◌else◌,
}
use make_strace.Common.Int.{negsuc}
use make_strace.Syscall.{PendingCall, print_entry, finish_args}
use make_strace.Trace.{Libc, Round, write, TraceState, Flow, finished, newline, trace, initial}
use make_strace.Trace.Stops.{at_end, stop_of}
use make_strace.Trace.Output.{
  output, observe, prefixed, mode_text, idle, inside, quiet_text, run_from, run_from-stop,
  run_from-quiet, run_from-entry, run_from-exit,
}
use make_strace.Trace.Calls.{
  Entered, Call, IsQuiet, IsEntered, IsCall, entered_rounds, calls_rounds, mode_after, quiet_texts,
  entered_text, exit_text, calls_text,
}

prefixed_assoc :
    (a b : Bytes) (run : Bytes × Flow) → prefixed a (prefixed b run) ≡ prefixed (a ++ b) run
prefixed_assoc a b run = λ i. (sym (append_assoc a b run.0) i, run.1)

module _ (libc : Libc) (pid child : ℕ) where
  run_from-quiets :
      (s : TraceState) (rounds rest : List Round)
      → All (IsQuiet child) rounds
      → run_from libc pid child s (rounds ++ rest)
        ≡ prefixed (quiet_texts libc pid child rounds) (run_from libc pid child s rest)
  run_from-quiets s [] rest h = refl
  run_from-quiets s (r ∷ rounds) rest h =
      run_from-quiet libc pid child s r (rounds ++ rest) h.0
      ∙ ap (prefixed (quiet_text libc pid child (stop_of child r)))
          (run_from-quiets s rounds rest h.1)
      ∙ prefixed_assoc (quiet_text libc pid child (stop_of child r))
          (quiet_texts libc pid child rounds) (run_from libc pid child s rest)

  run_from-entered :
      (call : PendingCall) (compat : Bool) (d : ℕ) (c : Entered) (rest : List Round)
      → IsEntered child c
      → run_from libc pid child (idle call compat d) (entered_rounds c rest)
        ≡ prefixed (entered_text libc pid child compat c) (
            run_from libc pid child
              (inside (print_entry c.enter.vm pid c.entry).1 c.entry.compat 0)
              rest)
  run_from-entered call compat d c rest h =
      let s = idle call compat d in
      let entry = print_entry c.enter.vm pid c.entry in
      let s' = inside entry.1 c.entry.compat 0 in
      let opened = mode_text child compat c.entry.compat ++ entry.0 in
      run_from-quiets s c.before (c.enter ∷ (c.within ++ rest)) h.0
      ∙ ap (prefixed (quiet_texts libc pid child c.before)) (
          run_from-entry libc pid child call compat d c.enter (c.within ++ rest) c.entry h.1
          ∙ ap (prefixed opened) (run_from-quiets s' c.within rest h.2)
          ∙ prefixed_assoc opened (quiet_texts libc pid child c.within)
              (run_from libc pid child s' rest))
      ∙ prefixed_assoc (quiet_texts libc pid child c.before)
          (opened ++ quiet_texts libc pid child c.within) (run_from libc pid child s' rest)

  run_from-calls :
      (call : PendingCall) (compat : Bool) (d : ℕ) (calls : List Call) (rest : List Round)
      (text : Bytes) (flow : Flow)
      → All (IsCall child) calls
      → ((call' : PendingCall) (d' : ℕ)
          → run_from libc pid child (idle call' (mode_after compat calls) d') rest ≡ (text, flow))
      → run_from libc pid child (idle call compat d) (calls_rounds calls rest)
        ≡ (calls_text libc pid child compat calls text, flow)
  run_from-calls call compat d [] rest text flow h end = end call d
  run_from-calls call compat d (c ∷ calls) rest text flow h end =
      let entry = print_entry c.entered.enter.vm pid c.entered.entry in
      run_from-entered call compat d c.entered (c.leave ∷ calls_rounds calls rest) h.0.0
      ∙ ap (prefixed (entered_text libc pid child compat c.entered)) (
          run_from-exit libc pid child entry.1 c.entered.entry.compat 0 c.leave
            (calls_rounds calls rest) c.exit h.0.1
          ∙ ap (prefixed (exit_text libc pid child c))
              (run_from-calls entry.1 c.exit.compat 0 calls rest text flow h.1 end))

  run_from-end :
      (s : TraceState) (r : Round) (rounds : List Round) (status : ℕ)
      → stop_of child r ≡ at_end status
      → run_from libc pid child s (r ∷ rounds) ≡ (
        if s.in_syscall
            then finish_args r.vm pid s.call (negsuc 0) ++ (codes " = ?" ++ newline)
            else [],
        finished status,
      )
  unfolding output
  run_from-end s r rounds status e =
      run_from-stop libc pid child s r rounds (at_end status) e ∙ by_flag s.in_syscall
    where
      by_flag :
          (flag : Bool)
          → observe (
            if flag
                then write (finish_args r.vm pid s.call (negsuc 0))
                  ∷ write (codes " = ?" ++ newline)
                  ∷ []
                else [],
            finished status,
          )
            ≡ (
              if flag
                  then finish_args r.vm pid s.call (negsuc 0) ++ (codes " = ?" ++ newline)
                  else [],
              finished status,
            )
      by_flag true = refl
      by_flag false = refl

-- Of a child that makes the calls `calls`, with signals and event stops anywhere between and within
-- them, and then ends, the trace is, call by call: the signals before it, a change of mode, its
-- entry, the signals within it, the rest of its arguments and its result, and a change of mode; then
-- the signals behind the last call. `trace` returns 0 with the child's status.
pub trace-transcript :
    (libc : Libc) (pid child : ℕ) (call : PendingCall) (calls : List Call) (last : List Round)
    (end : Round) (later : List Round) (status : ℕ)
    → All (IsCall child) calls
    → All (IsQuiet child) last
    → stop_of child end ≡ at_end status
    → observe (trace libc pid child call (calls_rounds calls (last ++ (end ∷ later))))
      ≡ (calls_text libc pid child false calls (quiet_texts libc pid child last), finished status)
unfolding trace initial
trace-transcript libc pid child call calls last end later status h q e =
    run_from-calls libc pid child call false 0 calls (last ++ (end ∷ later))
      (quiet_texts libc pid child last) (finished status) h
      (λ call' d'.
        let s = idle call' (mode_after false calls) d' in
        run_from-quiets libc pid child s last (end ∷ later) q
        ∙ ap (prefixed (quiet_texts libc pid child last))
            (run_from-end libc pid child s end later status e)
        ∙ ap (λ text. (text, finished status)) (append-nil (quiet_texts libc pid child last)))

-- Of a child that ends within a call, after the calls `calls`, the trace has all that such a call
-- prints at its entry, then the rest of its arguments as after a failure, and ` = ?`.
pub trace-unfinished :
    (libc : Libc) (pid child : ℕ) (call : PendingCall) (calls : List Call) (open_call : Entered)
    (end : Round) (later : List Round) (status : ℕ)
    → All (IsCall child) calls
    → IsEntered child open_call
    → stop_of child end ≡ at_end status
    → observe
        (trace libc pid child call (calls_rounds calls (entered_rounds open_call (end ∷ later))))
      ≡ (
        calls_text libc pid child false calls (
            entered_text libc pid child (mode_after false calls) open_call
            ++ (finish_args end.vm pid
                  (print_entry open_call.enter.vm pid open_call.entry).1
                  (negsuc 0)
                ++ (codes " = ?" ++ newline))),
        finished status,
      )
unfolding trace initial
trace-unfinished libc pid child call calls open_call end later status h o e =
    let mode = mode_after false calls in
    let entry = print_entry open_call.enter.vm pid open_call.entry in
    run_from-calls libc pid child call false 0 calls (entered_rounds open_call (end ∷ later))
      (entered_text libc pid child mode open_call
        ++ (finish_args end.vm pid entry.1 (negsuc 0) ++ (codes " = ?" ++ newline)))
      (finished status) h
      (λ call' d'.
        run_from-entered libc pid child call' mode d' open_call (end ∷ later) o
        ∙ ap (prefixed (entered_text libc pid child mode open_call)) (
            run_from-end libc pid child (inside entry.1 open_call.entry.compat 0) end later status
              e))
