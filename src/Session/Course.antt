-- ===== src/Session/Course.antt =====
-- ft_strace.c, `main` in the parent: the steps behind the fork, each with what becomes of it, and what
-- is done at their end.
use make_strace.Common.{
  ℕ, ◌+◌, Bool, true, false, Option, some, List, [], ◌∷◌, ◌++◌, codes, if◌then◌else◌, not,
}
use make_strace.Format.{format_d, format_s}
use make_strace.Syscall.{PendingCall}
use make_strace.Wait.{WaitResult, wait_ok, wait_error, wait_pending, wait_child, wifstopped}
use make_strace.Wait.Laws.{Report, exited, signaled, read_status}
use make_strace.Trace.{Libc, Flow, go_on, finished, failed, waiting, newline, trace}
use make_strace.Session.{System, sigkill, wuntraced, options}
use make_strace.Session.Effects.{
  Effect, say, perror, kill, wait, seize, interrupt, raise, set_default, unblock, Outcome, returns,
  blocked, traced,
}

-- How the set-up and the trace go: the child stops and is waited for, is seized and interrupted, and
-- then traced; each step fails, or does not return, or leads to the next.
abbrev pub awaited : WaitResult → (ℕ → Flow) → Flow
awaited (wait_ok status) later = later status
awaited wait_error later = failed
awaited wait_pending later = waiting

abbrev pub supervise : Libc → System → PendingCall → ℕ → Flow
supervise libc os call child = awaited (wait_child child os.stop_waits) (λ status.
    if not (wifstopped status)
    then failed
    else if not os.seized
    then failed
    else if not os.interrupted
    then failed
    else awaited (wait_child child os.attach_waits)
        (λ _. (trace libc child child call os.rounds).1))

-- A step of the set-up is passed, or it fails, or it has not returned.
pub data Verdict : Type 0 where
  passed broke hangs : Verdict

abbrev pub tested : Bool → Verdict
tested true = passed
tested false = broke

abbrev pub waited_for : (ℕ → Bool) → WaitResult → Verdict
waited_for good (wait_ok status) = tested (good status)
waited_for good wait_error = broke
waited_for good wait_pending = hangs

-- The steps of the set-up, with their verdicts.
abbrev pub steps : System → ℕ → List (Effect × Verdict)
steps os child =
    (
      wait child wuntraced,
      waited_for (λ status. wifstopped status) (wait_child child os.stop_waits),
    )
    ∷ (seize child options, tested os.seized)
    ∷ (interrupt child, tested os.interrupted)
    ∷ (wait child 0, waited_for (λ status. true) (wait_child child os.attach_waits))
    ∷ []

-- What is done of some steps and a last one: nothing behind the first step that is not passed.
abbrev pub done : List (Effect × Verdict) → List Effect × Flow → List Effect × Flow
done [] last = last
done ((effect, passed) ∷ later) last = (effect ∷ (done later last).0, (done later last).1)
done ((effect, broke) ∷ later) last = (effect ∷ [], failed)
done ((effect, hangs) ∷ later) last = (effect ∷ [], waiting)

abbrev pub course : Libc → System → PendingCall → ℕ → List Effect × Flow
course libc os call child =
    let run = trace libc child child call os.rounds in done (steps os child) (traced run.0, run.1)

-- What is done when the child has ended as reported; the last clause is for a status that reports no
-- end.
abbrev pub farewell : Libc → Option Report → List Effect × Outcome
farewell libc (some (exited code)) = (
  say (codes "+++ exited with " ++ (format_d code ++ (codes " +++" ++ newline))) ∷ [],
  returns code,
)
farewell libc (some (signaled sig core)) = (
  say (codes "+++ killed by SIG" ++ (format_s (libc.sigabbrev_np sig) ++ (codes " +++" ++ newline)))
      ∷ set_default sig
      ∷ unblock sig
      ∷ raise sig
      ∷ [],
  returns (128 + sig),
)
farewell libc _ = ([], blocked)

-- What is done at the end of the set-up and the trace.
abbrev pub ending : Libc → System → ℕ → Flow → List Effect × Outcome
ending libc os child (finished status) = farewell libc (read_status status)
ending libc os child failed = (
  perror (codes "ft_strace") ∷ kill child sigkill ∷ wait child 0 ∷ [],
  elim (wait_child child os.last_waits) [ wait_pending ↦ blocked | _ ↦ returns 1 ],
)
ending libc os child waiting = ([], blocked)
ending libc os child (go_on _) = ([], blocked)
