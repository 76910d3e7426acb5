-- ===== src/Wait/Laws.antt =====
-- ft_strace.c, `wait_child` on interruptions, and what a status word says.
use make_strace.Common.{
  ℕ, zero, suc, ◌+◌, ◌*◌, ◌%◌, ◌≡◌, ◌≢◌, refl, Bool, List, ◌∷◌, ◌++◌, ◌==◌, leb, ap, Option, none,
  some, if◌then◌else◌, arith, replicate,
}
use make_strace.Wait.{
  WaitAnswer, waited, wait_failed, wait_ok, wait_error, wait_child, eintr, wifexited, wifsignaled,
  wifstopped, wtermsig, wexitstatus, wstopsig, event_of,
}

-- However often `waitpid` is interrupted, `wait_child` returns what the first answer that is no
-- interruption decides: 0 with its status for the child, -1 for another process or another error.
pub wait_child-interrupted :
    (child n : ℕ) (answer : WaitAnswer) (later : List WaitAnswer)
    → answer ≢ wait_failed eintr
    → wait_child child (replicate n (wait_failed eintr) ++ answer ∷ later) ≡ (elim answer [
      | waited pid status ↦ if pid == child then wait_ok status else wait_error
      | wait_failed errno ↦ wait_error
    ])
unfolding wait_child
wait_child-interrupted child zero (waited pid status) later h = refl
wait_child-interrupted child zero (wait_failed errno) later h =
    ground (arith, λ (e : errno ≡ eintr). h (ap wait_failed e))
wait_child-interrupted child (suc n) answer later h = wait_child-interrupted child n answer later h

-- What a status word says: an exit with a code, an end by a signal (with or without a core), or a
-- ptrace stop with a signal and an event.
pub data Report : Type 0 where
  exited : ℕ → Report
  signaled : ℕ → Bool → Report
  stopped : ℕ → ℕ → Report

-- The word in which Linux reports it.
abbrev pub status_word : Report → ℕ
status_word (exited code) = code * 256
status_word (signaled sig core) = sig + (if core then 128 else 0)
status_word (stopped sig event) = event * 65536 + sig * 256 + 127

-- The report that the macros read out of a word; `none` for a process that was continued.
abbrev pub read_status : ℕ → Option Report
read_status status =
    if wifexited status
    then some (exited (wexitstatus status))
    else if wifsignaled status
    then some (signaled (wtermsig status) (leb 128 (status % 256)))
    else if wifstopped status
    then some (stopped (wstopsig status) (event_of status))
    else none
