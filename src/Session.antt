-- ===== src/Session.antt =====
-- ft_strace.c: `main`, on the answers of the operating system, and the two signal handlers. A run
-- yields the effects that it has, in their order, and how it ends.
pub mod Effects
pub mod Course
pub mod Attach
pub mod Supervision
pub mod ExitStatus
pub mod Guards
pub mod Programs
pub mod Interrupts
pub mod Delivery
pub mod Signals
use make_strace.Common.{
  ℕ, zero, suc, ◌+◌, ◌/◌, ◌%◌, Bool, true, false, ◌||◌, not, Option, none, some, List, [], ◌∷◌,
  ◌++◌, Bytes, codes, ltb, ◌==◌, if◌then◌else◌,
}
use make_strace.Format.{format_d, format_s}
use make_strace.Syscall.{PendingCall}
use make_strace.Wait.{
  WaitAnswer, WaitResult, wait_ok, wait_error, wait_pending, wait_child, wifexited, wifstopped,
  wexitstatus, wtermsig,
}
use make_strace.Trace.{Libc, Round, Action, Flow, go_on, finished, failed, waiting, newline, trace}
use Effects.{
  Handler, handler_int, handler_kill, Effect, say, perror, fork, traced, kill, wait, seize,
  interrupt, install, raise, execvp, set_default, unblock, Outcome, returns, exits, replaced,
  blocked, died, Exit, next, stop, Prog, ◌>>=◌, ◌>>◌, perform, perform_all, act,
}

abbrev pub sigint : ℕ
sigint = 2

abbrev pub sighup : ℕ
sighup = 1

abbrev pub sigkill : ℕ
sigkill = 9

abbrev pub sigterm : ℕ
sigterm = 15

abbrev pub sigstop : ℕ
sigstop = 19

abbrev pub wuntraced : ℕ
wuntraced = 2

-- `PTRACE_O_TRACESYSGOOD | PTRACE_O_EXITKILL | PTRACE_O_TRACEEXEC`.
abbrev pub options : ℕ
options = 1 + 0x100000 + 0x10

-- The answers of the operating system to the calls of `main`, in the order of the calls.
pub record System : Type 0 where
  pub lstat : Bytes → Option ℕ
  pub forked : Option ℕ
  pub executed : Bool
  pub stop_waits : List WaitAnswer
  pub seized : Bool
  pub interrupted : Bool
  pub attach_waits : List WaitAnswer
  pub rounds : List Round
  pub last_waits : List WaitAnswer

-- The tests of `S_IXUSR`, `S_IXGRP` and `S_IXOTH`.
unfoldable pub is_executable : ℕ → Bool
is_executable mode =
    if mode / 0o100 % 2 == 1 then true else if mode / 0o10 % 2 == 1 then true else mode % 2 == 1

-- `handler`: for SIGINT and SIGHUP.
unfoldable pub handler : ℕ → List Effect × Outcome
handler pid_temp = (
  (if ltb 0 pid_temp then kill pid_temp sigkill ∷ wait pid_temp 0 ∷ [] else [])
      ++ say (
          newline
          ++ (codes "strace: Process " ++ (format_d pid_temp ++ (codes " detached" ++ newline))))
        ∷ [],
  exits 1,
)

-- `handler_term`: for SIGTERM.
unfoldable pub handler_term : ℕ → List Effect × Outcome
handler_term pid_temp = (
  (if ltb 0 pid_temp then kill pid_temp sigkill ∷ wait pid_temp 0 ∷ [] else [])
      ++ say (codes "= ?" ++ newline) ∷ say (codes "+++ killed by SIGKILL +++" ++ newline) ∷ [],
  exits 1,
)

module _ (libc : Libc) (os : System) where
  -- The body of `if (wait_child(…) == -1 || …)`.
  unfoldable pub give_up : {A : Type 0} → ℕ → Prog A
  give_up child = (
    perror (codes "ft_strace") ∷ kill child sigkill ∷ wait child 0 ∷ [],
    elim (wait_child child os.last_waits) [ wait_pending ↦ stop blocked | _ ↦ stop (returns 1) ],
  )

  unfoldable pub await : ℕ → ℕ → List WaitAnswer → Prog ℕ
  await child flags answers = do
    perform (wait child flags)
    elim (wait_child child answers) [
      | wait_ok status ↦ ([], next status)
      | wait_error ↦ give_up child
      | wait_pending ↦ ([], stop blocked)
    ]

  unfoldable pub require : ℕ → Bool → Prog (Unit {0})
  require child true = ([], next tt)
  require child false = give_up child

  -- The effects of `trace`, and the test of what it returns.
  unfoldable pub after_trace : ℕ → List Action × Flow → Prog ℕ
  after_trace child (actions, finished status) = (traced actions, next status)
  after_trace child (actions, failed) = do perform_all (traced actions); give_up child
  after_trace child (actions, waiting) = (traced actions, stop blocked)
  after_trace child (actions, go_on _) = (traced actions, stop blocked)

  unfoldable pub trace_child : PendingCall → ℕ → Prog ℕ
  trace_child call child = after_trace child (trace libc child child call os.rounds)

  -- The condition, read from left to right.
  unfoldable pub attach_and_trace : PendingCall → ℕ → Prog ℕ
  attach_and_trace call child = do
    status ← await child wuntraced os.stop_waits
    require child (wifstopped status)
    perform (seize child options)
    require child os.seized
    perform (interrupt child)
    require child os.interrupted
    await child 0 os.attach_waits
    trace_child call child

  -- From `if (WIFEXITED(status))` on; what is returned behind `raise` is returned if that returns.
  unfoldable pub report_end : ℕ → List Effect × Outcome
  report_end status =
      if wifexited status
      then (
        say (
              codes "+++ exited with "
              ++ (format_d (wexitstatus status) ++ (codes " +++" ++ newline)))
            ∷ [],
        returns (wexitstatus status),
      )
      else (
        say (
              codes "+++ killed by SIG"
              ++ (format_s (libc.sigabbrev_np (wtermsig status)) ++ (codes " +++" ++ newline)))
            ∷ set_default (wtermsig status)
            ∷ unblock (wtermsig status)
            ∷ raise (wtermsig status)
            ∷ [],
        returns (128 + wtermsig status),
      )

  -- The child's side of the fork; `execvp` returns only when it fails.
  unfoldable pub child_side : Bytes → List Bytes → List Effect × Outcome
  child_side program argv =
      if os.executed
      then (raise sigstop ∷ execvp program argv ∷ [], replaced)
      else (raise sigstop ∷ execvp program argv ∷ perror (codes "execvp") ∷ [], exits 1)

  abbrev pub install_handlers : List Effect
  install_handlers =
      install sigint handler_int ∷ install sigterm handler_kill ∷ install sighup handler_int ∷ []

  abbrev pub finish : Prog ℕ → List Effect × Outcome
  finish (effects, stop outcome) = (effects, outcome)
  finish (effects, next status) = (effects ++ (report_end status).0, (report_end status).1)

  unfoldable pub parent_side : PendingCall → ℕ → List Effect × Outcome
  parent_side call child = finish (do perform_all install_handlers; attach_and_trace call child)

  -- From `fork` on.
  unfoldable pub launch : PendingCall → Bytes → List Bytes → Option ℕ → List Effect × Outcome
  launch call program argv none = (fork ∷ perror (codes "fork") ∷ [], returns 1)
  launch call program argv (some zero) =
      (fork ∷ (child_side program argv).0, (child_side program argv).1)
  launch call program argv (some (suc n)) =
      (fork ∷ (parent_side call (suc n)).0, (parent_side call (suc n)).1)

  abbrev refuse : Bytes → List Effect × Outcome
  refuse text = (say (text ++ newline) ∷ [], returns 1)

  -- The first argument is what the variable `call` of `trace` holds before it is set.
  unfoldable pub main : PendingCall → List Bytes → List Effect × Outcome
  main call [] = refuse (codes "Usage: strace <program>")
  main call (self ∷ []) = refuse (codes "Usage: strace <program>")
  main call (self ∷ program ∷ args) = elim (os.lstat program) [
    | none ↦ refuse (codes "stat error")
    | some mode ↦
        if is_executable mode
        then launch call program (program ∷ args) os.forked
        else refuse (codes "strace: is not executable")
  ]
