-- ===== src/Examples/Running.antt =====
-- Tests of `main` and the handlers, and the theorems about them at concrete inputs.
use make_strace.Common.{
  ℕ, Bool, true, ltb, false, none, some, [], ◌∷◌, ◌++◌, Bytes, codes, take, ◌≡◌, refl, ◌∙◌, arith,
}
use make_strace.Wait.{wait_child}
use make_strace.Wait.Laws.{exited, signaled, status_word}
use make_strace.Trace.{finished}
use make_strace.Trace.Stops.{stop_of}
use make_strace.Trace.Ends.{outcome, trace-outcome}
use make_strace.Session.{System, sigkill, sigint, sighup, sigterm, is_executable, main}
use make_strace.Session.Effects.{
  install, handler_int, handler_kill, fork, execvp, returns, exits, died,
}
use make_strace.Session.Course.{supervise, course, ending}
use make_strace.Session.Supervision.{main-supervision}
use make_strace.Session.Delivery.{Signals, ignored, ended}
use make_strace.Session.ExitStatus.{main-exit_code, main-signal}
use make_strace.Session.Guards.{main-permissions}
use make_strace.Session.Interrupts.{kills, interrupted, installed_after}
use make_strace.Session.Signals.{main-interrupted}
use make_strace.Session.Programs.{processes, main-processes}
use make_strace.Examples.Inputs.{
  child, libc, quiet_round, system, blank_call, enter-stop, signal-stop, leave-stop, exit-stop,
}

abbrev self : Bytes
self = codes "ft_strace"

abbrev program : Bytes
program = codes "/bin/read"

system_finishes : supervise libc system blank_call child ≡ finished (status_word (exited 3))
unfolding wait_child outcome
system_finishes =
    trace-outcome libc child child blank_call system.rounds
    ∙ rw (enter-stop, signal-stop, leave-stop, exit-stop)

main-supervision_example :
    let parts = course libc system blank_call child in
    let end = ending libc system child parts.1 in
    main libc system blank_call (self ∷ program ∷ []) ≡ (
      fork
          ∷ install sigint handler_int
          ∷ install sigterm handler_kill
          ∷ install sighup handler_int
          ∷ (parts.0 ++ end.0),
      end.1,
    )
unfolding is_executable
main-supervision_example =
    main-supervision libc system blank_call self program [] 0o755 6 refl refl refl

main-exit_code_example : (main libc system blank_call (self ∷ program ∷ [])).1 ≡ returns 3
unfolding is_executable
main-exit_code_example =
    main-exit_code libc system blank_call self program [] 0o755 6 3 refl refl refl (omega arith)
      system_finishes

-- The child is killed by SIGTERM at once.
abbrev killed_system : System
killed_system = record system { rounds = quiet_round (status_word (signaled 15 false)) none ∷ [] }

killed_finishes :
    supervise libc killed_system blank_call child ≡ finished (status_word (signaled 15 false))
unfolding wait_child outcome stop_of
killed_finishes = trace-outcome libc child child blank_call killed_system.rounds

-- A tracer that was started with all signals ignored and blocked.
abbrev deaf : Signals
deaf = record { disposition = λ sig. ignored; blocked = λ sig. true }

-- SIGCHLD, SIGCONT, SIGSTOP and the like do not end a process.
abbrev terminates : ℕ → Bool
terminates sig = ltb sig 17

main-signal_example :
    ended terminates child deaf
      (main libc killed_system blank_call (self ∷ program ∷ [])).0
      (main libc killed_system blank_call (self ∷ program ∷ [])).1
    ≡ died 15
unfolding is_executable
main-signal_example =
    main-signal libc killed_system blank_call self program [] 0o755 6 15 false terminates deaf refl
      refl refl (omega arith) (omega arith) killed_finishes refl

main-permissions_example :
    take 1
      (main libc
        (record system { lstat = λ path. some 0o100654 })
        blank_call
        (self ∷ program ∷ [])).0
    ≡ fork ∷ []
main-permissions_example =
    main-permissions libc (record system { lstat = λ path. some 0o100654 }) blank_call self program
      [] 0o100 6 5 4 (omega arith) (omega arith) (omega arith) refl

main-processes_example :
    processes (main libc (record system { forked = some 0 }) blank_call (self ∷ program ∷ [])).0
    ≡ fork ∷ execvp program (program ∷ []) ∷ []
unfolding is_executable
main-processes_example =
    main-processes libc (record system { forked = some 0 }) blank_call (self ∷ program ∷ [])

-- SIGTERM reaches the tracer as soon as it has installed its handlers.
main-interrupted_example :
    (kills (interrupted child sigterm 4 (main libc system blank_call (self ∷ program ∷ []))).0
      ≡ kills (take 4 (main libc system blank_call (self ∷ program ∷ [])).0)
        ++ (child, sigkill) ∷ [])
    × ((interrupted child sigterm 4 (main libc system blank_call (self ∷ program ∷ []))).1
        ≡ exits 1)
unfolding is_executable installed_after
main-interrupted_example =
    main-interrupted libc system blank_call self program [] 0o755 6 sigterm 3 4 refl refl refl refl
      (omega arith)
