-- ===== src/Session/Supervision.antt =====
-- ft_strace.c, `main` in the parent: all that it does, in order, on every path.
use make_strace.Common.{
  ℕ, suc, ◌≡◌, refl, ap, sym, ◌∙◌, true, some, List, [], ◌∷◌, ◌++◌, append-nil, append_assoc, Bytes,
  arith,
}
use make_strace.Syscall.{PendingCall}
use make_strace.Wait.{WaitResult, wait_ok, wait_error, wait_pending, wait_child}
use make_strace.Wait.Laws.{read_status}
use make_strace.Trace.{Libc, Flow, go_on, finished, failed, waiting, trace}
use make_strace.Trace.Over.{ends, trace-ends}
use make_strace.Session.{
  System, sigint, sigterm, sighup, is_executable, give_up, report_end, parent_side, launch, main,
  install_handlers, finish,
}
use make_strace.Session.Effects.{
  handler_int, handler_kill, Effect, fork, install, returns, blocked, stop,
}
use make_strace.Session.Course.{
  Verdict, passed, broke, hangs, steps, done, course, farewell, ending,
}
use make_strace.Session.Attach.{closed, attach-closed}

report_end-farewell :
    (libc : Libc) (os : System) (status : ℕ)
    → ends (read_status status) ≡ true
    → report_end libc os status ≡ farewell libc (read_status status)
unfolding report_end
report_end-farewell libc os status h = ground arith

pub main-parent :
    (libc : Libc) (os : System) (call : PendingCall) (self program : Bytes) (args : List Bytes)
    (mode n : ℕ)
    → os.lstat program ≡ some mode
    → is_executable mode ≡ true
    → os.forked ≡ some (suc n)
    → main libc os call (self ∷ program ∷ args)
      ≡ (fork ∷ (parent_side libc os call (suc n)).0, (parent_side libc os call (suc n)).1)
unfolding main launch
main-parent libc os call self program args mode n found allowed forks = ground arith

module _ (libc : Libc) (os : System) (call : PendingCall) (child : ℕ) where
  -- The status that ends a part is that of an end.
  abbrev IsOver : Flow → Type 0
  IsOver (finished status) = ends (read_status status) ≡ true
  IsOver _ = Unit

  done-IsOver :
      (todo : List (Effect × Verdict)) (last : List Effect × Flow)
      → IsOver last.1
      → IsOver (done todo last).1
  done-IsOver [] last h = h
  done-IsOver ((effect, passed) ∷ later) last h = done-IsOver later last h
  done-IsOver ((effect, broke) ∷ later) last h = tt
  done-IsOver ((effect, hangs) ∷ later) last h = tt

  trace-IsOver : (flow : Flow) → (trace libc child child call os.rounds).1 ≡ flow → IsOver flow
  trace-IsOver (finished status) e = trace-ends libc child child call os.rounds status e
  trace-IsOver (go_on s) e = tt
  trace-IsOver failed e = tt
  trace-IsOver waiting e = tt

  finish-given_up :
      (all : List Effect) (answer : WaitResult)
      → finish libc os (all, elim answer [ wait_pending ↦ stop blocked | _ ↦ stop (returns 1) ])
        ≡ (all, elim answer [ wait_pending ↦ blocked | _ ↦ returns 1 ])
  finish-given_up all (wait_ok status) = refl
  finish-given_up all wait_error = refl
  finish-given_up all wait_pending = refl

  finish-closed :
      (first : List Effect) (p : List Effect × Flow)
      → IsOver p.1
      → finish libc os (first ++ (closed libc os call child p).0, (closed libc os call child p).1)
        ≡ (first ++ (p.0 ++ (ending libc os child p.1).0), (ending libc os child p.1).1)
  unfolding give_up
  finish-closed first (effects, finished status) h =
      (λ i. (
        (first ++ effects) ++ (report_end-farewell libc os status h i).0,
        (report_end-farewell libc os status h i).1,
      ))
      ∙ ap (λ l. (l, (farewell libc (read_status status)).1))
          (append_assoc first effects (farewell libc (read_status status)).0)
  finish-closed first (effects, failed) h =
      finish-given_up (first ++ (effects ++ (give_up libc os {A = ℕ} child).0))
        (wait_child child os.last_waits)
  finish-closed first (effects, waiting) h =
      ap (λ l. (first ++ l, blocked)) (sym (append-nil effects))
  finish-closed first (effects, go_on s) h =
      ap (λ l. (first ++ l, blocked)) (sym (append-nil effects))

  parent_side-course :
      let flow = (course libc os call child).1 in
      parent_side libc os call child ≡ (
        install_handlers libc os
            ++ ((course libc os call child).0 ++ (ending libc os child flow).0),
        (ending libc os child flow).1,
      )
  unfolding parent_side
  parent_side-course =
      ap (λ p. finish libc os (install_handlers libc os ++ p.0, p.1))
        (attach-closed libc os call child)
      ∙ finish-closed (install_handlers libc os) (course libc os call child) (
          done-IsOver (steps os child) _
            (trace-IsOver (trace libc child child call os.rounds).1 refl))

-- With an executable file and a fork that succeeds, the parent does this, in this order. It installs
-- its handlers. It waits for the child to stop, seizes it with the options, interrupts it, waits for
-- it, and traces it, and does nothing more of this once a step has failed or has not returned. Where a
-- step or the trace has failed, it then says so, kills the child with SIGKILL and waits for it, and
-- returns 1 if that wait returns. Where the child has exited, it reports the code and returns it. Where
-- a signal has ended the child, it reports the signal, sets that to its default, unblocks and raises
-- it, and returns 128 more than the signal if it goes on. Where a wait has not returned, it does no more.
pub main-supervision :
    (libc : Libc) (os : System) (call : PendingCall) (self program : Bytes) (args : List Bytes)
    (mode n : ℕ)
    → os.lstat program ≡ some mode
    → is_executable mode ≡ true
    → os.forked ≡ some (suc n)
    → let parts = course libc os call (suc n) in
      let end = ending libc os (suc n) parts.1 in
      main libc os call (self ∷ program ∷ args) ≡ (
        fork
            ∷ install sigint handler_int
            ∷ install sigterm handler_kill
            ∷ install sighup handler_int
            ∷ (parts.0 ++ end.0),
        end.1,
      )
main-supervision libc os call self program args mode n found allowed forks =
    main-parent libc os call self program args mode n found allowed forks
    ∙ ap (λ run. (fork ∷ run.0, run.1)) (parent_side-course libc os call (suc n))
