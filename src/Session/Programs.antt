-- ===== src/Session/Programs.antt =====
-- ft_strace.c, `main`: the processes that a run creates and the program that it runs, on every path.
use make_strace.Common.{
  ℕ, zero, suc, ◌≡◌, refl, ap, ◌∙◌, none, some, List, [], ◌∷◌, ◌++◌, append-nil, Bytes, arith,
  if◌then◌else◌, Option,
}
use make_strace.Syscall.{PendingCall}
use make_strace.Trace.{Libc, Action, Flow, go_on, finished, failed, waiting, trace}
use make_strace.Session.{
  System, give_up, await, require, after_trace, trace_child, attach_and_trace, report_end,
  child_side, parent_side, launch, main, install_handlers, finish,
}
use make_strace.Session.Effects.{Effect, fork, execvp, next, stop, Prog, traced}
use make_strace.Session.Guards.{accepted}

-- The calls of `fork` and `execvp` among some effects.
unfoldable pub processes : List Effect → List Effect
processes [] = []
processes (fork ∷ effects) = fork ∷ processes effects
processes (execvp file argv ∷ effects) = execvp file argv ∷ processes effects
processes (_ ∷ effects) = processes effects

-- What a run creates and runs: nothing without an executable file; else a child, in which the
-- program runs with the arguments behind the tracer's own name.
abbrev pub planned : System → List Bytes → List Effect
planned os (self ∷ program ∷ args) =
    if accepted os (self ∷ program ∷ args)
    then fork ∷ (elim os.forked [ some zero ↦ execvp program (program ∷ args) ∷ [] | _ ↦ [] ])
    else []
planned os _ = []

processes-append : (xs ys : List Effect) → processes (xs ++ ys) ≡ processes xs ++ processes ys
unfolding processes
processes-append [] ys = refl
processes-append (fork ∷ xs) ys = ap (λ l. fork ∷ l) (processes-append xs ys)
processes-append (execvp file argv ∷ xs) ys =
    ap (λ l. execvp file argv ∷ l) (processes-append xs ys)
processes-append (_ ∷ xs) ys = processes-append xs ys

processes-traced : (actions : List Action) → processes (traced actions) ≡ []
unfolding processes traced
processes-traced [] = refl
processes-traced (action ∷ actions) = processes-traced actions

module _ (libc : Libc) (os : System) (call : PendingCall) (child : ℕ) where
  after_trace-processes :
      (run : List Action × Flow) → processes (after_trace libc os child run).0 ≡ []
  unfolding after_trace give_up processes
  after_trace-processes (actions, finished status) = processes-traced actions
  after_trace-processes (actions, failed) =
      processes-append (traced actions) (give_up libc os {A = ℕ} child).0
      ∙ ap (λ l. l ++ []) (processes-traced actions)
  after_trace-processes (actions, waiting) = processes-traced actions
  after_trace-processes (actions, go_on s) = processes-traced actions

  trace_child-processes : processes (trace_child libc os call child).0 ≡ []
  unfolding trace_child
  trace_child-processes = after_trace-processes (trace libc child child call os.rounds)

  attach-processes : processes (attach_and_trace libc os call child).0 ≡ []
  unfolding attach_and_trace await require give_up processes
  attach-processes = ground (arith, trace_child-processes)

  report_end-processes : (status : ℕ) → processes (report_end libc os status).0 ≡ []
  unfolding report_end processes
  report_end-processes status = ground arith

  finish-processes : (p : Prog ℕ) → processes (finish libc os p).0 ≡ processes p.0
  finish-processes (effects, next status) =
      processes-append effects (report_end libc os status).0
      ∙ ap (λ l. processes effects ++ l) (report_end-processes status)
      ∙ append-nil (processes effects)
  finish-processes (effects, stop outcome) = refl

  parent_side-processes : processes (parent_side libc os call child).0 ≡ []
  unfolding parent_side processes
  parent_side-processes =
      let attached = attach_and_trace libc os call child in
      finish-processes (install_handlers libc os ++ attached.0, attached.1) ∙ attach-processes

child_side-processes :
    (libc : Libc) (os : System) (program : Bytes) (argv : List Bytes)
    → processes (child_side libc os program argv).0 ≡ execvp program argv ∷ []
unfolding child_side processes
child_side-processes libc os program argv = ground arith

launch-processes :
    (libc : Libc) (os : System) (call : PendingCall) (program : Bytes) (argv : List Bytes)
    (forked : Option ℕ)
    → processes (launch libc os call program argv forked).0
      ≡ fork ∷ (elim forked [ some zero ↦ execvp program argv ∷ [] | _ ↦ [] ])
unfolding launch processes
launch-processes libc os call program argv none = refl
launch-processes libc os call program argv (some zero) =
    ap (λ l. fork ∷ l) (child_side-processes libc os program argv)
launch-processes libc os call program argv (some (suc n)) =
    ap (λ l. fork ∷ l) (parent_side-processes libc os call (suc n))

-- On every path, `main` forks once if its arguments are accepted and never if they are not, and it
-- calls `execvp` in the child alone: once, with the name that it gave to `lstat` for the file, and that
-- name and the arguments behind it for the vector. It does neither again in the trace or at its end.
pub main-processes :
    (libc : Libc) (os : System) (call : PendingCall) (argv : List Bytes)
    → processes (main libc os call argv).0 ≡ planned os argv
unfolding main processes
main-processes libc os call [] = refl
main-processes libc os call (self ∷ []) = refl
main-processes libc os call (self ∷ program ∷ args) =
    ground (arith, launch-processes libc os call program (program ∷ args) os.forked)
