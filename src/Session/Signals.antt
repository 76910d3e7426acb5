-- ===== src/Session/Signals.antt =====
-- ft_strace.c: signals that reach the tracer while `main` sets up the child and traces it.
use mathlib.Core.Path.{subst}
use make_strace.Common.{
  ℕ, zero, suc, ◌+◌, ◌-◌, ◌≤◌, ◌≡◌, refl, sym, ap, ◌∙◌, Bool, true, false, Option, none, some, List,
  [], ◌∷◌, ◌++◌, append-nil, Bytes, take, length, leb, ◌==◌, arith, if◌then◌else◌,
}
use make_strace.Syscall.{PendingCall}
use make_strace.Trace.{Libc, Action, Flow, go_on, finished, failed, waiting, trace}
use make_strace.Session.{
  System, sigint, sigterm, sighup, sigkill, is_executable, handler, handler_term, give_up, await,
  require, after_trace, trace_child, attach_and_trace, report_end, parent_side, main,
  install_handlers, finish,
}
use make_strace.Session.Effects.{
  Handler, handler_int, handler_kill, Effect, fork, install, Outcome, exits, died, next, stop, Prog,
  traced,
}
use make_strace.Session.Supervision.{main-parent}
use make_strace.Session.Interrupts.{
  kills, kills-append, observed, handle, handler_after, pid_temp_after, on_signal, interrupted,
  installed_after, dispositions, dispositions-append, dispositions-traced, handler_after-take,
  take-append,
}

-- How an interrupted run shows from outside.
abbrev stopped : ℕ → ℕ → Bool → List Effect → List (ℕ × ℕ) × Outcome
stopped child sig ready done = (
  if ready then kills done ++ (child, sigkill) ∷ [] else kills done,
  if ready then exits 1 else died sig,
)

handle-observed :
    (h : Handler) (n : ℕ) → observed (handle h (suc n)) ≡ ((suc n, sigkill) ∷ [], exits 1)
unfolding handler handler_term kills
handle-observed handler_int n = ground arith
handle-observed handler_kill n = ground arith

on_signal-observed :
    (n sig : ℕ) (done : List Effect) (h : Handler)
    → observed (on_signal sig (suc n) done (some h)) ≡ stopped (suc n) sig true done
on_signal-observed n sig done h =
    let seen = handle-observed h n in
    λ i. ((kills-append done (handle h (suc n)).0 ∙ ap (λ s. kills done ++ s.0) seen) i, (seen i).1)

-- The effects of the parent, with `rest` behind the installation of the handlers.
abbrev parent_effects : List Effect → List Effect
parent_effects rest =
    fork
    ∷ install sigint handler_int
    ∷ install sigterm handler_kill
    ∷ install sighup handler_int
    ∷ rest

-- The handler of a signal after the first `k` of these effects.
abbrev handler_by : ℕ → ℕ → Option ℕ → Option Handler
handler_by sig k none = none
handler_by sig k (some first) =
    if leb first k then some (if sig == sigterm then handler_kill else handler_int) else none

abbrev expected_handler : ℕ → ℕ → Option Handler
expected_handler sig k = handler_by sig k (installed_after sig)

expected_handler-stopped :
    (n sig k first : ℕ) (done : List Effect)
    → installed_after sig ≡ some first
    → observed (on_signal sig (suc n) done (expected_handler sig k))
      ≡ stopped (suc n) sig (leb first k) done
expected_handler-stopped n sig k first done e =
    ap (λ at. observed (on_signal sig (suc n) done (handler_by sig k at))) e
    ∙ by_ready (if sig == sigterm then handler_kill else handler_int) (leb first k)
  where
    by_ready :
        (h : Handler) (ready : Bool)
        → observed (on_signal sig (suc n) done (if ready then some h else none))
          ≡ stopped (suc n) sig ready done
    by_ready h true = on_signal-observed n sig done h
    by_ready h false = refl

all_installed :
    (sig first k : ℕ)
    → installed_after sig ≡ some first
    → 4 ≤ k
    → handler_after sig none (parent_effects []) ≡ expected_handler sig k
unfolding handler_after installed_after
all_installed sig first k e l = ground arith

handler_after-parent :
    (sig k first : ℕ) (rest : List Effect)
    → installed_after sig ≡ some first
    → ((h : Option Handler) → handler_after sig h (take (k - 4) rest) ≡ h)
    → handler_after sig none (take k (parent_effects rest)) ≡ expected_handler sig k
unfolding handler_after installed_after
handler_after-parent sig zero first rest e keep = ground arith
handler_after-parent sig (suc zero) first rest e keep = ground arith
handler_after-parent sig (suc (suc zero)) first rest e keep = ground arith
handler_after-parent sig (suc (suc (suc zero))) first rest e keep = ground arith
handler_after-parent sig (suc (suc (suc (suc k)))) first rest e keep =
    let h = handler_after sig none (parent_effects []) in
    ap (λ m. handler_after sig h (take m rest)) (omega arith)
    ∙ keep h
    ∙ all_installed sig first (suc (suc (suc (suc k)))) e (omega arith)

module _ (libc : Libc) (os : System) (call : PendingCall) (child : ℕ) where
  after_trace-dispositions :
      (run : List Action × Flow) → dispositions (after_trace libc os child run).0 ≡ []
  unfolding after_trace give_up dispositions
  after_trace-dispositions (actions, finished status) = dispositions-traced actions
  after_trace-dispositions (actions, failed) =
      dispositions-append (traced actions) (give_up libc os {A = ℕ} child).0
      ∙ ap (λ l. l ++ []) (dispositions-traced actions)
  after_trace-dispositions (actions, waiting) = dispositions-traced actions
  after_trace-dispositions (actions, go_on s) = dispositions-traced actions

  trace_child-dispositions : dispositions (trace_child libc os call child).0 ≡ []
  unfolding trace_child
  trace_child-dispositions = after_trace-dispositions (trace libc child child call os.rounds)

  attach-dispositions : dispositions (attach_and_trace libc os call child).0 ≡ []
  unfolding attach_and_trace await require give_up dispositions
  attach-dispositions = ground (arith, trace_child-dispositions)

  -- What stands in a run of the parent behind the set-up and the trace.
  finish-extends : (p : Prog ℕ) → (tail : List Effect) × ((finish libc os p).0 ≡ p.0 ++ tail)
  finish-extends (effects, next status) = ((report_end libc os status).0, refl)
  finish-extends (effects, stop outcome) = ([], sym (append-nil effects))

none_yet : (sig first : ℕ) → installed_after sig ≡ some first → expected_handler sig 0 ≡ none
unfolding installed_after
none_yet sig first e = ground arith

not_yet : (sig first : ℕ) → installed_after sig ≡ some first → leb first 0 ≡ false
unfolding installed_after
not_yet sig first e = ground arith

parent-stopped :
    (n sig k first : ℕ) (rest : List Effect)
    → installed_after sig ≡ some first
    → observed (
        on_signal sig
          (pid_temp_after (suc n) (take k (parent_effects rest)))
          (take k (parent_effects rest))
          (expected_handler sig k))
      ≡ stopped (suc n) sig (leb first k) (take k (parent_effects rest))
unfolding pid_temp_after
parent-stopped n sig zero first rest e =
    ap (λ h. observed (on_signal sig 0 [] h)) (none_yet sig first e)
    ∙ ap (λ ready. stopped (suc n) sig ready []) (sym (not_yet sig first e))
parent-stopped n sig (suc k) first rest e =
    expected_handler-stopped n sig (suc k) first (take (suc k) (parent_effects rest)) e

interrupted-parent :
    (n sig k first : ℕ) (rest : List Effect) (outcome : Outcome)
    → installed_after sig ≡ some first
    → ((h : Option Handler) → handler_after sig h (take (k - 4) rest) ≡ h)
    → observed (interrupted (suc n) sig k (parent_effects rest, outcome))
      ≡ stopped (suc n) sig (leb first k) (take k (parent_effects rest))
unfolding interrupted
interrupted-parent n sig k first rest outcome e keep =
    let done = take k (parent_effects rest) in
    ap (λ h. observed (on_signal sig (pid_temp_after (suc n) done) done h))
      (handler_after-parent sig k first rest e keep)
    ∙ parent-stopped n sig k first rest e

-- A run of the parent begins with the fork and the handlers, and goes on with the set-up and the
-- trace.
parent-effects :
    (libc : Libc) (os : System) (call : PendingCall) (child : ℕ)
    → (tail : List Effect) × (fork ∷ (parent_side libc os call child).0
        ≡ parent_effects ((attach_and_trace libc os call child).0 ++ tail))
unfolding parent_side
parent-effects libc os call child =
    let attached = attach_and_trace libc os call child in
    let (tail, e) =
      finish-extends libc os call child (install_handlers libc os ++ attached.0, attached.1) in
    (tail, ap (λ l. fork ∷ l) e)

-- In the parent, a signal SIGINT, SIGTERM or SIGHUP that arrives at any point of the set-up and the
-- trace has one of two ends. Once its handler is installed, the handler kills the child, with SIGKILL
-- and once, and the tracer exits with 1. Before that, where the signal has its default action (as it
-- has unless the tracer was started with it ignored or blocked), the tracer dies of it, and no more is
-- killed than before it.
pub main-interrupted :
    (libc : Libc) (os : System) (call : PendingCall) (self program : Bytes) (args : List Bytes)
    (mode n sig first k : ℕ)
    → os.lstat program ≡ some mode
    → is_executable mode ≡ true
    → os.forked ≡ some (suc n)
    → installed_after sig ≡ some first
    → k ≤ 4 + length (attach_and_trace libc os call (suc n)).0
    → let run = main libc os call (self ∷ program ∷ args) in
      let cut = interrupted (suc n) sig k run in
      (kills cut.0 ≡ (
        if leb first k
        then kills (take k run.0) ++ (suc n, sigkill) ∷ []
        else kills (take k run.0)))
      × (cut.1 ≡ (if leb first k then exits 1 else died sig))
main-interrupted libc os call self program args mode n sig first k found allowed forks e l =
    let child = suc n in
    let attached = (attach_and_trace libc os call child).0 in
    let parent = parent_side libc os call child in
    let (tail, effects) = parent-effects libc os call child in
    let run_is : main libc os call (self ∷ program ∷ args)
        ≡ (parent_effects (attached ++ tail), parent.1) =
      main-parent libc os call self program args mode n found allowed forks
      ∙ ap (λ l. (l, parent.1)) effects in
    let keep : (h : Option Handler) → handler_after sig h (take (k - 4) (attached ++ tail)) ≡ h =
      λ h.
        ap (handler_after sig h) (take-append (k - 4) attached tail (omega arith))
        ∙ handler_after-take sig (k - 4) h attached (attach-dispositions libc os call child) in
    let same =
      subst
        (λ run.
          observed (interrupted child sig k run) ≡ stopped child sig (leb first k) (take k run.0))
        (sym run_is) (interrupted-parent n sig k first (attached ++ tail) parent.1 e keep) in
    (ap (λ p. p.0) same, ap (λ p. p.1) same)
