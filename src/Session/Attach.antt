-- ===== src/Session/Attach.antt =====
-- ft_strace.c, the condition that `main` sets up and traces the child in, as a list of steps.
use make_strace.Common.{ℕ, ◌≡◌, refl, ap, ◌∙◌, Bool, true, false, List, [], ◌∷◌, ◌++◌, codes}
use make_strace.Syscall.{PendingCall}
use make_strace.Wait.{
  WaitAnswer, WaitResult, wait_ok, wait_error, wait_pending, wait_child, wifstopped,
}
use make_strace.Trace.{Libc, Action, Flow, go_on, finished, failed, waiting, trace}
use make_strace.Session.{
  System, sigkill, wuntraced, options, give_up, await, require, after_trace, trace_child,
  attach_and_trace,
}
use make_strace.Session.Effects.{
  perform, ◌>>=◌, ◌>>◌, Effect, perror, kill, wait, seize, interrupt, returns, blocked, next, stop,
  Prog, traced,
}
use make_strace.Session.Course.{Verdict, passed, broke, hangs, tested, waited_for, done, course}

module _ (libc : Libc) (os : System) (call : PendingCall) (child : ℕ) where
  -- A part of the parent's run as a program, which gives up where the part fails.
  abbrev pub closed : List Effect × Flow → Prog ℕ
  closed (effects, finished status) = (effects, next status)
  closed (effects, failed) =
      (effects ++ (give_up libc os {A = ℕ} child).0, (give_up libc os {A = ℕ} child).1)
  closed (effects, waiting) = (effects, stop blocked)
  closed (effects, go_on _) = (effects, stop blocked)

  after_trace-closed :
      (run : List Action × Flow) → after_trace libc os child run ≡ closed (traced run.0, run.1)
  unfolding after_trace
  after_trace-closed (actions, finished status) = refl
  after_trace-closed (actions, failed) = refl
  after_trace-closed (actions, waiting) = refl
  after_trace-closed (actions, go_on s) = refl

  trace_child-closed :
      let run = trace libc child child call os.rounds in
      trace_child libc os call child ≡ closed (traced run.0, run.1)
  unfolding trace_child
  trace_child-closed = after_trace-closed (trace libc child child call os.rounds)

  -- A step in front.
  abbrev step : Effect → Prog ℕ → Prog ℕ
  step effect p = (effect ∷ p.0, p.1)

  step-closed :
      (effect : Effect) (p : List Effect × Flow)
      → step effect (closed p) ≡ closed (effect ∷ p.0, p.1)
  step-closed effect (effects, finished status) = refl
  step-closed effect (effects, failed) = refl
  step-closed effect (effects, waiting) = refl
  step-closed effect (effects, go_on s) = refl

  abbrev before : Effect → Verdict → Prog ℕ → Prog ℕ
  before effect passed p = step effect p
  before effect broke p = step effect (give_up libc os child)
  before effect hangs p = (effect ∷ [], stop blocked)

  before-closed :
      (effect : Effect) (verdict : Verdict) (later : List (Effect × Verdict))
      (last : List Effect × Flow)
      → before effect verdict (closed (done later last))
        ≡ closed (done ((effect, verdict) ∷ later) last)
  before-closed effect passed later last = step-closed effect (done later last)
  before-closed effect broke later last = refl
  before-closed effect hangs later last = refl

  -- Nothing comes behind `give_up`.
  give_up-bind :
      {A : Type 0} (f : A → Prog ℕ) → (give_up libc os {A = A} child >>= f) ≡ give_up libc os child
  unfolding give_up
  give_up-bind {A} f = by_answer (wait_child child os.last_waits)
    where
      last : {B : Type 0} → WaitResult → Prog B
      last answer = (
        perror (codes "ft_strace") ∷ kill child sigkill ∷ wait child 0 ∷ [],
        elim answer [ wait_pending ↦ stop blocked | _ ↦ stop (returns 1) ],
      )

      by_answer : (answer : WaitResult) → (last {B = A} answer >>= f) ≡ last answer
      by_answer (wait_ok status) = refl
      by_answer wait_error = refl
      by_answer wait_pending = refl

  given_up :
      {A : Type 0} (effect : Effect) (f : A → Prog ℕ)
      → ((perform effect >> give_up libc os {A = A} child) >>= f)
        ≡ step effect (give_up libc os child)
  given_up {A} effect f = shift (give_up libc os {A = A} child) ∙ ap (step effect) (give_up-bind f)
    where
      shift : (p : Prog A) → ((perform effect >> p) >>= f) ≡ step effect (p >>= f)
      shift (effects, next a) = refl
      shift (effects, stop outcome) = refl

  require_step :
      (effect : Effect) (good : Bool) (later : Prog ℕ)
      → (do perform effect; require libc os child good; later) ≡ before effect (tested good) later
  unfolding require
  require_step effect true later = refl
  require_step effect false later = ap (step effect) (give_up-bind (λ _. later))

  await_step :
      (flags : ℕ) (answers : List WaitAnswer) (later : Prog ℕ)
      → (do await libc os child flags answers; later)
        ≡ before (wait child flags) (waited_for (λ status. true) (wait_child child answers)) later
  unfolding await
  await_step flags answers later = by_answer (wait_child child answers)
    where
      by_answer :
          (answer : WaitResult)
          → ((do
            perform (wait child flags)
            elim answer as (λ _. Prog ℕ) [
              | wait_ok status ↦ ([], next status)
              | wait_error ↦ give_up libc os child
              | wait_pending ↦ ([], stop blocked)
            ])
              >> later)
            ≡ before (wait child flags) (waited_for (λ status. true) answer) later
      by_answer (wait_ok status) = refl
      by_answer wait_error = given_up {A = ℕ} (wait child flags) (λ _. later)
      by_answer wait_pending = refl

  await_good :
      (flags : ℕ) (answers : List WaitAnswer) (good : ℕ → Bool) (later : Prog ℕ)
      → (do status ← await libc os child flags answers; require libc os child (good status); later)
        ≡ before (wait child flags) (waited_for good (wait_child child answers)) later
  unfolding await require
  await_good flags answers good later = by_answer (wait_child child answers)
    where
      by_test :
          (test : Bool)
          → (do perform (wait child flags); require libc os child test; later)
            ≡ before (wait child flags) (tested test) later
      by_test true = refl
      by_test false = ap (step (wait child flags)) (give_up-bind (λ _. later))

      by_answer :
          (answer : WaitResult)
          → ((do
            perform (wait child flags)
            elim answer as (λ _. Prog ℕ) [
              | wait_ok status ↦ ([], next status)
              | wait_error ↦ give_up libc os child
              | wait_pending ↦ ([], stop blocked)
            ])
              >>= λ status. (require libc os child (good status) >> later))
            ≡ before (wait child flags) (waited_for good answer) later
      by_answer (wait_ok status) = by_test (good status)
      by_answer wait_error =
          given_up (wait child flags) (λ status. require libc os child (good status) >> later)
      by_answer wait_pending = refl

  before-rest :
      (effect : Effect) (verdict : Verdict) (later : List (Effect × Verdict))
      (last : List Effect × Flow) {p : Prog ℕ}
      → p ≡ closed (done later last)
      → before effect verdict p ≡ closed (done ((effect, verdict) ∷ later) last)
  before-rest effect verdict later last e =
      ap (before effect verdict) e ∙ before-closed effect verdict later last

  pub attach-closed : attach_and_trace libc os call child ≡ closed (course libc os call child)
  unfolding attach_and_trace
  attach-closed =
      let run = trace libc child child call os.rounds in
      let last : List Effect × Flow = (traced run.0, run.1) in
      let stop_wait = waited_for (λ status. wifstopped status) (wait_child child os.stop_waits) in
      let attach_wait = waited_for (λ status. true) (wait_child child os.attach_waits) in
      let attached : List (Effect × Verdict) = (wait child 0, attach_wait) ∷ [] in
      let stopped : List (Effect × Verdict) = (interrupt child, tested os.interrupted) ∷ attached in
      let seized : List (Effect × Verdict) = (seize child options, tested os.seized) ∷ stopped in
      await_good wuntraced os.stop_waits (λ status. wifstopped status) _
      ∙ before-rest (wait child wuntraced) stop_wait seized last (
          require_step (seize child options) os.seized _
          ∙ before-rest (seize child options) (tested os.seized) stopped last (
              require_step (interrupt child) os.interrupted _
              ∙ before-rest (interrupt child) (tested os.interrupted) attached last (
                  await_step 0 os.attach_waits _
                  ∙ before-rest (wait child 0) attach_wait [] last trace_child-closed)))
