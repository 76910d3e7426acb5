-- ===== src/Session/Effects.antt =====
-- ft_strace.c, `main` and the handlers: their effects on the system, how a run ends, and the
-- sequencing of steps of which each may end the run.
use make_strace.Common.{ℕ, List, [], ◌∷◌, ◌++◌, Bytes}
use make_strace.Trace.{Action}

-- `handler` and `handler_term`.
pub data Handler : Type 0 where
  handler_int handler_kill : Handler

pub data Effect : Type 0 where
  say : Bytes → Effect
  perror : Bytes → Effect
  fork : Effect
  act : Action → Effect
  kill : ℕ → ℕ → Effect
  wait : ℕ → ℕ → Effect
  seize : ℕ → ℕ → Effect
  interrupt : ℕ → Effect
  install : ℕ → Handler → Effect
  raise : ℕ → Effect
  execvp : Bytes → List Bytes → Effect
  set_default : ℕ → Effect
  unblock : ℕ → Effect

-- A return of `main`, `_exit`, the program that `execvp` put in the process's place, a call that has
-- not returned, and an end by a signal. The outcome beside some effects is that of the code, if no
-- `raise` among them ends the process.
pub data Outcome : Type 0 where
  returns : ℕ → Outcome
  exits : ℕ → Outcome
  replaced : Outcome
  blocked : Outcome
  died : ℕ → Outcome

pub data Exit (A : Type 0) : Type 0 where
  next : A → Exit A
  stop : Outcome → Exit A

abbrev pub Prog : Type 0 → Type 0
Prog A = List Effect × Exit A

infixl 5 ◌>>=◌ ◌>>◌
abbrev pub ◌>>=◌ : {A B : Type 0} → Prog A → (A → Prog B) → Prog B
(effects, next a) >>= f = (effects ++ (f a).0, (f a).1)
(effects, stop outcome) >>= f = (effects, stop outcome)

abbrev pub ◌>>◌ : {A B : Type 0} → Prog A → Prog B → Prog B
m >> k = m >>= λ _. k

abbrev pub perform : Effect → Prog (Unit {0})
perform effect = (effect ∷ [], next tt)

abbrev pub perform_all : List Effect → Prog (Unit {0})
perform_all effects = (effects, next tt)

-- The actions of the tracing loop.
unfoldable pub traced : List Action → List Effect
traced [] = []
traced (action ∷ actions) = act action ∷ traced actions
