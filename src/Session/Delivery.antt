-- ===== src/Session/Delivery.antt =====
-- ft_strace.c, `main`: what a signal that the tracer raises does to it, by the dispositions and the
-- signal mask that its calls of `signal` and `sigprocmask`, which are taken to succeed, have left.
use make_strace.Common.{ℕ, Bool, true, false, List, [], ◌∷◌, ◌==◌, if◌then◌else◌}
use make_strace.Session.Effects.{
  Handler, Effect, install, set_default, unblock, raise, Outcome, died,
}
use make_strace.Session.Interrupts.{handle}

pub data Disposition : Type 0 where
  default ignored : Disposition
  caught : Handler → Disposition

-- The disposition of each signal, and whether it is blocked.
pub record Signals : Type 0 where
  pub disposition : ℕ → Disposition
  pub blocked : ℕ → Bool

abbrev pub disposed : Signals → ℕ → Disposition → Signals
disposed st sig d = record st { disposition = λ s. if s == sig then d else st.disposition s }

abbrev pub unblocked : Signals → ℕ → Signals
unblocked st sig = record st { blocked = λ s. if s == sig then false else st.blocked s }

-- The end of a raised signal, where `later` is what comes if the process goes on. `terminates` tells
-- the signals whose default action ends the process.
abbrev pub raised : (ℕ → Bool) → ℕ → ℕ → Bool → Disposition → Outcome → Outcome
raised terminates pid_temp sig true d later = later
raised terminates pid_temp sig false default later = if terminates sig then died sig else later
raised terminates pid_temp sig false ignored later = later
raised terminates pid_temp sig false (caught h) later = (handle h pid_temp).1

-- How a process ends that has some effects, and whose code then ends by `outcome`.
unfoldable pub ended : (ℕ → Bool) → ℕ → Signals → List Effect → Outcome → Outcome
ended terminates pid_temp st [] outcome = outcome
ended terminates pid_temp st (install sig h ∷ effects) outcome =
    ended terminates pid_temp (disposed st sig (caught h)) effects outcome
ended terminates pid_temp st (set_default sig ∷ effects) outcome =
    ended terminates pid_temp (disposed st sig default) effects outcome
ended terminates pid_temp st (unblock sig ∷ effects) outcome =
    ended terminates pid_temp (unblocked st sig) effects outcome
ended terminates pid_temp st (raise sig ∷ effects) outcome =
    raised terminates pid_temp sig (st.blocked sig) (st.disposition sig)
      (ended terminates pid_temp st effects outcome)
ended terminates pid_temp st (_ ∷ effects) outcome = ended terminates pid_temp st effects outcome
