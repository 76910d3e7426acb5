-- ===== src/Session/Interrupts.antt =====
-- ft_strace.c: a signal that reaches the tracer after some of the effects of `main`, with the handlers
-- that are installed by then.
use make_strace.Common.{
  ℕ, zero, suc, ◌≤◌, ◌≡◌, refl, ap, Option, none, some, List, [], ◌∷◌, ◌++◌, take, length, ◌==◌,
  arith, if◌then◌else◌,
}
use make_strace.Trace.{Action}
use make_strace.Session.{sigint, sigterm, sighup, handler, handler_term}
use make_strace.Session.Effects.{
  Handler, handler_int, handler_kill, Effect, fork, kill, install, set_default, Outcome, died,
  traced,
}

abbrev pub handle : Handler → ℕ → List Effect × Outcome
handle handler_int = handler
handle handler_kill = handler_term

-- The handler of `sig` after some effects, where it was `h` before them.
unfoldable pub handler_after : ℕ → Option Handler → List Effect → Option Handler
handler_after sig h [] = h
handler_after sig h (install s h' ∷ effects) =
    handler_after sig (if s == sig then some h' else h) effects
handler_after sig h (set_default s ∷ effects) =
    handler_after sig (if s == sig then none else h) effects
handler_after sig h (_ ∷ effects) = handler_after sig h effects

-- The variable `pid_temp` after some effects: 0 until the fork.
unfoldable pub pid_temp_after : ℕ → List Effect → ℕ
pid_temp_after child [] = 0
pid_temp_after child (fork ∷ effects) = child
pid_temp_after child (_ ∷ effects) = pid_temp_after child effects

-- A run that `sig` reaches after its first `k` effects: the handler runs, or the signal's default
-- action ends the tracer.
abbrev pub on_signal : ℕ → ℕ → List Effect → Option Handler → List Effect × Outcome
on_signal sig pid_temp done none = (done, died sig)
on_signal sig pid_temp done (some h) = (done ++ (handle h pid_temp).0, (handle h pid_temp).1)

unfoldable pub interrupted : ℕ → ℕ → ℕ → List Effect × Outcome → List Effect × Outcome
interrupted child sig k run =
    let done = take k run.0 in
    on_signal sig (pid_temp_after child done) done (handler_after sig none done)

-- After how many effects the handler of a signal is installed.
unfoldable pub installed_after : ℕ → Option ℕ
installed_after sig =
    if sig == sigint
    then some 2
    else if sig == sigterm
    then some 3
    else if sig == sighup
    then some 4
    else none

-- The changes of a signal's handler among some effects.
unfoldable pub dispositions : List Effect → List Effect
dispositions [] = []
dispositions (install s h ∷ effects) = install s h ∷ dispositions effects
dispositions (set_default s ∷ effects) = set_default s ∷ dispositions effects
dispositions (_ ∷ effects) = dispositions effects

pub dispositions-append :
    (xs ys : List Effect) → dispositions (xs ++ ys) ≡ dispositions xs ++ dispositions ys
unfolding dispositions
dispositions-append [] ys = refl
dispositions-append (install s h ∷ xs) ys = ap (λ l. install s h ∷ l) (dispositions-append xs ys)
dispositions-append (set_default s ∷ xs) ys =
    ap (λ l. set_default s ∷ l) (dispositions-append xs ys)
dispositions-append (_ ∷ xs) ys = dispositions-append xs ys

pub dispositions-traced : (actions : List Action) → dispositions (traced actions) ≡ []
unfolding dispositions traced
dispositions-traced [] = refl
dispositions-traced (action ∷ actions) = dispositions-traced actions

pub handler_after-take :
    (sig k : ℕ) (h : Option Handler) (effects : List Effect)
    → dispositions effects ≡ []
    → handler_after sig h (take k effects) ≡ h
unfolding dispositions handler_after
handler_after-take sig zero h effects e = refl
handler_after-take sig (suc k) h [] e = refl
handler_after-take sig (suc k) h (install s h' ∷ effects) e = cc
handler_after-take sig (suc k) h (set_default s ∷ effects) e = cc
handler_after-take sig (suc k) h (_ ∷ effects) e = handler_after-take sig k h effects e

pub take-append :
    {A : Type 0} (k : ℕ) (xs ys : List A) → k ≤ length xs → take k (xs ++ ys) ≡ take k xs
take-append zero xs ys l = refl
take-append (suc k) [] ys l = absurd (omega arith)
take-append (suc k) (x ∷ xs) ys l = ap (λ s. x ∷ s) (take-append k xs ys (omega arith))

-- The `kill` calls among some effects.
unfoldable pub kills : List Effect → List (ℕ × ℕ)
kills [] = []
kills (kill pid sig ∷ effects) = (pid, sig) ∷ kills effects
kills (_ ∷ effects) = kills effects

pub kills-append : (xs ys : List Effect) → kills (xs ++ ys) ≡ kills xs ++ kills ys
unfolding kills
kills-append [] ys = refl
kills-append (kill pid sig ∷ xs) ys = ap (λ l. (pid, sig) ∷ l) (kills-append xs ys)
kills-append (_ ∷ xs) ys = kills-append xs ys

-- What a run has killed, and how it ends.
abbrev pub observed : List Effect × Outcome → List (ℕ × ℕ) × Outcome
observed run = (kills run.0, run.1)
