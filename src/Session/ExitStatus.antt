-- ===== src/Session/ExitStatus.antt =====
-- ft_strace.c, `main`: the tracer ends as the child did.
use make_strace.Common.{
  ℕ, suc, ◌<◌, ◌≡◌, refl, ap, ◌∙◌, Bool, true, false, some, List, [], ◌∷◌, ◌++◌, Bytes, arith, All,
}
use make_strace.Syscall.{PendingCall}
use make_strace.Wait.Laws.{exited, signaled, status_word, read_status}
use make_strace.Trace.{Libc, Action, Flow, finished, trace}
use make_strace.Session.{System, sigint, sigterm, sighup, is_executable, main}
use make_strace.Session.Effects.{
  Effect, install, set_default, unblock, raise, handler_int, handler_kill, returns, Outcome, died,
  traced,
}
use make_strace.Session.Delivery.{Signals, caught, disposed, ended}
use make_strace.Session.Course.{
  Verdict, passed, broke, hangs, supervise, steps, done, course, farewell, ending,
}
use make_strace.Session.Supervision.{main-supervision}

module _ (libc : Libc) (os : System) (call : PendingCall) where
  course-supervise : (child : ℕ) → (course libc os call child).1 ≡ supervise libc os call child
  course-supervise child = ground arith

-- An effect that changes no disposition and no signal mask, and raises nothing.
abbrev is_calm : Effect → Bool
is_calm (install sig h) = false
is_calm (set_default sig) = false
is_calm (unblock sig) = false
is_calm (raise sig) = false
is_calm _ = true

abbrev IsCalm : List Effect → Type 0
IsCalm effects = All (λ effect. is_calm effect ≡ true) effects

ended-IsCalm :
    (terminates : ℕ → Bool) (pid : ℕ) (st : Signals) (first later : List Effect) (outcome : Outcome)
    → IsCalm first
    → ended terminates pid st (first ++ later) outcome ≡ ended terminates pid st later outcome
unfolding ended
ended-IsCalm terminates pid st [] later outcome h = refl
ended-IsCalm terminates pid st (install sig handler ∷ first) later outcome h = cc
ended-IsCalm terminates pid st (set_default sig ∷ first) later outcome h = cc
ended-IsCalm terminates pid st (unblock sig ∷ first) later outcome h = cc
ended-IsCalm terminates pid st (raise sig ∷ first) later outcome h = cc
ended-IsCalm terminates pid st (_ ∷ first) later outcome h =
    ended-IsCalm terminates pid st first later outcome h.1

traced-IsCalm : (actions : List Action) → IsCalm (traced actions)
unfolding traced
traced-IsCalm [] = tt
traced-IsCalm (action ∷ actions) = (refl, traced-IsCalm actions)

done-IsCalm :
    (todo : List (Effect × Verdict)) (last : List Effect × Flow)
    → All (λ step. is_calm step.0 ≡ true) todo
    → IsCalm last.0
    → IsCalm (done todo last).0
done-IsCalm [] last h l = l
done-IsCalm ((effect, passed) ∷ later) last h l = (h.0, done-IsCalm later last h.1 l)
done-IsCalm ((effect, broke) ∷ later) last h l = (h.0, tt)
done-IsCalm ((effect, hangs) ∷ later) last h l = (h.0, tt)

course-IsCalm :
    (libc : Libc) (os : System) (call : PendingCall) (child : ℕ)
    → IsCalm (course libc os call child).0
course-IsCalm libc os call child =
    let run = trace libc child child call os.rounds in
    done-IsCalm (steps os child) (traced run.0, run.1) (refl, (refl, (refl, (refl, tt))))
      (traced-IsCalm run.0)

exited-farewell :
    (libc : Libc) (code : ℕ)
    → code < 256
    → (farewell libc (read_status (status_word (exited code)))).1 ≡ returns code
exited-farewell libc code h = ground arith

signaled-read_status :
    (sig : ℕ) (core : Bool)
    → 0 < sig
    → sig < 127
    → read_status (status_word (signaled sig core)) ≡ some (signaled sig core)
signaled-read_status sig true lo hi = ground arith
signaled-read_status sig false lo hi = ground arith

farewell-ended :
    (libc : Libc) (terminates : ℕ → Bool) (pid : ℕ) (st : Signals) (sig : ℕ) (core : Bool)
    → terminates sig ≡ true
    → let end = farewell libc (some (signaled sig core)) in
      ended terminates pid st end.0 end.1 ≡ died sig
unfolding ended
farewell-ended libc terminates pid st sig core h = ground (arith, h)

-- The dispositions once the handlers are installed.
abbrev with_handlers : Signals → Signals
with_handlers st =
    disposed (disposed (disposed st sigint (caught handler_int)) sigterm (caught handler_kill))
      sighup (caught handler_int)

-- When a child that was traced to its end has exited, the tracer returns the child's exit code.
pub main-exit_code :
    (libc : Libc) (os : System) (call : PendingCall) (self program : Bytes) (args : List Bytes)
    (mode n code : ℕ)
    → os.lstat program ≡ some mode
    → is_executable mode ≡ true
    → os.forked ≡ some (suc n)
    → code < 256
    → supervise libc os call (suc n) ≡ finished (status_word (exited code))
    → (main libc os call (self ∷ program ∷ args)).1 ≡ returns code
main-exit_code libc os call self program args mode n code found allowed forks h e =
    ap (λ run. run.1) (main-supervision libc os call self program args mode n found allowed forks)
    ∙ ap (λ flow. (ending libc os (suc n) flow).1) (course-supervise libc os call (suc n) ∙ e)
    ∙ exited-farewell libc code h

-- When a child that was traced to its end was ended by a signal whose default action ends a process,
-- the tracer dies of the same signal, whatever dispositions and signal mask it was started with and
-- though it has handlers of its own, where `signal` and `sigprocmask` succeed.
pub main-signal :
    (libc : Libc) (os : System) (call : PendingCall) (self program : Bytes) (args : List Bytes)
    (mode n sig : ℕ) (core : Bool) (terminates : ℕ → Bool) (st : Signals)
    → os.lstat program ≡ some mode
    → is_executable mode ≡ true
    → os.forked ≡ some (suc n)
    → 0 < sig
    → sig < 127
    → supervise libc os call (suc n) ≡ finished (status_word (signaled sig core))
    → terminates sig ≡ true
    → let run = main libc os call (self ∷ program ∷ args) in
      ended terminates (suc n) st run.0 run.1 ≡ died sig
unfolding ended
main-signal libc os call self program args mode n sig core terminates st found allowed forks lo hi e
      h =
    let parts = course libc os call (suc n) in
    let end = ending libc os (suc n) parts.1 in
    let st' = with_handlers st in
    ap (λ run. ended terminates (suc n) st run.0 run.1)
      (main-supervision libc os call self program args mode n found allowed forks)
    ∙ ended-IsCalm terminates (suc n) st' parts.0 end.0 end.1 (course-IsCalm libc os call (suc n))
    ∙ ap
        (λ flow.
          ended terminates (suc n) st' (ending libc os (suc n) flow).0
            (ending libc os (suc n) flow).1)
        (course-supervise libc os call (suc n) ∙ e)
    ∙ ap (λ report. ended terminates (suc n) st' (farewell libc report).0 (farewell libc report).1)
        (signaled-read_status sig core lo hi)
    ∙ farewell-ended libc terminates (suc n) st' sig core h
