-- ===== src/Session/Guards.antt =====
-- ft_strace.c, `main` before it forks: the test of the file's permissions.
use make_strace.Common.{
  ℕ, zero, suc, ◌+◌, ◌*◌, ◌%◌, ◌<◌, ◌≡◌, refl, ap, ◌∙◌, Bool, false, none, some, Option, List, [],
  ◌∷◌, ◌++◌, ◌||◌, ◌==◌, Bytes, codes, arith, take, if◌then◌else◌,
}
use make_strace.Syscall.{PendingCall}
use make_strace.Trace.{Libc, newline}
use make_strace.Session.{System, is_executable, launch, main}
use make_strace.Session.Effects.{fork, say}

-- There is a file name, and the file exists and may be executed by someone.
abbrev pub accepted : System → List Bytes → Bool
accepted os [] = false
accepted os (self ∷ []) = false
accepted os (self ∷ program ∷ args) = elim (os.lstat program) [
  | none ↦ false
  | some mode ↦ is_executable mode
]

-- The execute permission in an octal digit of a mode.
abbrev pub may_execute : ℕ → Bool
may_execute digit = digit % 2 == 1

is_executable-digits :
    (kind user group other : ℕ)
    → user < 8
    → group < 8
    → other < 8
    → is_executable (kind * 0o1000 + user * 0o100 + group * 0o10 + other)
      ≡ (may_execute user || may_execute group || may_execute other)
unfolding is_executable
is_executable-digits kind user group other u g o = ground arith

launch-fork :
    (libc : Libc) (os : System) (call : PendingCall) (program : Bytes) (argv : List Bytes)
    (forked : Option ℕ)
    → take 1 (launch libc os call program argv forked).0 ≡ fork ∷ []
unfolding launch
launch-fork libc os call program argv none = refl
launch-fork libc os call program argv (some zero) = refl
launch-fork libc os call program argv (some (suc n)) = refl

-- Of a file whose mode ends in the octal digits `user`, `group` and `other`, `main` forks first if an
-- odd one is among them, that is, if the owner, the group or the others may execute it; and it says
-- that the file is not executable first if all three are even.
pub main-permissions :
    (libc : Libc) (os : System) (call : PendingCall) (self program : Bytes) (args : List Bytes)
    (kind user group other : ℕ)
    → user < 8
    → group < 8
    → other < 8
    → os.lstat program ≡ some (kind * 0o1000 + user * 0o100 + group * 0o10 + other)
    → take 1 (main libc os call (self ∷ program ∷ args)).0 ≡ (
        if may_execute user || may_execute group || may_execute other
        then fork ∷ []
        else say (codes "strace: is not executable" ++ newline) ∷ [])
unfolding main
main-permissions libc os call self program args kind user group other u g o e =
    let mode = kind * 0o1000 + user * 0o100 + group * 0o10 + other in
    by_mode mode e
    ∙ ap
        (λ allowed.
          if allowed then fork ∷ [] else say (codes "strace: is not executable" ++ newline) ∷ [])
        (is_executable-digits kind user group other u g o)
  where
    by_mode :
        (mode : ℕ)
        → os.lstat program ≡ some mode
        → take 1 (main libc os call (self ∷ program ∷ args)).0 ≡ (
            if is_executable mode
            then fork ∷ []
            else say (codes "strace: is not executable" ++ newline) ∷ [])
    by_mode mode e = ground (arith, launch-fork libc os call program (program ∷ args) os.forked)
