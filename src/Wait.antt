-- ===== src/Wait.antt =====
-- ft_strace.c: the status words of `waitpid`, by the macros of <sys/wait.h>, and `wait_child`.
pub mod Laws
use make_strace.Common.{
  ℕ, ◌+◌, ◌/◌, ◌%◌, ◌^◌, Bool, true, false, List, [], ◌∷◌, ltb, ◌==◌, if◌then◌else◌,
}

abbrev pub wtermsig : ℕ → ℕ
wtermsig status = status % 2 ^ 7

abbrev pub wexitstatus : ℕ → ℕ
wexitstatus status = status / 2 ^ 8 % 2 ^ 8

abbrev pub wstopsig : ℕ → ℕ
wstopsig status = wexitstatus status

abbrev pub wifexited : ℕ → Bool
wifexited status = wtermsig status == 0

-- `((signed char)((status & 0x7f) + 1) >> 1) > 0`.
abbrev pub wifsignaled : ℕ → Bool
wifsignaled status = let c = wtermsig status + 1 in if c == 128 then false else ltb 0 (c / 2)

abbrev pub wifstopped : ℕ → Bool
wifstopped status = status % 2 ^ 8 == 0x7f

-- `status >> 16`, the event of a ptrace stop.
abbrev pub event_of : ℕ → ℕ
event_of status = status / 2 ^ 16

-- One return of `waitpid`: the process with its status, or -1 with errno.
pub data WaitAnswer : Type 0 where
  waited : ℕ → ℕ → WaitAnswer
  wait_failed : ℕ → WaitAnswer

abbrev pub eintr : ℕ
eintr = 4

-- 0 with the status, -1, or still waiting when the kernel's answers are used up.
pub data WaitResult : Type 0 where
  wait_ok : ℕ → WaitResult
  wait_error : WaitResult
  wait_pending : WaitResult

-- The answers are those of the successive calls of `waitpid`.
unfoldable pub wait_child : ℕ → List WaitAnswer → WaitResult
wait_child child [] = wait_pending
wait_child child (wait_failed errno ∷ answers) =
    if errno == eintr then wait_child child answers else wait_error
wait_child child (waited pid status ∷ answers) = if pid == child then wait_ok status else wait_error
