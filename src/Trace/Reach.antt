-- ===== src/Trace/Reach.antt =====
-- ft_strace.c, `trace`: the states that the loop can be in at the head of an iteration, whatever the
-- kernel answers.
use make_strace.Common.{ℕ, ◌≡◌}
use make_strace.Syscall.{PendingCall}
use make_strace.Trace.{Libc, Round, TraceState, go_on, initial, trace_round}

pub data Reach (libc : Libc) (pid child : ℕ) (call : PendingCall) : TraceState → Type 0 where
  start : Reach libc pid child call (initial call)
  next :
      {s s' : TraceState} (r : Round)
      → Reach libc pid child call s
      → (trace_round libc pid child s r).1 ≡ go_on s'
      → Reach libc pid child call s'
