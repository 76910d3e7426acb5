-- ===== src/Trace.antt =====
-- ft_strace.c, `trace`: one iteration of its loop, on what the kernel answers in it, and the loop
-- over the iterations. An iteration yields the actions that it performs, in their order.
pub mod Stops
pub mod Reach
pub mod Invariant
pub mod Deliveries
pub mod Ends
pub mod Over
pub mod Output
pub mod Calls
pub mod Transcript
pub mod Result
pub mod Lines
use make_strace.Common.{
  ℕ, Bool, true, false, ◌&&◌, ◌||◌, not, Option, none, some, List, [], ◌∷◌, ◌++◌, Bytes, codes, ltb,
  leb, ◌==◌, if◌then◌else◌,
}
use make_strace.Common.Int.{ℤ, pos, negsuc, int32, int64, magnitude}
use make_strace.Format.{format_hex, format_d, format_signed, format_s, print_base}
use make_strace.Tracee.{VmReadv}
use make_strace.Registers.{SyscallArgs, RegistersResult, registers, no_registers, read_registers}
use make_strace.Syscall.{PendingCall, print_entry, finish_args}
use make_strace.Wait.{
  WaitAnswer, WaitResult, wait_ok, wait_error, wait_pending, wait_child, wifexited, wifsignaled,
  wifstopped, wstopsig, event_of,
}

-- The texts of the C library: `sigabbrev_np`, with `none` for NULL, and `strerror`.
pub record Libc : Type 0 where
  pub sigabbrev_np : ℕ → Option Bytes
  pub strerror : ℕ → Bytes

-- The fields of `siginfo_t` that are printed.
pub record SigInfo : Type 0 where
  pub si_signo : ℕ
  pub si_code : ℤ
  pub si_pid : ℤ
  pub si_uid : ℕ

-- The kernel's answers to the calls of one iteration. Those to calls that are not made are not read.
pub record Round : Type 0 where
  pub resumed : Bool
  pub waits : List WaitAnswer
  pub siginfo : Option SigInfo
  pub regset : Option (ℕ × Bytes)
  pub vm : VmReadv

-- What the tracer does to the outside: resuming the child with a signal, and writing to stderr.
pub data Action : Type 0 where
  ptrace_syscall : ℕ → ℕ → Action
  write : Bytes → Action

-- The variables of `trace` between two iterations.
pub record TraceState : Type 0 where
  pub call : PendingCall
  pub in_syscall : Bool
  pub deliver : ℕ
  pub compat : Bool

-- Another iteration, the return of 0 with the last status, the return of -1, or a `waitpid` that has
-- not returned.
pub data Flow : Type 0 where
  go_on : TraceState → Flow
  finished : ℕ → Flow
  failed : Flow
  waiting : Flow

abbrev pub newline : Bytes
newline = 10 ∷ []

-- `SIGTRAP | 0x80`.
abbrev pub syscall_stop : ℕ
syscall_stop = 133

unfoldable pub initial : PendingCall → TraceState
initial call = record { call = call; in_syscall = false; deliver = 0; compat = false }

-- `result` of a register set at the exit of a call.
unfoldable pub result_of : SyscallArgs → ℤ
result_of regs = if regs.compat then int32 regs.rax else int64 regs.rax

abbrev pub is_errno : ℤ → Bool
is_errno (pos _) = false
is_errno (negsuc n) = leb n 4094

module _ (libc : Libc) where
  unfoldable pub print_result : SyscallArgs → Bytes
  unfolding result_of
  print_result regs =
      if is_errno (result_of regs)
      then codes " = -1 " ++ (libc.strerror (magnitude (result_of regs)) ++ newline)
      else codes " = " ++ (format_hex regs.rax ++ newline)

  unfoldable pub print_signal : ℕ → SigInfo → Bytes
  print_signal sig info =
      codes "--- "
      ++ (format_s (libc.sigabbrev_np sig)
          ++ (codes " {si_signo="
              ++ (format_s (libc.sigabbrev_np info.si_signo)
                  ++ (codes ", si_code="
                      ++ (format_signed info.si_code
                          ++ (codes ", si_pid="
                              ++ (format_signed info.si_pid
                                  ++ (codes ", si_uid="
                                      ++ (print_base 10 info.si_uid
                                          ++ (codes "} ---" ++ newline))))))))))

unfoldable pub print_mode : ℕ → Bool → Bytes
print_mode child compat =
    codes "[ Process PID="
    ++ (format_d child
        ++ (codes " runs in "
            ++ ((if compat then codes "32" else codes "64") ++ (codes " bit mode. ]" ++ newline))))

abbrev pub same_mode : Bool → Bool → Bool
same_mode true b = b
same_mode false b = not b

-- The outcome of an iteration, followed by the loop where that goes on.
abbrev pub chain : List Action × Flow → (TraceState → List Action × Flow) → List Action × Flow
chain (actions, go_on s) loop = (actions ++ (loop s).0, (loop s).1)
chain (actions, finished status) loop = (actions, finished status)
chain (actions, failed) loop = (actions, failed)
chain (actions, waiting) loop = (actions, waiting)

module _ (libc : Libc) (pid_temp child : ℕ) where
  -- The body of the loop from `if (in_syscall)`, at a stop for a system call.
  unfoldable pub at_syscall : TraceState → VmReadv → SyscallArgs → List Action × Flow
  at_syscall s vm regs =
      let finish =
        if s.in_syscall
        then write (finish_args vm pid_temp s.call (result_of regs))
          ∷ write (print_result libc regs)
          ∷ []
        else [] in
      let mode =
        if same_mode s.compat regs.compat then [] else write (print_mode child regs.compat) ∷ [] in
      let (text, call) = print_entry vm pid_temp regs in
      let entry = if s.in_syscall then [] else write text ∷ [] in
      (
        finish ++ (mode ++ entry),
        go_on (record {
          call = if s.in_syscall then s.call else call;
          in_syscall = not s.in_syscall;
          deliver = s.deliver;
          compat = regs.compat;
        }),
      )

  unfoldable pub at_registers : TraceState → Round → RegistersResult → List Action × Flow
  at_registers s r (no_registers _) = ([], failed)
  at_registers s r (registers regs) = at_syscall s r.vm regs

  unfoldable pub at_signal : TraceState → ℕ → Option SigInfo → List Action × Flow
  at_signal s sig none = ([], failed)
  at_signal s sig (some info) =
      (write (print_signal libc sig info) ∷ [], go_on (record s { deliver = sig }))

  -- The body of the loop behind `wait_child`.
  unfoldable pub at_status : TraceState → Round → ℕ → List Action × Flow
  at_status s r status =
      if wifexited status || wifsignaled status
      then (
        if s.in_syscall
            then write (finish_args r.vm pid_temp s.call (negsuc 0))
              ∷ write (codes " = ?" ++ newline)
              ∷ []
            else [],
        finished status,
      )
      else if not (wifstopped status) || not (event_of status == 0)
      then ([], go_on s)
      else if not (wstopsig status == syscall_stop)
      then at_signal s (wstopsig status) r.siginfo
      else at_registers s r (read_registers r.regset)

  unfoldable pub at_wait : TraceState → Round → WaitResult → List Action × Flow
  at_wait s r wait_pending = ([], waiting)
  at_wait s r wait_error = ([], failed)
  at_wait s r (wait_ok status) = at_status (record s { deliver = 0 }) r status

  -- One iteration of the loop.
  unfoldable pub trace_round : TraceState → Round → List Action × Flow
  trace_round s r =
      let (actions, flow) =
        if r.resumed then at_wait s r (wait_child child r.waits) else ([], failed) in
      (ptrace_syscall child s.deliver ∷ actions, flow)

  -- The loop; `waiting` when the rounds that the kernel has answered are used up.
  unfoldable pub trace_loop : TraceState → List Round → List Action × Flow
  trace_loop s [] = ([], waiting)
  trace_loop s (r ∷ rounds) = chain (trace_round s r) (λ s'. trace_loop s' rounds)

  -- `call` is what the variable holds before it is set.
  unfoldable pub trace : PendingCall → List Round → List Action × Flow
  trace call rounds = trace_loop (initial call) rounds
