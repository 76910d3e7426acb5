-- ===== src/Examples/Inputs.antt =====
-- The inputs that the examples share.
use make_strace.Common.{
  ℕ, true, false, Option, none, some, List, [], ◌∷◌, Bytes, codes, ◌==◌, if◌then◌else◌, ◌≡◌, refl,
  ap,
}
use make_strace.Common.Int.{pos}
use make_strace.Table.{SysTable, arg_output_bytes, arg_fd, arg_size, arg_padding, get_sys64_table}
use make_strace.Tracee.{VmReadv, little_endian}
use make_strace.Tracee.Dumps.{served}
use make_strace.Registers.{UserRegsStruct64, SyscallArgs, read_registers, sizeof_regs64, member}
use make_strace.Registers.Layout.{layout, members64}
use make_strace.Syscall.{PendingCall, lookup_syscall}
use make_strace.Wait.{waited, wait_failed, wait_child, eintr}
use make_strace.Wait.Laws.{exited, stopped, status_word}
use make_strace.Trace.{Libc, SigInfo, Round}
use make_strace.Trace.Stops.{at_call, at_sig, at_event, at_end, stop_of}
use make_strace.Trace.Output.{is_quiet}
use make_strace.Session.{System}

abbrev pub child : ℕ
child = 7

-- Texts as the C library has them for two signals and an error.
abbrev pub libc : Libc
libc = record {
  sigabbrev_np = λ sig.
      if sig == 15 then some (codes "TERM") else if sig == 17 then some (codes "CHLD") else none;
  strerror = λ errno. if errno == 9 then codes "Bad file descriptor" else codes "Unknown error";
}

-- A memory in which the bytes of `contents` are mapped at 0x1000, and nothing elsewhere.
abbrev pub mapped : Bytes → VmReadv
mapped contents pid address n = if address == 0x1000 then served contents n else none

abbrev pub regs_of : ℕ → ℕ → UserRegsStruct64
regs_of number result = record {
  r15 = 0;
  r14 = 0;
  r13 = 0;
  r12 = 0;
  rbp = 0;
  rbx = 0;
  r11 = 0;
  r10 = 0;
  r9 = 0;
  r8 = 0;
  rax = result;
  rcx = 0;
  rdx = 4;
  rsi = 0x1000;
  rdi = 3;
  orig_rax = number;
  rip = 0;
  cs = 0;
  eflags = 0;
  rsp = 0;
  ss = 0;
  fs_base = 0;
  gs_base = 0;
  ds = 0;
  es = 0;
  fs = 0;
  gs = 0;
}

-- `read(3, 0x1000, 4)` at its entry, and with a result.
abbrev pub read_args : ℕ → SyscallArgs
read_args result = record {
  arg = 3 ∷ 0x1000 ∷ 4 ∷ 0 ∷ 0 ∷ 0 ∷ [];
  orig_ax = 0;
  rax = result;
  compat = false;
}

abbrev pub read_entry : SysTable
read_entry = record {
  name = some "read";
  arg_count = 3;
  arg_type = arg_fd ∷ arg_output_bytes ∷ arg_size ∷ arg_padding ∷ arg_padding ∷ arg_padding ∷ [];
}

pub read_found : (result : ℕ) → lookup_syscall (read_args result) ≡ some read_entry
unfolding lookup_syscall get_sys64_table
read_found result = refl

-- A call with a number that no row has.
abbrev pub unknown_args : SyscallArgs
unknown_args = record (read_args 0) { orig_ax = 999 }

abbrev pub call_round : ℕ → Bytes → Round
call_round result contents = record {
  resumed = true;
  waits = wait_failed eintr ∷ waited child (status_word (stopped 133 0)) ∷ [];
  siginfo = none;
  regset = some (sizeof_regs64, layout 8 (members64 (regs_of 0 result)));
  vm = mapped contents;
}

abbrev pub enter_round : Round
enter_round = call_round 0xffff_ffff_ffff_ffda (codes "XXXX")

abbrev pub leave_round : Round
leave_round = call_round 4 (codes "READ")

abbrev pub info : SigInfo
info = record { si_signo = 17; si_code = pos 1; si_pid = pos 8; si_uid = 0 }

abbrev pub quiet_round : ℕ → Option SigInfo → Round
quiet_round status siginfo = record {
  resumed = true;
  waits = waited child status ∷ [];
  siginfo = siginfo;
  regset = none;
  vm = mapped [];
}

abbrev pub signal_round : Round
signal_round = quiet_round (status_word (stopped 17 0)) (some info)

abbrev pub event_round : Round
event_round = quiet_round (status_word (stopped 5 128)) none

abbrev pub exit_round : Round
exit_round = quiet_round (status_word (exited 3)) none

abbrev pub blank_call : PendingCall
blank_call = record { entry = unknown_args; syscall = none; next_arg = 0 }

pub enter-stop : stop_of child enter_round ≡ at_call (read_args 0xffff_ffff_ffff_ffda)
unfolding stop_of wait_child read_registers member little_endian
enter-stop = refl

pub leave-stop : stop_of child leave_round ≡ at_call (read_args 4)
unfolding stop_of wait_child read_registers member little_endian
leave-stop = refl

pub signal-stop : stop_of child signal_round ≡ at_sig 17 info
unfolding stop_of wait_child
signal-stop = refl

pub event-stop : stop_of child event_round ≡ at_event
unfolding stop_of wait_child
event-stop = refl

pub exit-stop : stop_of child exit_round ≡ at_end 768
unfolding stop_of wait_child
exit-stop = refl

pub signal-quiet : is_quiet (stop_of child signal_round) ≡ true
signal-quiet = ap is_quiet signal-stop

pub event-quiet : is_quiet (stop_of child event_round) ≡ true
event-quiet = ap is_quiet event-stop

-- The operating system of a run in which all goes well.
abbrev pub system : System
system = record {
  lstat = λ path. some 0o755;
  forked = some child;
  executed = true;
  stop_waits = waited child (status_word (stopped 19 0)) ∷ [];
  seized = true;
  interrupted = true;
  attach_waits = waited child (status_word (stopped 5 128)) ∷ [];
  rounds = enter_round ∷ signal_round ∷ leave_round ∷ exit_round ∷ [];
  last_waits = [];
}

abbrev pub argv : List Bytes
argv = codes "ft_strace" ∷ codes "/bin/read" ∷ []
