-- ===== src/Registers.antt =====
-- include/user.h: the register sets of the two modes, as the kernel lays them out in the union
-- `u_user_regs_struct`, and `t_syscall_args`. ft_strace.c: `read_registers`.
pub mod Layout
use make_strace.Common.{
  ℕ, ◌*◌, Bool, true, false, Option, none, some, List, [], ◌∷◌, Bytes, take, drop, ◌==◌,
  if◌then◌else◌,
}
use make_strace.Tracee.{little_endian}

pub record UserRegsStruct64 : Type 0 where
  pub r15 : ℕ
  pub r14 : ℕ
  pub r13 : ℕ
  pub r12 : ℕ
  pub rbp : ℕ
  pub rbx : ℕ
  pub r11 : ℕ
  pub r10 : ℕ
  pub r9 : ℕ
  pub r8 : ℕ
  pub rax : ℕ
  pub rcx : ℕ
  pub rdx : ℕ
  pub rsi : ℕ
  pub rdi : ℕ
  pub orig_rax : ℕ
  pub rip : ℕ
  pub cs : ℕ
  pub eflags : ℕ
  pub rsp : ℕ
  pub ss : ℕ
  pub fs_base : ℕ
  pub gs_base : ℕ
  pub ds : ℕ
  pub es : ℕ
  pub fs : ℕ
  pub gs : ℕ

pub record UserRegsStruct32 : Type 0 where
  pub ebx : ℕ
  pub ecx : ℕ
  pub edx : ℕ
  pub esi : ℕ
  pub edi : ℕ
  pub ebp : ℕ
  pub eax : ℕ
  pub xds : ℕ
  pub xes : ℕ
  pub xfs : ℕ
  pub xgs : ℕ
  pub orig_eax : ℕ
  pub eip : ℕ
  pub xcs : ℕ
  pub eflags : ℕ
  pub esp : ℕ
  pub xss : ℕ

-- The member at index `k` of a structure of members of `width` bytes.
unfoldable pub member : ℕ → ℕ → Bytes → ℕ
member width k regs = little_endian (take width (drop (width * k) regs))

-- `regs.regs64` and `regs.regs32`: the two views of the union's bytes.
unfoldable pub regs64 : Bytes → UserRegsStruct64
regs64 regs = record {
  r15 = member 8 0 regs;
  r14 = member 8 1 regs;
  r13 = member 8 2 regs;
  r12 = member 8 3 regs;
  rbp = member 8 4 regs;
  rbx = member 8 5 regs;
  r11 = member 8 6 regs;
  r10 = member 8 7 regs;
  r9 = member 8 8 regs;
  r8 = member 8 9 regs;
  rax = member 8 10 regs;
  rcx = member 8 11 regs;
  rdx = member 8 12 regs;
  rsi = member 8 13 regs;
  rdi = member 8 14 regs;
  orig_rax = member 8 15 regs;
  rip = member 8 16 regs;
  cs = member 8 17 regs;
  eflags = member 8 18 regs;
  rsp = member 8 19 regs;
  ss = member 8 20 regs;
  fs_base = member 8 21 regs;
  gs_base = member 8 22 regs;
  ds = member 8 23 regs;
  es = member 8 24 regs;
  fs = member 8 25 regs;
  gs = member 8 26 regs;
}

unfoldable pub regs32 : Bytes → UserRegsStruct32
regs32 regs = record {
  ebx = member 4 0 regs;
  ecx = member 4 1 regs;
  edx = member 4 2 regs;
  esi = member 4 3 regs;
  edi = member 4 4 regs;
  ebp = member 4 5 regs;
  eax = member 4 6 regs;
  xds = member 4 7 regs;
  xes = member 4 8 regs;
  xfs = member 4 9 regs;
  xgs = member 4 10 regs;
  orig_eax = member 4 11 regs;
  eip = member 4 12 regs;
  xcs = member 4 13 regs;
  eflags = member 4 14 regs;
  esp = member 4 15 regs;
  xss = member 4 16 regs;
}

abbrev pub sizeof_regs64 : ℕ
sizeof_regs64 = 216

abbrev pub sizeof_regs32 : ℕ
sizeof_regs32 = 68

-- `t_syscall_args`; `compat` is 0 or 1.
pub record SyscallArgs : Type 0 where
  pub arg : List ℕ
  pub orig_ax : ℕ
  pub rax : ℕ
  pub compat : Bool

-- The outcome of `read_registers`: 0 with the arguments, or -1 with the errno that it sets itself.
pub data RegistersResult : Type 0 where
  registers : SyscallArgs → RegistersResult
  no_registers : Option ℕ → RegistersResult

abbrev pub enotsup : ℕ
enotsup = 95

unfoldable pub from_regs64 : UserRegsStruct64 → SyscallArgs
from_regs64 r = record {
  arg = r.rdi ∷ r.rsi ∷ r.rdx ∷ r.r10 ∷ r.r8 ∷ r.r9 ∷ [];
  orig_ax = r.orig_rax;
  rax = r.rax;
  compat = false;
}

unfoldable pub from_regs32 : UserRegsStruct32 → SyscallArgs
from_regs32 r = record {
  arg = r.ebx ∷ r.ecx ∷ r.edx ∷ r.esi ∷ r.edi ∷ r.ebp ∷ [];
  orig_ax = r.orig_eax;
  rax = r.eax;
  compat = true;
}

-- The argument is the kernel's answer to PTRACE_GETREGSET: `none` for -1, or `iov_len` and the bytes
-- of the union.
unfoldable pub read_registers : Option (ℕ × Bytes) → RegistersResult
unfolding from_regs64 from_regs32 regs64 regs32
read_registers none = no_registers none
read_registers (some (iov_len, regs)) =
    if iov_len == sizeof_regs64
    then registers (from_regs64 (regs64 regs))
    else if iov_len == sizeof_regs32
    then registers (from_regs32 (regs32 regs))
    else no_registers (some enotsup)
