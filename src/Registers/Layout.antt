-- ===== src/Registers/Layout.antt =====
-- include/user.h and `read_registers`: the register set that the kernel wrote is read back, and each
-- argument comes from the register of the system-call convention.
use native.Mathlib.Nat.{suc-add, mul-suc}
use make_strace.Common.{
  ℕ, zero, suc, ◌+◌, ◌*◌, ◌/◌, ◌%◌, ◌<◌, ◌^◌, ◌≡◌, refl, ap, ◌∙◌, true, false, some, List, [], ◌∷◌,
  ◌++◌, append_assoc, Bytes, take, drop, get_or, length, arith, All,
}
use make_strace.Tracee.{little_endian}
use make_strace.Tracee.Argv.{word_bytes, little_endian-word_bytes}
use make_strace.Registers.{
  UserRegsStruct64, UserRegsStruct32, member, registers, read_registers, sizeof_regs64,
  sizeof_regs32,
}

-- A structure's members, in order, as the kernel writes them.
abbrev pub layout : ℕ → List ℕ → Bytes
layout width [] = []
layout width (v ∷ members) = word_bytes width v ++ layout width members

take-word_bytes :
    (width v : ℕ) (rest : Bytes) → take width (word_bytes width v ++ rest) ≡ word_bytes width v
take-word_bytes zero v rest = refl
take-word_bytes (suc width) v rest = ap (λ s. v % 256 ∷ s) (take-word_bytes width (v / 256) rest)

drop-word_bytes :
    (width v n : ℕ) (rest : Bytes) → drop (width + n) (word_bytes width v ++ rest) ≡ drop n rest
drop-word_bytes zero v n rest = ap (λ k. drop k rest) (omega arith)
drop-word_bytes (suc width) v n rest =
    ap (λ k. drop k (word_bytes (suc width) v ++ rest)) (suc-add width n)
    ∙ drop-word_bytes width (v / 256) n rest

-- The member at an index of a layout is the value that was laid out there.
member-layout :
    (width k : ℕ) (members : List ℕ) (rest : Bytes)
    → All (λ v. v < 256 ^ width) members
    → k < length members
    → member width k (layout width members ++ rest) ≡ get_or members k 0
unfolding member
member-layout width k [] rest fits h = absurd (omega arith)
member-layout width zero (v ∷ members) rest fits h =
    ap
      (λ n.
        little_endian (take width (drop n ((word_bytes width v ++ layout width members) ++ rest))))
      start
    ∙ ap (λ s. little_endian (take width s))
        (append_assoc (word_bytes width v) (layout width members) rest)
    ∙ ap little_endian (take-word_bytes width v (layout width members ++ rest))
    ∙ little_endian-word_bytes width v fits.0
  where
    start : width * 0 ≡ 0
    start = omega arith
member-layout width (suc k) (v ∷ members) rest fits h =
    ap (λ s. little_endian (take width (drop (width * suc k) s)))
      (append_assoc (word_bytes width v) (layout width members) rest)
    ∙ ap
        (λ n.
          little_endian
            (take width (drop n (word_bytes width v ++ (layout width members ++ rest)))))
        further
    ∙ ap (λ s. little_endian (take width s))
        (drop-word_bytes width v (width * k) (layout width members ++ rest))
    ∙ member-layout width k members rest fits.1 (omega arith)
  where
    further : width * suc k ≡ width + width * k
    further = omega (arith, mul-suc width k)

abbrev pub members64 : UserRegsStruct64 → List ℕ
members64 r =
    r.r15 ∷ r.r14 ∷ r.r13 ∷ r.r12 ∷ r.rbp ∷ r.rbx ∷ r.r11 ∷ r.r10 ∷ r.r9 ∷ r.r8 ∷ r.rax ∷ r.rcx
    ∷ r.rdx ∷ r.rsi ∷ r.rdi ∷ r.orig_rax ∷ r.rip ∷ r.cs ∷ r.eflags ∷ r.rsp ∷ r.ss ∷ r.fs_base
    ∷ r.gs_base ∷ r.ds ∷ r.es ∷ r.fs ∷ r.gs ∷ []

abbrev pub members32 : UserRegsStruct32 → List ℕ
members32 r =
    r.ebx ∷ r.ecx ∷ r.edx ∷ r.esi ∷ r.edi ∷ r.ebp ∷ r.eax ∷ r.xds ∷ r.xes ∷ r.xfs ∷ r.xgs
    ∷ r.orig_eax ∷ r.eip ∷ r.xcs ∷ r.eflags ∷ r.esp ∷ r.xss ∷ []

-- Of a 64-bit register set, `read_registers` takes the six arguments, the call's number and the
-- result from their registers; it is known by its size, and what lies behind it is not read.
pub read_registers-layout64 :
    (r : UserRegsStruct64) (rest : Bytes)
    → All (λ v. v < 256 ^ 8) (members64 r)
    → read_registers (some (sizeof_regs64, layout 8 (members64 r) ++ rest))
      ≡ registers (record {
        arg = r.rdi ∷ r.rsi ∷ r.rdx ∷ r.r10 ∷ r.r8 ∷ r.r9 ∷ [];
        orig_ax = r.orig_rax;
        rax = r.rax;
        compat = false;
      })
unfolding read_registers
read_registers-layout64 r rest fits = λ i. registers (record {
  arg =
      at 14 (omega arith) i
      ∷ at 13 (omega arith) i
      ∷ at 12 (omega arith) i
      ∷ at 7 (omega arith) i
      ∷ at 9 (omega arith) i
      ∷ at 8 (omega arith) i
      ∷ [];
  orig_ax = at 15 (omega arith) i;
  rax = at 10 (omega arith) i;
  compat = false;
})
  where
    at : (k : ℕ) → k < 27 → member 8 k (layout 8 (members64 r) ++ rest) ≡ get_or (members64 r) k 0
    at k h = member-layout 8 k (members64 r) rest fits h

-- Of a 32-bit register set, `read_registers` takes the six arguments, the call's number and the
-- result from their registers; it is known by its size, and what lies behind it is not read.
pub read_registers-layout32 :
    (r : UserRegsStruct32) (rest : Bytes)
    → All (λ v. v < 256 ^ 4) (members32 r)
    → read_registers (some (sizeof_regs32, layout 4 (members32 r) ++ rest))
      ≡ registers (record {
        arg = r.ebx ∷ r.ecx ∷ r.edx ∷ r.esi ∷ r.edi ∷ r.ebp ∷ [];
        orig_ax = r.orig_eax;
        rax = r.eax;
        compat = true;
      })
unfolding read_registers
read_registers-layout32 r rest fits = λ i. registers (record {
  arg =
      at 0 (omega arith) i
      ∷ at 1 (omega arith) i
      ∷ at 2 (omega arith) i
      ∷ at 3 (omega arith) i
      ∷ at 4 (omega arith) i
      ∷ at 5 (omega arith) i
      ∷ [];
  orig_ax = at 11 (omega arith) i;
  rax = at 6 (omega arith) i;
  compat = true;
})
  where
    at : (k : ℕ) → k < 17 → member 4 k (layout 4 (members32 r) ++ rest) ≡ get_or (members32 r) k 0
    at k h = member-layout 4 k (members32 r) rest fits h
