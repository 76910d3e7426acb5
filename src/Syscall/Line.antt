-- ===== src/Syscall/Line.antt =====
-- ft_strace.c, `print_entry` and `finish_args`: the two halves of a call's line, put together.
use make_strace.Common.{
  ℕ, zero, suc, ◌+◌, ◌-◌, ◌≡◌, refl, ap, ◌∙◌, Bool, true, false, ◌&&◌, not, none, some, List, [],
  ◌∷◌, ◌++◌, append_assoc, Bytes, codes, ◌==◌, if◌then◌else◌, arith, Bool-cases, inl, inr,
}
use make_strace.Common.Int.{ℤ, pos}
use make_strace.Format.{format_llu}
use make_strace.Table.{SysTable}
use make_strace.Tracee.{VmReadv}
use make_strace.Tracee.Argv.{separated, comma_join}
use make_strace.Registers.{SyscallArgs}
use make_strace.Syscall.{
  lookup_syscall, print_arg, print_entry, finish_args, entry_loop, finish_loop, is_output, comma_if,
  name_bytes, type_at,
}

-- None of the first `n` arguments is an output buffer.
abbrev pub clear : SysTable → ℕ → Bool
clear e zero = true
clear e (suc n) = clear e n && not (is_output (type_at e n))

module _ (vm vm' : VmReadv) (pid : ℕ) (args : SyscallArgs) (e : SysTable) (result : ℤ) where
  -- An argument before the first output buffer is printed from the memory at entry, the first output
  -- buffer and all behind it from the memory at exit, with the call's result.
  abbrev pub shown_arg : ℕ → Bytes
  shown_arg i =
      if clear e (suc i)
      then print_arg vm pid args i (type_at e i) (pos 0)
      else print_arg vm' pid args i (type_at e i) result

  abbrev pub shown_args : ℕ → ℕ → List Bytes
  shown_args i zero = []
  shown_args i (suc left) = shown_arg i ∷ shown_args (suc i) left

  -- What stands before the items that begin at index `i`.
  abbrev listed : ℕ → List Bytes → Bytes
  listed i [] = codes ")"
  listed i (text ∷ texts) = comma_if i ++ (text ++ listed (suc i) texts)

  finish_loop-listed :
      (i left : ℕ)
      → clear e (suc i) ≡ false
      → finish_loop vm' pid args e result i left ≡ listed i (shown_args i left)
  unfolding finish_loop
  finish_loop-listed i zero h = refl
  finish_loop-listed i (suc left) h = rw h (
      ap (λ s. comma_if i ++ (print_arg vm' pid args i (type_at e i) result ++ s))
        (finish_loop-listed (suc i) left (rw h)))

  -- The rest of a line, behind what the loop of `print_entry` printed.
  abbrev rest_of : ℕ → ℕ → Bytes
  rest_of stop count =
      if stop == count then [] else finish_loop vm' pid args e result stop (count - stop)

  pub entry_loop-output :
      (i left : ℕ)
      → is_output (type_at e i) ≡ true
      → entry_loop vm pid args e i (suc left) ≡ ([], i)
  unfolding entry_loop
  entry_loop-output i left o = ground arith

  pub entry_loop-next :
      (i left : ℕ)
      → is_output (type_at e i) ≡ false
      → entry_loop vm pid args e i (suc left) ≡ (
        comma_if i
            ++ (print_arg vm pid args i (type_at e i) (pos 0)
                ++ (entry_loop vm pid args e (suc i) left).0),
        (entry_loop vm pid args e (suc i) left).1,
      )
  unfolding entry_loop
  entry_loop-next i left o = ground arith

  rest_of-here :
      (i left count : ℕ)
      → i + suc left ≡ count
      → rest_of i count ≡ finish_loop vm' pid args e result i (suc left)
  rest_of-here i left count h =
      let away : (i == count) ≡ false = ground arith in
      let size : count - i ≡ suc left = omega arith in
      rw away (ap (finish_loop vm' pid args e result i) size)

  entry_loop-listed :
      (i left count : ℕ)
      → i + left ≡ count
      → clear e i ≡ true
      → (entry_loop vm pid args e i left).0 ++ rest_of (entry_loop vm pid args e i left).1 count
        ≡ listed i (shown_args i left)
  entry_loop-listed i zero count h c = unfold entry_loop in ground arith
  entry_loop-listed i (suc left) count h c = elim (Bool-cases (is_output (type_at e i))) [
    | inl o ↦
        ap (λ r. r.0 ++ rest_of r.1 count) (entry_loop-output i left o)
        ∙ rest_of-here i left count h
        ∙ finish_loop-listed i (suc left) (ground arith)
    | inr o ↦
        let step = entry_loop-listed (suc i) left count (omega arith) (ground arith) in
        let arg = print_arg vm pid args i (type_at e i) (pos 0) in
        let rest = entry_loop vm pid args e (suc i) left in
        ap (λ r. r.0 ++ rest_of r.1 count) (entry_loop-next i left o)
        ∙ append_assoc (comma_if i) (arg ++ rest.0) (rest_of rest.1 count)
        ∙ ap (λ s. comma_if i ++ s) (append_assoc arg rest.0 (rest_of rest.1 count))
        ∙ ap (λ s. comma_if i ++ (arg ++ s)) step
        ∙ ap (λ s. comma_if i ++ (s ++ listed (suc i) (shown_args (suc i) left))) (shown i c o)
  ]
    where
      shown :
          (i : ℕ)
          → clear e i ≡ true
          → is_output (type_at e i) ≡ false
          → print_arg vm pid args i (type_at e i) (pos 0) ≡ shown_arg i
      shown i c o = rw (c, o)

  listed-separated :
      (i : ℕ) (texts : List Bytes) → listed (suc i) texts ≡ separated texts ++ codes ")"
  listed-separated i [] = refl
  listed-separated i (t ∷ texts) = simp (listed-separated (suc i) texts, append_assoc)

  listed-comma_join : (texts : List Bytes) → listed 0 texts ≡ comma_join texts ++ codes ")"
  listed-comma_join [] = refl
  listed-comma_join (t ∷ texts) = simp (listed-separated 0 texts, append_assoc)

-- The arguments of a call as its line shows them.
abbrev pub line_args : VmReadv → VmReadv → ℕ → SyscallArgs → SysTable → ℤ → List Bytes
line_args vm vm' pid args e result = shown_args vm vm' pid args e result 0 e.arg_count

pub print_entry-known :
    (vm : VmReadv) (pid : ℕ) (args : SyscallArgs) {e : SysTable}
    → lookup_syscall args ≡ some e
    → print_entry vm pid args ≡ (
      name_bytes e.name ++ (codes "(" ++ (entry_loop vm pid args e 0 e.arg_count).0),
      record {
        entry = args;
        syscall = some e;
        next_arg = (entry_loop vm pid args e 0 e.arg_count).1;
      },
    )
unfolding print_entry
print_entry-known vm pid args h = ground arith

finish_args-known :
    (vm vm' : VmReadv) (pid : ℕ) (args : SyscallArgs) (e : SysTable) (result : ℤ) (stop : ℕ)
    → finish_args vm' pid (record { entry = args; syscall = some e; next_arg = stop }) result
      ≡ rest_of vm vm' pid args e result stop e.arg_count
unfolding finish_args
finish_args-known vm vm' pid args e result stop = refl

-- What `print_entry` prints when a known call begins and `finish_args` when it ends make up one line
-- `name(…)`, that holds every argument once, in order: those before the first output buffer as they
-- are at entry, and the buffer and those behind it as they are at exit.
pub print_entry-finish_args :
    (vm vm' : VmReadv) (pid : ℕ) (args : SyscallArgs) (result : ℤ) {e : SysTable}
    → lookup_syscall args ≡ some e
    → (print_entry vm pid args).0 ++ finish_args vm' pid (print_entry vm pid args).1 result
      ≡ name_bytes e.name
        ++ (codes "(" ++ (comma_join (line_args vm vm' pid args e result) ++ codes ")"))
print_entry-finish_args vm vm' pid args result {e} h =
    let loop = entry_loop vm pid args e 0 e.arg_count in
    let rest = rest_of vm vm' pid args e result loop.1 e.arg_count in
    ap (λ r. r.0 ++ finish_args vm' pid r.1 result) (print_entry-known vm pid args h)
    ∙ ap (λ s. (name_bytes e.name ++ (codes "(" ++ loop.0)) ++ s)
        (finish_args-known vm vm' pid args e result loop.1)
    ∙ append_assoc (name_bytes e.name) (codes "(" ++ loop.0) rest
    ∙ ap (λ s. name_bytes e.name ++ (codes "(" ++ s))
        (entry_loop-listed vm vm' pid args e result 0 e.arg_count e.arg_count (omega arith) refl
          ∙ listed-comma_join vm vm' pid args e result (line_args vm vm' pid args e result))

-- Of a call with no known name the entry prints its number, and the end adds nothing, whatever the
-- call returns.
pub print_entry-unknown :
    (vm vm' : VmReadv) (pid : ℕ) (args : SyscallArgs) (result : ℤ)
    → lookup_syscall args ≡ none
    → ((print_entry vm pid args).0
        ≡ codes "syscall_" ++ (format_llu args.orig_ax ++ codes "(/* unknown */)"))
      × (finish_args vm' pid (print_entry vm pid args).1 result ≡ [])
unfolding print_entry finish_args
print_entry-unknown vm vm' pid args result h = ground arith
