-- ===== src/Syscall.antt =====
-- ft_strace.c: `lookup_syscall`, `print_arg`, `struct pending_call`, `print_entry` and
-- `finish_args`. A printing function returns the bytes that it writes to stderr.
pub mod Lookup
pub mod Line
pub mod Buffers
pub mod Numbers
pub mod Pending
use Prim.Native.String.{String}
use make_strace.Common.{
  ℕ, zero, suc, ◌+◌, ◌-◌, ◌%◌, ◌^◌, Bool, true, false, Option, none, some, List, [], ◌∷◌, ◌++◌,
  Bytes, codes, get_or, ltb, leb, ◌==◌, if◌then◌else◌,
}
use make_strace.Common.Int.{ℤ, pos, negsuc, int32, int64}
use make_strace.Format.{format_llu, format_u, format_hex, format_d, format_signed}
use make_strace.Table.{
  ArgType, arg_padding, arg_none, arg_fd, arg_str, arg_input_bytes, arg_output_bytes, arg_vstr,
  arg_flags, arg_mode, arg_size, arg_offset, arg_pid, arg_uid, arg_gid, arg_signal, arg_struct_ptr,
  arg_ptr, arg_uint, arg_ulong, arg_long, arg_int, SysTable, get_sys64_table, get_sys32_table,
  sys64_table_size, sys32_table_size,
}
use make_strace.Tracee.{VmReadv, print_bytes, print_string, print_argv}
use make_strace.Registers.{SyscallArgs}

-- A table element, or NULL where it has no name.
unfoldable pub named : SysTable → Option SysTable
named e = elim e.name [ none ↦ none | some _ ↦ some e ]

unfoldable pub lookup_syscall : SyscallArgs → Option SysTable
unfolding named
lookup_syscall args =
    let count = if args.compat then sys32_table_size else sys64_table_size in
    if leb count args.orig_ax
    then none
    else named (if args.compat then get_sys32_table args.orig_ax else get_sys64_table args.orig_ax)

-- `args->arg[index]`; 0 out of range, where the C code has no meaning.
abbrev pub arg_at : SyscallArgs → ℕ → ℕ
arg_at args index = get_or args.arg index 0

-- `if ((unsigned long long)result < count) count = result`, for a result that is not negative.
unfoldable pub output_count : ℕ → ℕ → ℕ
output_count result count = if ltb result count then result else count

-- `%lld` of an offset or a long, which has 32 bits in compat mode.
unfoldable pub format_long : Bool → ℕ → Bytes
format_long compat value = format_signed (if compat then int32 value else int64 value)

module _ (vm : VmReadv) (pid_temp : ℕ) where
  unfoldable pub print_output : ℕ → ℕ → ℤ → Bytes
  print_output value count (negsuc _) = format_hex value
  print_output value count (pos result) = print_bytes vm pid_temp value (output_count result count)

  unfoldable pub print_arg : SyscallArgs → ℕ → ArgType → ℤ → Bytes
  print_arg args index arg_input_bytes result =
      print_bytes vm pid_temp (arg_at args index) (arg_at args (index + 1))
  print_arg args index arg_output_bytes result =
      print_output (arg_at args index) (arg_at args (index + 1)) result
  print_arg args index arg_str result = print_string vm pid_temp (arg_at args index)
  print_arg args index arg_vstr result = print_argv vm pid_temp (arg_at args index) args.compat
  print_arg args index arg_offset result = format_long args.compat (arg_at args index)
  print_arg args index arg_long result = format_long args.compat (arg_at args index)
  print_arg args index arg_size result = format_llu (arg_at args index)
  print_arg args index arg_uint result = format_u (arg_at args index)
  print_arg args index arg_flags result = format_hex (arg_at args index)
  print_arg args index arg_signal result = format_hex (arg_at args index)
  print_arg args index arg_struct_ptr result = format_hex (arg_at args index)
  print_arg args index arg_ptr result = format_hex (arg_at args index)
  print_arg args index arg_ulong result = format_hex (arg_at args index)
  print_arg args index _ result = format_d (arg_at args index)

pub record PendingCall : Type 0 where
  pub entry : SyscallArgs
  pub syscall : Option SysTable
  pub next_arg : ℕ

abbrev pub is_output : ArgType → Bool
is_output arg_output_bytes = true
is_output _ = false

abbrev pub comma_if : ℕ → Bytes
comma_if zero = []
comma_if (suc i) = codes ", "

abbrev pub name_bytes : Option String → Bytes
name_bytes none = []
name_bytes (some s) = codes s

-- `call->syscall->argType[i]`.
abbrev pub type_at : SysTable → ℕ → ArgType
type_at e i = get_or e.arg_type i arg_padding

module _ (vm : VmReadv) (pid_temp : ℕ) where
  -- The loop of `print_entry` from argument `i`, with the arguments that are left: what it prints,
  -- the closing parenthesis included, and the argument that it stops at.
  unfoldable pub entry_loop : SyscallArgs → SysTable → ℕ → ℕ → Bytes × ℕ
  entry_loop args e i zero = (codes ")", i)
  entry_loop args e i (suc left) =
      let rest = entry_loop args e (suc i) left in
      elim (is_output (type_at e i)) [
        | true ↦ ([], i)
        | false ↦
            (comma_if i ++ (print_arg vm pid_temp args i (type_at e i) (pos 0) ++ rest.0), rest.1)
      ]

  unfoldable pub print_entry : SyscallArgs → Bytes × PendingCall
  print_entry entry = elim (lookup_syscall entry) [
    | none ↦ (
      codes "syscall_" ++ (format_llu entry.orig_ax ++ codes "(/* unknown */)"),
      record { entry = entry; syscall = none; next_arg = 0 },
    )
    | some e ↦
        let (text, stop) = entry_loop entry e 0 e.arg_count in
        (
          name_bytes e.name ++ (codes "(" ++ text),
          record { entry = entry; syscall = some e; next_arg = stop },
        )
  ]

  unfoldable pub finish_loop : SyscallArgs → SysTable → ℤ → ℕ → ℕ → Bytes
  finish_loop args e result i zero = codes ")"
  finish_loop args e result i (suc left) =
      comma_if i
      ++ (print_arg vm pid_temp args i (type_at e i) result
          ++ finish_loop args e result (suc i) left)

  unfoldable pub finish_args : PendingCall → ℤ → Bytes
  finish_args call result = elim call.syscall [
    | none ↦ []
    | some e ↦
        if call.next_arg == e.arg_count
        then []
        else finish_loop call.entry e result call.next_arg (e.arg_count - call.next_arg)
  ]
