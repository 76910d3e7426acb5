-- ===== src/Tracee.antt =====
-- ft_strace.c: what is read out of the traced process and how it is printed. `read_tracee`,
-- `print_quoted`, `print_bytes`, `print_string` and `print_argv` return the bytes that they write to
-- stderr. The kernel's answers to `process_vm_readv` during one stop are the parameter `vm`.
pub mod Quoted
pub mod Collision
pub mod Dumps
pub mod Argv
pub mod Cut
use make_strace.Common.{
  ℕ, zero, suc, ◌+◌, ◌*◌, ◌%◌, ◌^◌, Bool, true, false, ◌&&◌, ◌||◌, not, Option, none, some, List,
  [], ◌∷◌, ◌++◌, Bytes, codes, length, take, ltb, leb, ◌==◌, if◌then◌else◌,
}
use make_strace.Format.{format_u, format_hex}

-- `process_vm_readv(pid, …)` of `count` bytes at `address`: `none` for -1, or the bytes transferred.
abbrev pub VmReadv : Type 0
VmReadv = ℕ → ℕ → ℕ → Option Bytes

-- `isprint` in the C locale.
unfoldable pub isprint : ℕ → Bool
isprint c = leb 0x20 c && leb c 0x7e

unfoldable pub quote_byte : ℕ → Bytes
unfolding isprint
quote_byte c =
    if c == b'"' || c == b'\\'
    then b'\\' ∷ c ∷ []
    else if isprint c
    then c ∷ []
    else b'\\' ∷ format_u c

unfoldable pub quote_loop : Bytes → Bytes
unfolding quote_byte
quote_loop [] = []
quote_loop (c ∷ buf) = quote_byte c ++ quote_loop buf

unfoldable pub print_quoted : Bytes → Bytes
unfolding quote_loop
print_quoted buf = b'"' ∷ (quote_loop buf ++ b'"' ∷ [])

-- `strnlen(buf, size)` of a buffer of which `size` bytes were read.
unfoldable pub strnlen : Bytes → ℕ
strnlen [] = 0
strnlen (c ∷ buf) = if c == 0 then 0 else suc (strnlen buf)

-- The bytes of a little-endian word.
unfoldable pub little_endian : Bytes → ℕ
little_endian [] = 0
little_endian (b ∷ bytes) = b + 256 * little_endian bytes

module _ (vm : VmReadv) (pid_temp : ℕ) where
  unfoldable pub read_tracee : ℕ → ℕ → Option Bytes
  read_tracee address count = vm pid_temp address count

  unfoldable pub print_bytes : ℕ → ℕ → Bytes
  unfolding read_tracee print_quoted
  print_bytes address count =
      let wanted = if ltb count 64 then count else 64 in
      let size = if wanted == 0 then some [] else read_tracee address wanted in
      elim size [
        | none ↦ format_hex address
        | some buf ↦
            if not (wanted == 0) && length buf == 0
            then format_hex address
            else print_quoted buf ++ (if ltb (length buf) count then codes "..." else [])
      ]

  unfoldable pub print_string : ℕ → Bytes
  unfolding read_tracee print_quoted strnlen
  print_string address = elim (read_tracee address 4096) [
    | none ↦ format_hex address
    | some buf ↦
        if length buf == 0
        then format_hex address
        else print_quoted (take (strnlen buf) buf)
          ++ (if strnlen buf == length buf then codes "..." else [])
  ]

  -- `read_tracee(address + i * width, &element, width)`; `none` unless all bytes were read.
  unfoldable pub read_element : ℕ → ℕ → ℕ → Option ℕ
  unfolding read_tracee
  read_element address width i = elim (read_tracee ((address + i * width) % 2 ^ 64) width) [
    | none ↦ none
    | some bytes ↦ if length bytes == width then some (little_endian bytes) else none
  ]

  -- The loop from index `i`, with the rounds that are left of 128.
  unfoldable pub argv_loop : ℕ → ℕ → ℕ → ℕ → Bytes
  argv_loop address width i zero = codes ", ...]"
  argv_loop address width i (suc rounds) =
      let rest = argv_loop address width (suc i) rounds in
      elim (read_element address width i) [
        | none ↦ if i == 0 then format_hex address else codes ", ...]"
        | some element ↦
            (if i == 0 then b'[' ∷ [] else [])
            ++ (if element == 0
                then b']' ∷ []
                else (if i == 0 then [] else codes ", ") ++ (print_string element ++ rest))
      ]

  unfoldable pub print_argv : ℕ → Bool → Bytes
  print_argv address compat = argv_loop address (if compat then 4 else 8) 0 128
