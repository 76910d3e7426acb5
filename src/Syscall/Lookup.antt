-- ===== src/Syscall/Lookup.antt =====
-- ft_strace.c, `lookup_syscall`: it finds exactly the rows of the mode's list, and what it finds
-- keeps every access to `arg[6]` and `argType[6]` in range.
use make_strace.Common.{
  ℕ, ◌+◌, ◌<◌, ◌≡◌, refl, sym, ◌∙◌, Bool, true, false, Option, none, some, List, length, leb,
  if◌then◌else◌, arith, Option-cases, Bool-cases, inl, inr,
}
use make_strace.Table.{
  SysTable, Row, sys64_list, sys32_list, sys64_table_size, sys32_table_size, null_entry, array_size,
  get_sys64_table, get_sys32_table,
}
use make_strace.Table.Laws.{find_row, entry_or}
use make_strace.Table.Rows.{
  reads_next, entry_ok, entry_ok_lem, entry_ok_named, has_name, sys64-array_size, sys32-array_size,
  get_sys64_table_lem, get_sys32_table_lem, sys64-row_ok, sys32-row_ok,
}
use make_strace.Registers.{SyscallArgs}
use make_strace.Syscall.{lookup_syscall, named, type_at}

-- The entry of a row that was found.
abbrev pub row_entry : Option Row → Option SysTable
row_entry none = none
row_entry (some r) = some r.entry

-- The list of a mode.
abbrev pub rows_of : Bool → List Row
rows_of true = sys32_list
rows_of false = sys64_list

bounded_none :
    (size i : ℕ) (e : SysTable)
    → (i < size → e ≡ null_entry)
    → (if leb size i then none else named e) ≡ none
unfolding named null_entry
bounded_none size i e h = ground arith

bounded_some :
    (size i : ℕ) (e : SysTable)
    → i < size
    → has_name e.name ≡ true
    → (if leb size i then none else named e) ≡ some e
unfolding named
bounded_some size i e h n = ground arith

module _ (size : ℕ) (table : ℕ → SysTable) (rows : List Row)
    (filled : (i : ℕ) → i < size → table i ≡ entry_or (find_row i rows) null_entry)
    (in_order : (i : ℕ) (r : Row)
      → find_row i rows ≡ some r
      → (r.number ≡ i) × (i < size) × (entry_ok r.entry ≡ true)) where
  table_lookup :
      (i : ℕ) → (if leb size i then none else named (table i)) ≡ row_entry (find_row i rows)
  unfolding entry_or
  table_lookup i = elim (Option-cases (find_row i rows)) [
    | inl e ↦ rw e (bounded_none size i (table i) (λ l. rw (filled i l, e)))
    | inr (r, e) ↦
        rw (filled i (in_order i r e).1, e)
          (bounded_some size i r.entry (in_order i r e).1
            (entry_ok_named r.entry (in_order i r e).2))
  ]

lookup-by_mode :
    (compat : Bool) (i : ℕ)
    → (if leb (if compat then sys32_table_size else sys64_table_size) i
        then none
        else named (if compat then get_sys32_table i else get_sys64_table i))
      ≡ row_entry (find_row i (rows_of compat))
lookup-by_mode true i =
    table_lookup sys32_table_size get_sys32_table sys32_list get_sys32_table_lem
      (λ j r e. sys32-row_ok j e) i
lookup-by_mode false i =
    table_lookup sys64_table_size get_sys64_table sys64_list get_sys64_table_lem
      (λ j r e. sys64-row_ok j e) i

-- `lookup_syscall` returns the entry of the row with the call's number in the list of the call's
-- mode, and NULL for a number that no row has.
pub lookup_syscall-row :
    (args : SyscallArgs)
    → lookup_syscall args ≡ row_entry (find_row args.orig_ax (rows_of args.compat))
unfolding lookup_syscall
lookup_syscall-row args = lookup-by_mode args.compat args.orig_ax

rows_of_ok :
    (compat : Bool) (i : ℕ) {r : Row}
    → find_row i (rows_of compat) ≡ some r
    → (i < array_size (rows_of compat)) × (entry_ok r.entry ≡ true)
rows_of_ok true i e = (rw sys32-array_size (sys32-row_ok i e).1, (sys32-row_ok i e).2)
rows_of_ok false i e = (rw sys64-array_size (sys64-row_ok i e).1, (sys64-row_ok i e).2)

row_entry-some :
    (found : Option Row) {e : SysTable}
    → row_entry found ≡ some e
    → (r : Row) × (found ≡ some r) × (r.entry ≡ e)
row_entry-some none h = cc
row_entry-some (some r) h = (r, refl, ground arith)

pub lookup_syscall-ok :
    (args : SyscallArgs) {e : SysTable}
    → lookup_syscall args ≡ some e
    → (args.orig_ax < array_size (rows_of args.compat)) × (entry_ok e ≡ true)
lookup_syscall-ok args {e} h =
    let (r, found, same) =
      row_entry-some (find_row args.orig_ax (rows_of args.compat))
        (sym (lookup_syscall-row args) ∙ h) in
    let ok = rows_of_ok args.compat args.orig_ax found in (ok.0, rw same at (ok.1))

-- The last element of `arg` that printing argument `i` reads.
abbrev pub last_read : SysTable → ℕ → ℕ
last_read e i = if reads_next (type_at e i) then i + 1 else i

last_read-lt :
    (e : SysTable) (i : ℕ)
    → i < e.arg_count
    → (reads_next (type_at e i) ≡ true → i + 1 < e.arg_count)
    → last_read e i < e.arg_count
last_read-lt e i l n = elim (Bool-cases (reads_next (type_at e i))) [
  | inl b ↦ rw b (n b)
  | inr b ↦ rw b l
]

-- Where `lookup_syscall` finds an entry, the element that it reads lies in the table; and for every
-- argument `i` that is printed, `argType` has six elements, of which `i` is one, and the last element
-- of `arg` that is read (`arg[i + 1]` where the type takes its length from it) is an argument of the
-- call and one of the six.
pub lookup_syscall-in_range :
    (args : SyscallArgs) (i : ℕ) {e : SysTable}
    → lookup_syscall args ≡ some e
    → i < e.arg_count
    → (args.orig_ax < array_size (rows_of args.compat))
      × (length e.arg_type ≡ 6)
      × (i < 6)
      × (last_read e i < e.arg_count)
      × (last_read e i < 6)
lookup_syscall-in_range args i {e} h l =
    let (bound, ok) = lookup_syscall-ok args h in
    let (count, six, next) = entry_ok_lem e i ok l in
    let last = last_read-lt e i l next in (bound, six, omega arith, last, omega arith)
