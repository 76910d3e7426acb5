-- ===== src/Table/Array.antt =====
-- include/strace_data.h: the arrays `get_SYS64_TABLE` and `get_SYS32_TABLE`, built by designated
-- initializers, and the two sizes that the lookups are bounded by.
use Prim.Native.Nat.{max}
use make_strace.Common.{ℕ, suc, List, [], ◌∷◌, ltb, ◌==◌, if◌then◌else◌}
use make_strace.Table.Types.{SysTable, Row, null_entry, beyond_table}
use make_strace.Table.Sys64.{sys64_list}
use make_strace.Table.Sys32.{sys32_list}

abbrev pub sys64_table_size : ℕ
sys64_table_size = 0x1d6

abbrev pub sys32_table_size : ℕ
sys32_table_size = 0x1d6

-- Designated initializers in order: a later one of the same index replaces an earlier one.
unfoldable pub initialise : List Row → (ℕ → SysTable) → ℕ → SysTable
initialise [] table i = table i
initialise (r ∷ rows) table i = initialise rows (λ j. if j == r.number then r.entry else table j) i

-- The number of elements of an array `[] = { [id] = …, … }`.
unfoldable pub array_size : List Row → ℕ
array_size [] = 0
array_size (r ∷ rows) = max (suc r.number) (array_size rows)

unfoldable pub get_sys64_table : ℕ → SysTable
unfolding initialise array_size sys64_list null_entry beyond_table
get_sys64_table i =
    if ltb i (array_size sys64_list)
    then initialise sys64_list (λ _. null_entry) i
    else beyond_table

unfoldable pub get_sys32_table : ℕ → SysTable
unfolding initialise array_size sys32_list null_entry beyond_table
get_sys32_table i =
    if ltb i (array_size sys32_list)
    then initialise sys32_list (λ _. null_entry) i
    else beyond_table
