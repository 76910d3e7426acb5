-- ===== src/Table/Rows.antt =====
-- What holds of the rows of `SYS64_LIST` and `SYS32_LIST`, by evaluation over every row, and what it
-- gives of the tables at every index.
use make_strace.Common.{
  ℕ, zero, suc, ◌+◌, ◌≤◌, ◌<◌, ◌≡◌, ◌∙◌, refl, Bool, true, false, ◌&&◌, Option, none, some, List,
  [], ◌∷◌, arith, ltb, leb, ◌==◌, if◌then◌else◌, get_or, length,
}
use make_strace.Table.Types.{
  SysTable, Row, null_entry, beyond_table, ArgType, arg_input_bytes, arg_output_bytes, arg_padding,
}
use make_strace.Table.Array.{
  initialise, array_size, get_sys64_table, get_sys32_table, sys64_table_size, sys32_table_size,
}
use make_strace.Table.Sys64.{sys64_list}
use make_strace.Table.Sys32.{sys32_list}
use make_strace.Table.Laws.{find_row, increasing, entry_or, initialise_lem}

-- `ARG_INPUT_BYTES` and `ARG_OUTPUT_BYTES`, which take their length from the argument behind them.
unfoldable pub reads_next : ArgType → Bool
reads_next arg_input_bytes = true
reads_next arg_output_bytes = true
reads_next _ = false

-- In `types`, whose first element has index `i`, every type before `count` has its length in range.
unfoldable pub lengths_in_range : ℕ → ℕ → List ArgType → Bool
unfolding reads_next
lengths_in_range count i [] = true
lengths_in_range count i (t ∷ types) =
    (if reads_next t && ltb i count then ltb (suc i) count else true)
    && lengths_in_range count (suc i) types

abbrev pub has_name {ℓ} : {A : Type ℓ} → Option A → Bool
has_name none = false
has_name (some _) = true

unfoldable pub entry_ok : SysTable → Bool
unfolding lengths_in_range
entry_ok e =
    has_name e.name
    && leb e.arg_count 6
    && (length e.arg_type == 6)
    && lengths_in_range e.arg_count 0 e.arg_type

unfoldable pub rows_ok : ℕ → List Row → Bool
unfolding entry_ok
rows_ok size [] = true
rows_ok size (r ∷ rows) = ltb r.number size && entry_ok r.entry && rows_ok size rows

sys64-increasing : increasing 0 sys64_list ≡ true
unfolding increasing sys64_list
sys64-increasing = refl

sys32-increasing : increasing 0 sys32_list ≡ true
unfolding increasing sys32_list
sys32-increasing = refl

sys64-rows_ok : rows_ok sys64_table_size sys64_list ≡ true
unfolding rows_ok sys64_list
sys64-rows_ok = refl

sys32-rows_ok : rows_ok sys32_table_size sys32_list ≡ true
unfolding rows_ok sys32_list
sys32-rows_ok = refl

pub sys64-array_size : array_size sys64_list ≡ sys64_table_size
unfolding array_size sys64_list
sys64-array_size = refl

pub sys32-array_size : array_size sys32_list ≡ sys32_table_size
unfolding array_size sys32_list
sys32-array_size = refl

-- A table holds at each index within it the entry of the row with that number, and zero in the gaps.
table_at :
    (size i : ℕ) (rest beyond : SysTable) → i < size → (if ltb i size then rest else beyond) ≡ rest
table_at size i rest beyond l = ground arith

pub get_sys64_table_lem :
    (i : ℕ) → i < sys64_table_size → get_sys64_table i ≡ entry_or (find_row i sys64_list) null_entry
unfolding get_sys64_table
get_sys64_table_lem i l =
    table_at (array_size sys64_list) i (initialise sys64_list (λ _. null_entry) i) beyond_table
      (rw sys64-array_size l)
    ∙ initialise_lem sys64_list 0 (λ _. null_entry) i sys64-increasing

pub get_sys32_table_lem :
    (i : ℕ) → i < sys32_table_size → get_sys32_table i ≡ entry_or (find_row i sys32_list) null_entry
unfolding get_sys32_table
get_sys32_table_lem i l =
    table_at (array_size sys32_list) i (initialise sys32_list (λ _. null_entry) i) beyond_table
      (rw sys32-array_size l)
    ∙ initialise_lem sys32_list 0 (λ _. null_entry) i sys32-increasing

find_row_ok :
    (size i : ℕ) (rows : List Row) {r : Row}
    → rows_ok size rows ≡ true
    → find_row i rows ≡ some r
    → (r.number ≡ i) × (i < size) × (entry_ok r.entry ≡ true)
unfolding find_row rows_ok
find_row_ok size i [] h e = cc
find_row_ok size i (r ∷ rows) {r = found} h e = ground (arith, find_row_ok size i rows {r = found})

pub sys64-row_ok :
    (i : ℕ) {r : Row}
    → find_row i sys64_list ≡ some r
    → (r.number ≡ i) × (i < sys64_table_size) × (entry_ok r.entry ≡ true)
sys64-row_ok i e = find_row_ok sys64_table_size i sys64_list sys64-rows_ok e

pub sys32-row_ok :
    (i : ℕ) {r : Row}
    → find_row i sys32_list ≡ some r
    → (r.number ≡ i) × (i < sys32_table_size) × (entry_ok r.entry ≡ true)
sys32-row_ok i e = find_row_ok sys32_table_size i sys32_list sys32-rows_ok e

-- The length that a type reads stands before `count`.
lengths_in_range_lem :
    (count start j : ℕ) (types : List ArgType)
    → lengths_in_range count start types ≡ true
    → reads_next (get_or types j arg_padding) ≡ true
    → start + j < count
    → start + j + 1 < count
unfolding lengths_in_range
lengths_in_range_lem count start j [] h n l = unfold reads_next in cc
lengths_in_range_lem count start zero (t ∷ types) h n l = ground arith
lengths_in_range_lem count start (suc j) (t ∷ types) h n l =
    ground (arith, lengths_in_range_lem count (suc start) j types)

entry_ok_parts :
    (e : SysTable)
    → entry_ok e ≡ true
    → (e.arg_count ≤ 6)
      × (length e.arg_type ≡ 6)
      × (lengths_in_range e.arg_count 0 e.arg_type ≡ true)
unfolding entry_ok
entry_ok_parts e h = ground arith

pub entry_ok_named : (e : SysTable) → entry_ok e ≡ true → has_name e.name ≡ true
unfolding entry_ok
entry_ok_named e h = ground arith

-- Of an entry that is in order: six types, at most as many arguments, and every length an argument.
pub entry_ok_lem :
    (e : SysTable) (j : ℕ)
    → entry_ok e ≡ true
    → j < e.arg_count
    → (e.arg_count ≤ 6)
      × (length e.arg_type ≡ 6)
      × (reads_next (get_or e.arg_type j arg_padding) ≡ true → j + 1 < e.arg_count)
entry_ok_lem e j h l = (
  (entry_ok_parts e h).0,
  (entry_ok_parts e h).1,
  λ n. omega (
    arith,
    lengths_in_range_lem e.arg_count 0 j e.arg_type (entry_ok_parts e h).2 n (omega arith),
  ),
)
