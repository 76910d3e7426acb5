-- ===== src/Table/Laws.antt =====
-- What an array of designated initializers holds: at the number of a row that row's entry, elsewhere
-- what it held before. The rows of both lists are in strictly increasing order.
use make_strace.Common.{
  ℕ, suc, ◌<◌, ◌≡◌, refl, Bool, true, ◌&&◌, Option, none, some, List, [], ◌∷◌, arith, leb, ◌==◌,
  if◌then◌else◌,
}
use make_strace.Table.Types.{SysTable, Row}
use make_strace.Table.Array.{initialise}

-- The row of a number, read off the list.
unfoldable pub find_row : ℕ → List Row → Option Row
find_row i [] = none
find_row i (r ∷ rows) = if i == r.number then some r else find_row i rows

-- Every number is at least `low`, and each is larger than those before it.
unfoldable pub increasing : ℕ → List Row → Bool
increasing low [] = true
increasing low (r ∷ rows) = leb low r.number && increasing (suc r.number) rows

unfoldable pub entry_or : Option Row → SysTable → SysTable
entry_or none e = e
entry_or (some r) e = r.entry

find_row-none :
    (i low : ℕ) (rows : List Row) → increasing low rows ≡ true → i < low → find_row i rows ≡ none
unfolding find_row increasing
find_row-none i low [] h l = refl
find_row-none i low (r ∷ rows) h l = ground (arith, find_row-none i (suc r.number) rows)

pub initialise_lem :
    (rows : List Row) (low : ℕ) (table : ℕ → SysTable) (i : ℕ)
    → increasing low rows ≡ true
    → initialise rows table i ≡ entry_or (find_row i rows) (table i)
unfolding initialise find_row increasing entry_or
initialise_lem [] low table i h = refl
initialise_lem (r ∷ rows) low table i h = ground (
  arith,
  initialise_lem rows (suc r.number) (λ j. if j == r.number then r.entry else table j) i,
  find_row-none i (suc r.number) rows,
)
