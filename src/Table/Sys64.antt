-- ===== src/Table/Sys64.antt =====
-- include/strace_data.h: `SYS64_LIST`, whose rows stand in the children.
mod First
mod Second
mod Third
use make_strace.Common.{List, ◌++◌}
use make_strace.Table.Types.{Row}
use First.{sys64_rows_1}
use Second.{sys64_rows_2}
use Third.{sys64_rows_3}

unfoldable pub sys64_list : List Row
unfolding sys64_rows_1 sys64_rows_2 sys64_rows_3
sys64_list = sys64_rows_1 ++ sys64_rows_2 ++ sys64_rows_3
