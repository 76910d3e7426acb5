-- ===== src/Table/Sys32.antt =====
-- include/strace_data.h: `SYS32_LIST`, whose rows stand in the children.
mod First
mod Second
mod Third
use make_strace.Common.{List, ◌++◌}
use make_strace.Table.Types.{Row}
use First.{sys32_rows_1}
use Second.{sys32_rows_2}
use Third.{sys32_rows_3}

unfoldable pub sys32_list : List Row
unfolding sys32_rows_1 sys32_rows_2 sys32_rows_3
sys32_list = sys32_rows_1 ++ sys32_rows_2 ++ sys32_rows_3
