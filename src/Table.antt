-- ===== src/Table.antt =====
-- include/strace_data.h: the argument types, the rows of the two X-macro lists and the tables that
-- they generate. The rows themselves stand in the children Sys64 and Sys32, in the source's order.
mod Types
mod Sys64
mod Sys32
mod Array
pub mod Laws
pub mod Rows
unfoldable pub use Types.*
unfoldable pub use Array.*
unfoldable pub use Sys64.{sys64_list}
unfoldable pub use Sys32.{sys32_list}
