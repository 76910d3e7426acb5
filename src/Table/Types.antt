-- ===== src/Table/Types.antt =====
-- include/strace_data.h: `e_ARGTYPE`, `t_SYS_TABLE` and one row of an X-macro list.
use Prim.Native.String.{String}
use make_strace.Common.{ℕ, List, ◌++◌, Option, none, some, take, replicate}

pub data ArgType : Type 0 where
  arg_padding arg_none arg_fd arg_str arg_input_bytes arg_output_bytes arg_vstr : ArgType
  arg_flags arg_mode arg_size arg_offset arg_pid arg_uid arg_gid arg_signal : ArgType
  arg_struct_ptr arg_ptr arg_uint arg_ulong arg_long arg_int : ArgType

-- `name` is NULL in the gaps of a table; `arg_type` has six elements.
pub record SysTable : Type 0 where
  pub name : Option String
  pub arg_count : ℕ
  pub arg_type : List ArgType

-- `X64(id, number, count, str, a0, …, a5)`: the initializer of one element, and its index. The
-- trailing zeros of the source are the padding.
pub record Row : Type 0 where
  pub number : ℕ
  pub entry : SysTable

unfoldable pub row : ℕ → ℕ → String → List ArgType → Row
row number count str types = record {
  number = number;
  entry = record {
    name = some str;
    arg_count = count;
    arg_type = take 6 (types ++ replicate 6 arg_padding);
  };
}

-- An element that no designator names is zero.
unfoldable pub null_entry : SysTable
null_entry = record { name = none; arg_count = 0; arg_type = replicate 6 arg_padding }

-- What a read behind the end of a table finds, which in C has no meaning: an entry with a name, so
-- that a lookup that reads there differs from one that does not.
unfoldable pub beyond_table : SysTable
beyond_table = record { name = some "?"; arg_count = 0; arg_type = replicate 6 arg_padding }
