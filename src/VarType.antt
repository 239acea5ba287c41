-- ===== src/VarType.antt =====
-- `VarType` and its names: outcome-core/src/var.rs.
pub mod Names
use outcome.Prelude.{String, List, [], ◌∷◌, ◌==◌, string_eq, if◌then◌else◌}
use outcome.Prelude.Text.{split}
use outcome.Prelude.Result.{Result, ok, panic}
use outcome.Data.{VarType, Error}

unfoldable pub to_str : VarType → String
to_str VarType.string = "str"
to_str VarType.int = "int"
to_str VarType.float = "float"
to_str VarType.bool = "bool"
to_str VarType.byte = "byte"
to_str VarType.vec2 = "vec2"
to_str VarType.vec3 = "vec3"
to_str VarType.var_list = "list"
to_str VarType.var_grid = "grid"
to_str VarType.map = "map"
to_str VarType.string_list = "list_str"
to_str VarType.int_list = "list_int"
to_str VarType.float_list = "list_float"
to_str VarType.bool_list = "list_bool"
to_str VarType.byte_list = "list_byte"
to_str VarType.vec2_list = "list_vec2"
to_str VarType.vec3_list = "list_vec3"
to_str VarType.string_grid = "grid_str"
to_str VarType.int_grid = "grid_int"
to_str VarType.float_grid = "grid_float"
to_str VarType.bool_grid = "grid_bool"
to_str VarType.byte_grid = "grid_byte"
to_str VarType.vec2_grid = "grid_vec2"
to_str VarType.vec3_grid = "grid_vec3"

list_of : String → Result Error VarType
list_of s =
    if s == "str"
    then ok VarType.string_list
    else if s == "int"
    then ok VarType.int_list
    else if s == "float"
    then ok VarType.float_list
    else if s == "bool"
    then ok VarType.bool_list
    else if s == "byte"
    then ok VarType.byte_list
    else if s == "vec2"
    then ok VarType.vec2_list
    else if s == "vec3"
    then ok VarType.vec3_list
    else panic

grid_of : String → Result Error VarType
grid_of s =
    if s == "str"
    then ok VarType.string_grid
    else if s == "int"
    then ok VarType.int_grid
    else if s == "float"
    then ok VarType.float_grid
    else if s == "bool"
    then ok VarType.bool_grid
    else if s == "byte"
    then ok VarType.byte_grid
    else if s == "vec2"
    then ok VarType.vec2_grid
    else if s == "vec3"
    then ok VarType.vec3_grid
    else panic

-- The two parts of a name such as `list_int`; any other number of parts is `unimplemented!`.
compound : List String → Result Error VarType
compound (a ∷ b ∷ []) =
    if a == "list"
    then list_of b
    else if a == "grid"
    then grid_of b
    else if a == "map"
    then ok VarType.map
    else panic
compound _ = panic

unfoldable pub from_str : String → Result Error VarType
unfolding list_of grid_of compound split
from_str s =
    if s == "str"
    then ok VarType.string
    else if s == "int"
    then ok VarType.int
    else if s == "float"
    then ok VarType.float
    else if s == "bool"
    then ok VarType.bool
    else if s == "byte"
    then ok VarType.byte
    else if s == "vec2"
    then ok VarType.vec2
    else if s == "vec3"
    then ok VarType.vec3
    else compound (split b'_' s)

unfoldable pub from_str_unchecked : String → Result Error VarType
from_str_unchecked s =
    if s == "str"
    then ok VarType.string
    else if s == "int"
    then ok VarType.int
    else if s == "float"
    then ok VarType.float
    else if s == "bool"
    then ok VarType.bool
    else if s == "byte"
    then ok VarType.byte
    else if s == "vec2"
    then ok VarType.vec2
    else if s == "vec3"
    then ok VarType.vec3
    else if s == "list"
    then ok VarType.var_list
    else if s == "grid"
    then ok VarType.var_grid
    else if s == "map"
    then ok VarType.map
    else panic
