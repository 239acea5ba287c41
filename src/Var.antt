-- ===== src/Var.antt =====
-- `Var`: values, their types and the conversions between them: outcome-core/src/var.rs.
pub mod Access
pub mod Convert
pub mod Parse
pub mod Laws
use outcome.Prelude.{ℕ, suc, Bool, List, [], ◌∷◌}
use outcome.Prelude.Int.{pos}
use outcome.Data.{VarType, Var, Vars, nil, cons, Rows, no_rows, row, Entries, no_entries, entry}
use outcome.Std.{zero_float}

abbrev pub vars_length : Vars → ℕ
vars_length nil = 0
vars_length (cons v vs) = suc (vars_length vs)

abbrev pub rows_length : Rows → ℕ
rows_length no_rows = 0
rows_length (row r rs) = suc (rows_length rs)

abbrev pub entries_length : Entries → ℕ
entries_length no_entries = 0
entries_length (entry k v es) = suc (entries_length es)

-- `Vec<Var>` from a list and back
abbrev pub of_list : List Var → Vars
of_list [] = nil
of_list (v ∷ vs) = cons v (of_list vs)

abbrev pub to_list : Vars → List Var
to_list nil = []
to_list (cons v vs) = v ∷ to_list vs

unfoldable pub default_value : VarType → Var
default_value VarType.string = Var.string ""
default_value VarType.int = Var.int (pos 0)
default_value VarType.float = Var.float zero_float
default_value VarType.bool = Var.bool Bool.false
default_value VarType.byte = Var.byte 0
default_value VarType.vec2 = Var.vec2 zero_float zero_float
default_value VarType.vec3 = Var.vec3 zero_float zero_float zero_float
default_value VarType.map = Var.map no_entries
default_value VarType.string_list = Var.list nil
default_value VarType.int_list = Var.list nil
default_value VarType.float_list = Var.list nil
default_value VarType.bool_list = Var.list nil
default_value VarType.byte_list = Var.list nil
default_value VarType.vec2_list = Var.list nil
default_value VarType.vec3_list = Var.list nil
default_value VarType.var_list = Var.list nil
default_value VarType.string_grid = Var.list nil
default_value VarType.int_grid = Var.list nil
default_value VarType.float_grid = Var.list nil
default_value VarType.bool_grid = Var.list nil
default_value VarType.byte_grid = Var.list nil
default_value VarType.vec2_grid = Var.list nil
default_value VarType.vec3_grid = Var.list nil
default_value VarType.var_grid = Var.list nil

-- `Var::new`, which differs from `default_value` at the grids.
unfoldable pub new : VarType → Var
new VarType.string = Var.string ""
new VarType.int = Var.int (pos 0)
new VarType.float = Var.float zero_float
new VarType.bool = Var.bool Bool.false
new VarType.byte = Var.byte 0
new VarType.vec2 = Var.vec2 zero_float zero_float
new VarType.vec3 = Var.vec3 zero_float zero_float zero_float
new VarType.map = Var.map no_entries
new VarType.string_list = Var.list nil
new VarType.int_list = Var.list nil
new VarType.float_list = Var.list nil
new VarType.bool_list = Var.list nil
new VarType.byte_list = Var.list nil
new VarType.vec2_list = Var.list nil
new VarType.vec3_list = Var.list nil
new VarType.var_list = Var.list nil
new VarType.string_grid = Var.grid no_rows
new VarType.int_grid = Var.grid no_rows
new VarType.float_grid = Var.grid no_rows
new VarType.bool_grid = Var.grid no_rows
new VarType.byte_grid = Var.grid no_rows
new VarType.vec2_grid = Var.grid no_rows
new VarType.vec3_grid = Var.grid no_rows
new VarType.var_grid = Var.grid no_rows

-- The type of a list, or of a grid, by the type of its first element.
list_type : VarType → VarType
list_type VarType.string = VarType.string_list
list_type VarType.int = VarType.int_list
list_type VarType.float = VarType.float_list
list_type VarType.bool = VarType.bool_list
list_type VarType.byte = VarType.byte_list
list_type VarType.vec2 = VarType.vec2_list
list_type VarType.vec3 = VarType.vec3_list
list_type _ = VarType.var_list

grid_type : VarType → VarType
grid_type VarType.string = VarType.string_grid
grid_type VarType.int = VarType.int_grid
grid_type VarType.float = VarType.float_grid
grid_type VarType.bool = VarType.bool_grid
grid_type VarType.byte = VarType.byte_grid
grid_type VarType.vec2 = VarType.vec2_grid
grid_type VarType.vec3 = VarType.vec3_grid
grid_type _ = VarType.var_grid

unfoldable pub get_type : Var → VarType
unfolding list_type grid_type
get_type (Var.string s) = VarType.string
get_type (Var.int i) = VarType.int
get_type (Var.float f) = VarType.float
get_type (Var.bool b) = VarType.bool
get_type (Var.byte n) = VarType.byte
get_type (Var.vec2 x y) = VarType.vec2
get_type (Var.vec3 x y z) = VarType.vec3
get_type (Var.list nil) = VarType.var_list
get_type (Var.list (cons v vs)) = list_type (get_type v)
get_type (Var.grid no_rows) = VarType.var_grid
get_type (Var.grid (row nil rs)) = VarType.var_grid
get_type (Var.grid (row (cons v vs) rs)) = grid_type (get_type v)
get_type (Var.map es) = VarType.map
