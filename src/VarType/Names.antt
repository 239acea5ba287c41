-- ===== src/VarType/Names.antt =====
-- Which names of variable types are read back as the type that has them.
use outcome.Prelude.{◌≡◌, refl, Bool, true, false, if◌then◌else◌}
use outcome.Prelude.Text.{has_char}
use outcome.Prelude.Result.{ok, panic}
use outcome.Data.{VarType}
use outcome.VarType.{to_str, from_str, from_str_unchecked}

-- The types whose values are containers of no fixed element type.
abbrev pub is_generic : VarType → Bool
is_generic VarType.var_list = true
is_generic VarType.var_grid = true
is_generic VarType.map = true
is_generic _ = false

-- The types of one value, and the generic containers.
abbrev pub is_plain : VarType → Bool
is_plain VarType.string = true
is_plain VarType.int = true
is_plain VarType.float = true
is_plain VarType.bool = true
is_plain VarType.byte = true
is_plain VarType.vec2 = true
is_plain VarType.vec3 = true
is_plain VarType.var_list = true
is_plain VarType.var_grid = true
is_plain VarType.map = true
is_plain _ = false

-- The name of a type is read back by `from_str` as that type, except that the names of the generic
-- list, grid and map make it panic.
pub from_str-to_str : (t : VarType) → from_str (to_str t) ≡ (if is_generic t then panic else ok t)
unfolding from_str to_str
from_str-to_str VarType.string = refl
from_str-to_str _ = refl

-- `from_str_unchecked` reads back exactly the names of plain types, and panics on the names of lists
-- and grids of one element type.
from_str_unchecked-to_str :
    (t : VarType) → from_str_unchecked (to_str t) ≡ (if is_plain t then ok t else panic)
unfolding from_str_unchecked to_str
from_str_unchecked-to_str VarType.string = refl
from_str_unchecked-to_str _ = refl

-- No name of a type holds the separator of addresses.
pub has_char-to_str : (t : VarType) → has_char b':' (to_str t) ≡ false
unfolding has_char to_str
has_char-to_str VarType.string = refl
has_char-to_str _ = refl
