-- ===== src/Tests/Text.antt =====
-- Values, types, addresses and storages at concrete inputs.
use outcome.Prelude.{◌≡◌, refl, true, false, [], ◌∷◌, some, arith, pair_eq, string_eq}
use outcome.Prelude.Int.{pos, negsuc}
use outcome.Prelude.Text.{◌⧺◌, has_char}
use outcome.Prelude.Result.{ok, err, panic}
use outcome.Data.{VarType, Var, nil, no_rows, Address, ShortLocalAddress}
use outcome.VarType
use outcome.VarType.Names.{from_str-to_str}
use outcome.Var.{get_type, new, default_value}
use outcome.Var.Convert.{to_string, coerce, set_coerce}
use outcome.Var.Parse.{from_str}
use outcome.Var.Laws.{from_str-to_string, set_coerce-coerce, get_type-coerce, new-default_value}
use outcome.Address
use outcome.Address.Short
use outcome.Address.Local
use outcome.Address.RoundTrip.{
  from_str-to_string_address, from_str-to_string_short, var_name-from_str_local,
}
use outcome.Storage.{Storage, get_var, remove_comp_vars}
use outcome.Storage.Laws.{get_var-remove_comp_vars}
use outcome.Data.{failed_getting_var_from_entity_storage}
use outcome.Tests.{test_std}

from_str-to_str_example : VarType.from_str "grid" ≡ panic
unfolding VarType.to_str
from_str-to_str_example = from_str-to_str VarType.var_grid

from_str-to_string_example :
    from_str ⦃std = test_std⦄ "-7" (some VarType.int) ≡ ok (Var.int (negsuc 6))
unfolding to_string get_type
from_str-to_string_example = from_str-to_string ⦃std = test_std⦄ (Var.int (negsuc 6)) (omega arith)

set_coerce-coerce_example :
    set_coerce ⦃std = test_std⦄ (Var.bool false) (Var.int (pos 3))
    ≡ coerce ⦃std = test_std⦄ (Var.int (pos 3)) VarType.bool
unfolding get_type
set_coerce-coerce_example = set_coerce-coerce ⦃std = test_std⦄ (Var.bool false) (Var.int (pos 3))

get_type-coerce_example : get_type (Var.bool true) ≡ VarType.bool
unfolding coerce
get_type-coerce_example =
    get_type-coerce ⦃std = test_std⦄ (Var.int (pos 3)) (Var.bool true) VarType.bool refl

new-default_value_example :
    (new VarType.int_grid ≡ Var.grid no_rows) × (default_value VarType.int_grid ≡ Var.list nil)
new-default_value_example = new-default_value VarType.int_grid

abbrev position : Address
position = record { entity = "ship"; component = "body"; var_type = VarType.int; var_name = "x" }

from_str-to_string_address_example : Address.from_str (Address.to_string position) ≡ ok position
unfolding has_char
from_str-to_string_address_example = from_str-to_string_address position refl refl refl

abbrev short_position : ShortLocalAddress
short_position = record { comp = some "body"; var_type = VarType.int; var_name = "x" }

from_str-to_string_short_example :
    Short.from_str (Short.to_string short_position) ≡ ok short_position
unfolding has_char
from_str-to_string_short_example = from_str-to_string_short short_position refl refl

var_name-from_str_local_example :
    Local.from_str ("body" ⧺ ":" ⧺ VarType.to_str VarType.int ⧺ ":" ⧺ "x")
    ≡ ok (record { comp = "body"; var_type = VarType.int; var_name = VarType.to_str VarType.int })
unfolding has_char
var_name-from_str_local_example = var_name-from_str_local "body" "x" VarType.int refl refl refl

abbrev two_vars : Storage
two_vars = (("body", "x"), Var.int (pos 1)) ∷ (("body", "y"), Var.int (pos 2)) ∷ []

get_var-remove_comp_vars_example :
    get_var (remove_comp_vars two_vars "body" ("x" ∷ [])) ("body", "x")
    ≡ err (failed_getting_var_from_entity_storage ("body", "x"))
get_var-remove_comp_vars_example = get_var-remove_comp_vars two_vars "body" ("x" ∷ []) "body" "x"
