-- ===== src/Storage.antt =====
-- An entity's data: outcome-core/src/entity/storage.rs. `Storage` is its one field, the map.
pub mod Laws
use outcome.Prelude.{String, List, [], ◌∷◌, Option, pair_eq, string_eq}
use outcome.Prelude.Assoc
use outcome.Prelude.Assoc.{Assoc}
use outcome.Prelude.Text.{◌⧺◌}
use outcome.Prelude.Result.{Result, ok, err, ok_or, unwrap_ok, ◌>>=◌}
use outcome.Data.{Var, Address, StorageIndex, Error, failed_getting_var_from_entity_storage}
use outcome.Std.{Std}
use outcome.VarType.{to_str}
use outcome.Var.{get_type}
use outcome.Var.Convert.{to_string}

abbrev pub Storage : Type 0
Storage = Assoc StorageIndex Var

unfoldable pub get_var : Storage → StorageIndex → Result Error Var
get_var s idx = ok_or (failed_getting_var_from_entity_storage idx) (Assoc.get idx s)

-- `*storage.get_var_mut(idx)? = v`
unfoldable pub set_var : Storage → StorageIndex → Var → Result Error Storage
unfolding get_var
set_var s idx v = do _ ← get_var s idx; ok (Assoc.insert idx v s)

unfoldable pub insert : Storage → StorageIndex → Var → Storage
insert s idx v = Assoc.insert idx v s

-- `set_from_var`: the place has to be there.
unfoldable pub set_from_var : Storage → Address → Var → Result Error Storage
unfolding set_var
set_from_var s target v = unwrap_ok (set_var s (target.component, target.var_name) v)

-- `remove_comp_vars`, given the names of the variables of the component's model
unfoldable pub remove_comp_vars : Storage → String → List String → Storage
remove_comp_vars s comp [] = s
remove_comp_vars s comp (name ∷ names) = remove_comp_vars (Assoc.remove (comp, name) s) comp names

module _ ⦃std : Std⦄ where
  -- `get_all_coerce_to_string`, on the entries from the first one on
  unfoldable pub get_all_coerce_to_string : Storage → Assoc String String
  unfolding to_str get_type to_string
  get_all_coerce_to_string [] = []
  get_all_coerce_to_string (((comp, name), v) ∷ rest) =
      Assoc.insert (comp ⧺ ":" ⧺ to_str (get_type v) ⧺ ":" ⧺ name) (to_string v)
        (get_all_coerce_to_string rest)
