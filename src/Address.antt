-- ===== src/Address.antt =====
-- Addresses of variables as texts: outcome-core/src/address.rs.
pub mod RoundTrip
use outcome.Prelude.{String, List, [], ◌∷◌, Option, none, some}
use outcome.Prelude.Text.{split, ◌⧺◌}
use outcome.Prelude.Result.{Result, ok, err, panic, ◌>>=◌, unwrap_ok}
use outcome.Data.{
  VarType, ShortLocalAddress, LocalAddress, Address, PartialAddress, entity_local, component_local,
  StorageIndex, Error, invalid_local_address, failed_creating_address, other,
}
use outcome.VarType
pub mod Short
pub mod Local
pub mod Partial

address_of : String → List String → Result Error Address
address_of s (ent ∷ comp ∷ ty ∷ name ∷ []) = do
  t ← VarType.from_str ty
  ok (record { entity = ent; component = comp; var_type = t; var_name = name })
address_of s _ = err (failed_creating_address s)

unfoldable pub from_str : String → Result Error Address
unfolding address_of split VarType.from_str
from_str s = address_of s (split b':' s)

-- `Display`
unfoldable pub to_string : Address → String
unfolding VarType.to_str
to_string a = a.entity ⧺ ":" ⧺ a.component ⧺ ":" ⧺ VarType.to_str a.var_type ⧺ ":" ⧺ a.var_name

abbrev pub storage_index : Address → StorageIndex
storage_index a = (a.component, a.var_name)
