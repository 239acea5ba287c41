-- ===== src/Address/Short.antt =====
-- `ShortLocalAddress`: an address within an entity, which may leave the component out.
use outcome.Prelude.{String, List, [], ◌∷◌, Option, none, some}
use outcome.Prelude.Text.{split, ◌⧺◌}
use outcome.Prelude.Result.{Result, ok, err, ◌>>=◌}
use outcome.Data.{
  ShortLocalAddress, LocalAddress, Address, StorageIndex, Error, invalid_local_address, other,
}
use outcome.VarType

short_of : String → List String → Result Error ShortLocalAddress
short_of s (ty ∷ name ∷ []) = do
  t ← VarType.from_str ty
  ok (record { comp = none; var_type = t; var_name = name })
short_of s (comp ∷ ty ∷ name ∷ []) = do
  t ← VarType.from_str ty
  ok (record { comp = some comp; var_type = t; var_name = name })
short_of s _ = err (invalid_local_address s)

unfoldable pub from_str : String → Result Error ShortLocalAddress
unfolding short_of split VarType.from_str
from_str s = short_of s (split b':' s)

with_comp : Option String → String → String
with_comp none s = s
with_comp (some c) s = c ⧺ ":" ⧺ s

unfoldable pub to_string : ShortLocalAddress → String
unfolding with_comp VarType.to_str
to_string a = with_comp a.comp (VarType.to_str a.var_type ⧺ ":" ⧺ a.var_name)

-- A component that is passed in takes the place of the address's own.
prefer : Option String → Option String → Option String
prefer own none = own
prefer own (some c) = some c

unfoldable pub into_local_address : ShortLocalAddress → Option String → Result Error LocalAddress
unfolding prefer
into_local_address a component = elim (prefer a.comp component) [
  | none ↦ err (other "failed making into local address, missing comp name")
  | some c ↦ ok (record { comp = c; var_type = a.var_type; var_name = a.var_name })
]

unfoldable pub into_address : ShortLocalAddress → String → String → Result Error Address
into_address a ent comp =
    ok (record { entity = ent; component = comp; var_type = a.var_type; var_name = a.var_name })

unfoldable pub storage_index : ShortLocalAddress → Option String → Result Error StorageIndex
unfolding prefer
storage_index a comp_id = elim (prefer a.comp comp_id) [
  | none ↦ err (other "failed making storage index, short local address missing component name")
  | some c ↦ ok (c, a.var_name)
]

abbrev pub storage_index_using : ShortLocalAddress → String → StorageIndex
storage_index_using a comp_id = (comp_id, a.var_name)
