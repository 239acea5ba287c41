-- ===== src/Address/Local.antt =====
-- `LocalAddress`: an address within an entity.
use outcome.Prelude.{String, List, [], ◌∷◌}
use outcome.Prelude.Text.{split}
use outcome.Prelude.Result.{Result, ok, err, ◌>>=◌}
use outcome.Data.{LocalAddress, StorageIndex, Error, invalid_local_address}
use outcome.VarType

-- The name is taken from the second part, which is the type's.
local_of : String → List String → Result Error LocalAddress
local_of s (comp ∷ ty ∷ name ∷ []) = do
  t ← VarType.from_str ty
  ok (record { comp = comp; var_type = t; var_name = ty })
local_of s _ = err (invalid_local_address s)

unfoldable pub from_str : String → Result Error LocalAddress
unfolding local_of split VarType.from_str
from_str s = local_of s (split b':' s)

abbrev pub storage_index : LocalAddress → StorageIndex
storage_index a = (a.comp, a.var_name)

abbrev pub storage_index_using : LocalAddress → String → StorageIndex
storage_index_using a comp_id = (comp_id, a.var_name)
