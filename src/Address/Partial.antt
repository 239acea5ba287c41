-- ===== src/Address/Partial.antt =====
-- `PartialAddress`: a type that cannot be read, and too few parts, panic.
use outcome.Prelude.{String, List, [], ◌∷◌}
use outcome.Prelude.Text.{split}
use outcome.Prelude.Result.{Result, ok, panic, ◌>>=◌, unwrap_ok}
use outcome.Data.{PartialAddress, entity_local, component_local, Error}
use outcome.VarType

partial_of : List String → Result Error PartialAddress
partial_of (ty ∷ name ∷ []) = do t ← unwrap_ok (VarType.from_str ty); ok (component_local t name)
partial_of (comp ∷ ty ∷ name ∷ more) = do
  t ← unwrap_ok (VarType.from_str ty)
  ok (entity_local comp t name)
partial_of _ = panic

unfoldable pub from_str : String → Result Error PartialAddress
unfolding partial_of split VarType.from_str
from_str s = partial_of (split b':' s)
