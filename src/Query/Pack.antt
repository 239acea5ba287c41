-- ===== src/Query/Pack.antt =====
-- The mappings and the layout of a query: the rest of `Query::process`, and `QueryProduct::combine`, in
-- outcome-core/src/query.rs.
pub mod Mapped
pub mod Combine
use outcome.Prelude.{
  ℕ, String, Bool, true, false, ◌&&◌, ◌||◌, List, [], ◌∷◌, ◌++◌, Option, none, some, string_eq,
  nat_eq, ◌==◌, contains, if◌then◌else◌,
}
use outcome.Prelude.Assoc
use outcome.Prelude.Assoc.{Assoc, keys}
use outcome.Prelude.Decimal.{show_ℕ}
use outcome.Prelude.Result.{Result, ok, err, panic, ◌>>=◌}
use outcome.Data.{Error, VarType, Var, Address}
use outcome.Std.{Std}
use outcome.Storage.{Storage}
use outcome.Var.{get_type}
use outcome.Var.Access.{is_float, is_bool, is_int}
use outcome.Var.Convert.{to_float, to_bool, to_int}
use outcome.Entity.{Entity}
use outcome.Query
use outcome.Query.{
  Query, Native, native_eq, address_eq, type_eq, AddressedTypedMap, QueryProduct, Description,
  Layout,
}
use outcome.Query.Select.{apply_filters}

-- The variables of an entity that pass the test join the mapped data.
unfoldable pub map_vars :
    (String → String → Var → Bool) → ℕ → Storage → Assoc Native Var → Assoc Native Var
map_vars p id [] found = found
map_vars p id (((comp, name), v) ∷ vars) found =
    map_vars p id vars (if p comp name v then Assoc.insert (id, comp, name) v found else found)

-- The same for an entity that may not be there.
unfoldable pub map_entity :
    (String → String → Var → Bool) → ℕ → Option Entity → Assoc Native Var → Assoc Native Var
unfolding map_vars
map_entity p id none found = found
map_entity p id (some ent) found = map_vars p id ent.storage found

unfoldable pub map_components :
    List String → ℕ → Option Entity → Assoc Native Var → Assoc Native Var
unfolding map_entity
map_components [] id ent found = found
map_components (c ∷ cs) id ent found =
    map_components cs id ent (map_entity (λ comp name v. comp == c) id ent found)

-- The loop over the mappings, for one selected entity; `All` leaves it.
unfoldable pub apply_mappings :
    List Query.Map → ℕ → Option Entity → Assoc Native Var → Result Error (Assoc Native Var)
unfolding map_entity map_components get_type
apply_mappings [] id ent found = ok found
apply_mappings (Query.Map.all ∷ ms) id ent found =
    ok (map_entity (λ comp name v. true) id ent found)
apply_mappings (Query.Map.var t n ∷ ms) id ent found =
    apply_mappings ms id ent
      (map_entity (λ comp name v. (get_type v == t) && (name == n)) id ent found)
apply_mappings (Query.Map.var_name n ∷ ms) id ent found =
    apply_mappings ms id ent (map_entity (λ comp name v. name == n) id ent found)
apply_mappings (Query.Map.components cs ∷ ms) id ent found =
    apply_mappings ms id ent (map_components cs id ent found)
apply_mappings (Query.Map.select_addr ∷ ms) id ent found = panic
apply_mappings (Query.Map.var_type ∷ ms) id ent found = panic

unfoldable pub map_selected :
    Assoc ℕ Entity → List Query.Map → List ℕ → Assoc Native Var → Result Error (Assoc Native Var)
unfolding apply_mappings
map_selected entities ms [] found = ok found
map_selected entities ms (id ∷ ids) found = do
  found' ← apply_mappings ms id (Assoc.get id entities) found
  map_selected entities ms ids found'

unfoldable pub values : Assoc Native Var → List Var
values [] = []
values ((k, v) ∷ found) = v ∷ values found

unfoldable pub address_of : Native → Var → Address
unfolding show_ℕ get_type
address_of (id, comp, name) v = record {
  entity = show_ℕ id;
  component = comp;
  var_type = get_type v;
  var_name = name;
}

unfoldable pub addressed : Assoc Native Var → Assoc Address Var → Assoc Address Var
unfolding address_of
addressed [] out = out
addressed ((k, v) ∷ found) out = addressed found (Assoc.insert (address_of k v) v out)

module _ ⦃std : Std⦄ where
  -- A float, a boolean or an integer joins the map of its type; nothing else does.
  unfoldable pub add_typed : Address → Var → AddressedTypedMap → AddressedTypedMap
  unfolding is_float is_bool is_int to_float to_bool to_int
  add_typed addr v out =
      if is_float v
      then record {
        strings = out.strings;
        ints = out.ints;
        floats = Assoc.insert addr (to_float v) out.floats;
        bools = out.bools;
      }
      else if is_bool v
      then record {
        strings = out.strings;
        ints = out.ints;
        floats = out.floats;
        bools = Assoc.insert addr (to_bool v) out.bools;
      }
      else if is_int v
      then record {
        strings = out.strings;
        ints = Assoc.insert addr (to_int v) out.ints;
        floats = out.floats;
        bools = out.bools;
      }
      else out

  unfoldable pub addressed_typed : Assoc Native Var → AddressedTypedMap → AddressedTypedMap
  unfolding add_typed address_of
  addressed_typed [] out = out
  addressed_typed ((k, v) ∷ found) out = addressed_typed found (add_typed (address_of k v) v out)

  unfoldable pub pack : Description → Layout → Assoc Native Var → Result Error QueryProduct
  unfolding values addressed addressed_typed
  pack Description.none Layout.var found = ok (QueryProduct.var (values found))
  pack Description.native_described Layout.var found = ok (QueryProduct.native_addressed_var found)
  pack Description.addressed Layout.var found = ok (QueryProduct.addressed_var (addressed found []))
  pack Description.addressed Layout.typed found = ok (
      QueryProduct.addressed_typed
        (addressed_typed found (record { strings = []; ints = []; floats = []; bools = [] })))
  pack Description.none Layout.typed found = panic
  pack Description.native_described Layout.typed found = panic
  pack Description.string_addressed layout found = panic
  pack Description.ordered layout found = panic

  -- `Query::process`
  unfoldable pub process : Query → Assoc ℕ Entity → Assoc String ℕ → Result Error QueryProduct
  unfolding apply_filters map_selected pack
  process q entities names = do
    selected ← apply_filters entities names q.filters (keys entities)
    found ← map_selected entities q.mappings selected []
    pack q.description q.layout found

-- The entries whose key is not there yet join the map.
unfoldable pub add_missing : Assoc Address Var → Assoc Address Var → Assoc Address Var
add_missing [] out = out
add_missing ((k, v) ∷ m) out = elim (Assoc.get k out) [
  | none ↦ add_missing m (Assoc.insert k v out)
  | some _ ↦ add_missing m out
]

unfoldable pub combine_two : QueryProduct → QueryProduct → QueryProduct
unfolding add_missing
combine_two (QueryProduct.addressed_var out) (QueryProduct.addressed_var m) =
    QueryProduct.addressed_var (add_missing m out)
combine_two final product = final

unfoldable pub combine_all : List QueryProduct → QueryProduct → QueryProduct
unfolding combine_two
combine_all [] final = final
combine_all (p ∷ ps) final = combine_all ps (combine_two final p)

abbrev pub last {ℓ} : {A : Type ℓ} → A → List A → A
last p [] = p
last p (q ∷ qs) = last q qs

abbrev pub but_last {ℓ} : {A : Type ℓ} → A → List A → List A
but_last p [] = []
but_last p (q ∷ qs) = p ∷ but_last q qs

-- `QueryProduct::combine`
unfoldable pub combine : List QueryProduct → QueryProduct
unfolding combine_all
combine [] = QueryProduct.empty
combine (p ∷ ps) = combine_all (but_last p ps) (last p ps)
