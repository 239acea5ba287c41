-- ===== src/Query/Select.antt =====
-- The filters of a query: the first loop of `Query::process` in outcome-core/src/query.rs.
pub mod Deciding
pub mod Filtered
pub mod Filters
pub mod Passing
use outcome.Prelude.{
  ℕ, ◌-◌, ◌^◌, String, Bool, true, false, not, ◌&&◌, ◌||◌, List, [], ◌∷◌, ◌++◌, Option, none, some,
  string_eq, nat_eq, contains, if◌then◌else◌,
}
use outcome.Prelude.Assoc
use outcome.Prelude.Assoc.{Assoc}
use outcome.Prelude.Decimal.{parse_unsigned}
use outcome.Prelude.Result.{Result, ok, err, panic, ◌>>=◌, unwrap}
use outcome.Data.{Error, Float, Address}
use outcome.Std.{Std}
use outcome.Address.{storage_index}
use outcome.Storage
use outcome.Storage.{Storage}
use outcome.Var.Convert.{to_float}
use outcome.Entity.{Entity}
use outcome.Query.{Filter, Point}

-- The entities that pass the test, in their order.
abbrev pub keep : (ℕ → Bool) → List ℕ → List ℕ
keep p [] = []
keep p (id ∷ ids) = if p id then id ∷ keep p ids else keep p ids

-- The ids of the entities with one of the names.
unfoldable pub matching : List String → Assoc String ℕ → List ℕ
matching desired [] = []
matching desired ((n, id) ∷ names) =
    if contains desired n then id ∷ matching desired names else matching desired names

-- The loop over the selected entities, each of which the names are looked up for.
unfoldable pub match_names : List String → Assoc String ℕ → List ℕ → List ℕ
unfolding matching
match_names desired names [] = []
match_names desired names (id ∷ ids) = matching desired names ++ match_names desired names ids

unfoldable pub has_all : List String → List String → Bool
has_all components [] = true
has_all components (c ∷ cs) = contains components c && has_all components cs

unfoldable pub with_components : Assoc ℕ Entity → List String → ℕ → Bool
unfolding has_all
with_components entities desired id = elim (Assoc.get id entities) [
  | none ↦ false
  | some ent ↦ has_all ent.components desired
]

module _ ⦃std : Std⦄ where
  -- `storage.get_var(..).unwrap().clone().to_float()`
  unfoldable pub coordinate : Storage → Address → Result Error Float
  unfolding Storage.get_var to_float
  coordinate s addr = elim (Storage.get_var s (storage_index addr)) [
    | ok v ↦ ok (to_float v)
    | err e ↦ panic
    | panic ↦ panic
  ]

  unfoldable pub position_of : Assoc ℕ Entity → Point → ℕ → Result Error (Float × Float × Float)
  unfolding coordinate
  position_of entities p id = do
    ent ← unwrap (Assoc.get id entities)
    x ← coordinate ent.storage p.x_addr
    y ← coordinate ent.storage p.y_addr
    z ← coordinate ent.storage p.z_addr
    ok (x, y, z)

  -- Is the variable there, and too far away?
  unfoldable pub is_far : Storage → String → Float → Float → Bool
  unfolding Storage.get_var to_float
  is_far s name at most = elim (Storage.get_var s ("transform", name)) [
    | ok v ↦ std.float_gt (std.float_abs (std.float_sub (to_float v) at)) most
    | err e ↦ false
    | panic ↦ false
  ]

  unfoldable pub is_near : Assoc ℕ Entity → Point → Float × Float × Float → ℕ → Bool
  unfolding is_far
  is_near entities p (x, y, z) id = elim (Assoc.get id entities) [
    | none ↦ false
    | some ent ↦
        if is_far ent.storage "pos_x" x p.dx
        then false
        else if is_far ent.storage "pos_y" y p.dy
        then false
        else not (is_far ent.storage "pos_z" z p.dz)
  ]

  -- The entity that a point belongs to: by its name, or by its id in digits.
  unfoldable pub point_entity : Assoc String ℕ → Point → Option ℕ
  unfolding parse_unsigned
  point_entity names p = elim (Assoc.get p.x_addr.entity names) [
    | some id ↦ some id
    | none ↦ parse_unsigned (2 ^ 32 - 1) p.x_addr.entity
  ]

  unfoldable pub near_points :
      Assoc ℕ Entity → Assoc String ℕ → List Point → List ℕ → Result Error (List ℕ)
  unfolding point_entity position_of is_near
  near_points entities names [] ids = ok []
  near_points entities names (p ∷ ps) ids = do
    id ← unwrap (point_entity names p)
    at ← position_of entities p id
    rest ← near_points entities names ps ids
    ok (keep (is_near entities p at) ids ++ rest)

  -- One filter on the selected entities.
  unfoldable pub apply_filter :
      Assoc ℕ Entity → Assoc String ℕ → Filter → List ℕ → Result Error (List ℕ)
  unfolding match_names with_components point_entity position_of is_near near_points
  apply_filter entities names (Filter.id desired) ids = ok (keep (contains desired) ids)
  apply_filter entities names (Filter.name desired) ids = ok (match_names desired names ids)
  apply_filter entities names (Filter.all_components desired) ids =
      ok (keep (with_components entities desired) ids)
  apply_filter entities names (Filter.distance p) ids = elim (point_entity names p) [
    | none ↦ ok ids
    | some id ↦ do at ← position_of entities p id; ok (keep (is_near entities p at) ids)
  ]
  apply_filter entities names (Filter.distance_multi_point ps) ids =
      near_points entities names ps ids
  apply_filter entities names Filter.some_components ids = panic
  apply_filter entities names Filter.var_range ids = panic
  apply_filter entities names Filter.attr_range ids = panic
  apply_filter entities names Filter.node ids = panic

  unfoldable pub apply_filters :
      Assoc ℕ Entity → Assoc String ℕ → List Filter → List ℕ → Result Error (List ℕ)
  unfolding apply_filter
  apply_filters entities names [] ids = ok ids
  apply_filters entities names (f ∷ fs) ids = do
    ids' ← apply_filter entities names f ids
    apply_filters entities names fs ids'
