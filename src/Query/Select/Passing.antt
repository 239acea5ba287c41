-- ===== src/Query/Select/Passing.antt =====
-- What it is for an entity to pass a filter, described without the code of the filters.
use outcome.Prelude.{
  ℕ, ◌-◌, ◌^◌, String, true, false, ◌⊎◌, List, [], ◌∷◌, Option, none, some, string_eq, nat_eq, ◌≡◌,
  contains, All,
}
use outcome.Prelude.Assoc
use outcome.Prelude.Assoc.{Assoc}
use outcome.Prelude.Decimal.{parse_unsigned}
use outcome.Prelude.Result.{Result, ok, err, panic}
use outcome.Data.{Error, Float, Var, Address}
use outcome.Std.{Std}
use outcome.Address.{storage_index}
use outcome.Storage
use outcome.Storage.{Storage}
use outcome.Var.Convert.{to_float}
use outcome.Entity.{Entity}
use outcome.Query.{Filter, Point}

-- What a filter asks of an entity, once a point has been looked up.
pub data Demand : Type 0 where
  one_of : List ℕ → Demand
  having : List String → Demand
  around : Float × Float × Float → Float × Float × Float → Demand
  nothing : Demand

-- The first list is what the predicate leaves of the second, in the same order.
pub data Selects (P : ℕ → Type 0) : List ℕ → List ℕ → Type 0 where
  none_left : Selects P [] []
  taken :
      {id : ℕ} {kept ids : List ℕ} → P id → Selects P kept ids → Selects P (id ∷ kept) (id ∷ ids)
  passed_over :
      {id : ℕ} {kept ids : List ℕ} → ¬ (P id) → Selects P kept ids → Selects P kept (id ∷ ids)

-- Of an entity that has to be there.
abbrev pub Has : (Entity → Type 0) → Option Entity → Type 0
Has P none = ⊥
Has P (some ent) = P ent

-- The entity that is named, or whose id is written.
abbrev pub Belongs : Assoc String ℕ → String → ℕ → Type 0
Belongs names text id =
    (Assoc.get text names ≡ some id)
    ⊎ ((Assoc.get text names ≡ none) × (parse_unsigned (2 ^ 32 - 1) text ≡ some id))

module _ ⦃std : Std⦄ where
  -- A coordinate, where it is stored, is at most so far from the given one.
  abbrev pub Within : Float → Float → Result Error Var → Type 0
  Within at most (ok v) = std.float_gt (std.float_abs (std.float_sub (to_float v) at)) most ≡ false
  Within at most (err e) = Unit
  Within at most panic = Unit

  -- The value that is stored at an address of an entity.
  abbrev pub Stands : Entity → Address → Float → Type 0
  Stands ent addr f =
      (v : Var) × (Storage.get_var ent.storage (storage_index addr) ≡ ok v) × (to_float v ≡ f)

  module _ (entities : Assoc ℕ Entity) where
    -- The entity does what is asked.
    abbrev pub Passes : ℕ → Demand → Type 0
    Passes id (one_of ids) = contains ids id ≡ true
    Passes id (having components) =
        Has (λ ent. All (λ c. contains ent.components c ≡ true) components) (Assoc.get id entities)
    Passes id (around (x, y, z) (dx, dy, dz)) =
        Has
          (λ ent.
            Within x dx (Storage.get_var ent.storage ("transform", "pos_x"))
            × (Within y dy (Storage.get_var ent.storage ("transform", "pos_y"))
                × Within z dz (Storage.get_var ent.storage ("transform", "pos_z"))))
          (Assoc.get id entities)
    Passes id nothing = Unit

    module _ (names : Assoc String ℕ) where
      -- What a filter by id, by components or by distance to one point asks. A point has an entity with its
      -- coordinates, or it belongs to none.
      pub data Asks : Filter → Demand → Type 0 where
        id_asked : (ids : List ℕ) → Asks (Filter.id ids) (one_of ids)
        components_asked : (cs : List String) → Asks (Filter.all_components cs) (having cs)
        distance_asked :
            (p : Point) (owner : ℕ) (ent : Entity) (x y z : Float)
            → Belongs names p.x_addr.entity owner
            → Assoc.get owner entities ≡ some ent
            → Stands ent p.x_addr x
            → Stands ent p.y_addr y
            → Stands ent p.z_addr z
            → Asks (Filter.distance p) (around (x, y, z) (p.dx, p.dy, p.dz))
        nobody_asked :
            (p : Point)
            → Assoc.get p.x_addr.entity names ≡ none
            → parse_unsigned (2 ^ 32 - 1) p.x_addr.entity ≡ none
            → Asks (Filter.distance p) nothing

      pub data AllAsk : List Filter → List Demand → Type 0 where
        none_asks : AllAsk [] []
        one_asks :
            {f : Filter} {d : Demand} {fs : List Filter} {ds : List Demand}
            → Asks f d
            → AllAsk fs ds
            → AllAsk (f ∷ fs) (d ∷ ds)
