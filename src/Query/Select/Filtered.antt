-- ===== src/Query/Select/Filtered.antt =====
-- What the filters by id, by components and by distance select.
use outcome.Prelude.{
  ℕ, ◌-◌, ◌^◌, String, inl, inr, List, none, some, string_eq, nat_eq, ◌≡◌, refl, contains, arith,
  All,
}
use outcome.Prelude.Assoc
use outcome.Prelude.Assoc.{Assoc}
use outcome.Prelude.Decimal.{parse_unsigned}
use outcome.Prelude.Result.{ok}
use outcome.Data.{Float, Address}
use outcome.Std.{Std}
use outcome.Entity.{Entity}
use outcome.Query.{Filter, Point}
use outcome.Query.Select.{
  keep, with_components, coordinate, position_of, is_near, point_entity, apply_filter,
  apply_filters,
}
use outcome.Query.Select.Passing.{
  Demand, Selects, Passes, Stands, Belongs, Asks, id_asked, components_asked, distance_asked,
  nobody_asked, AllAsk, none_asks, one_asks,
}
use outcome.Query.Select.Deciding.{
  Decides-self, keep-Selects, Selects-everything, Selects-trans, with_components-Decides,
  near-Decides,
}

module _ ⦃std : Std⦄ (entities : Assoc ℕ Entity) where
  coordinate-Stands :
      (ent : Entity) (addr : Address) (f : Float)
      → Stands ent addr f
      → coordinate ent.storage addr ≡ ok f
  unfolding coordinate
  coordinate-Stands ent addr f (v, e, same) = ground (arith, e, same)

  module _ (names : Assoc String ℕ) where
    point_entity-Belongs :
        (p : Point) (id : ℕ) → Belongs names p.x_addr.entity id → point_entity names p ≡ some id
    unfolding point_entity
    point_entity-Belongs p id (inl e) = ground arith
    point_entity-Belongs p id (inr (e, e')) = ground arith

    point_entity-nobody :
        (p : Point)
        → Assoc.get p.x_addr.entity names ≡ none
        → parse_unsigned (2 ^ 32 - 1) p.x_addr.entity ≡ none
        → point_entity names p ≡ none
    unfolding point_entity
    point_entity-nobody p e e' = ground arith

    position_of-Stands :
        (p : Point) (id : ℕ) (ent : Entity) (x y z : Float)
        → Assoc.get id entities ≡ some ent
        → Stands ent p.x_addr x
        → Stands ent p.y_addr y
        → Stands ent p.z_addr z
        → position_of entities p id ≡ ok (x, y, z)
    unfolding position_of
    position_of-Stands p id ent x y z e hx hy hz =
        rw
          (
            e,
            coordinate-Stands ent p.x_addr x hx,
            coordinate-Stands ent p.y_addr y hy,
            coordinate-Stands ent p.z_addr z hz,
          )
          refl

    apply_filter-Selects :
        {f : Filter} {d : Demand} (ids : List ℕ)
        → Asks entities names f d
        → (kept : List ℕ) × (apply_filter entities names f ids ≡ ok kept)
          × Selects (λ id. Passes entities id d) kept ids
    unfolding apply_filter
    apply_filter-Selects ids (id_asked desired) = (
      keep (contains desired) ids,
      refl,
      keep-Selects _ (contains desired) (λ id. Decides-self (contains desired id)) ids,
    )
    apply_filter-Selects ids (components_asked desired) = (
      keep (with_components entities desired) ids,
      refl,
      keep-Selects _ (with_components entities desired) (with_components-Decides entities desired)
          ids,
    )
    apply_filter-Selects ids (distance_asked p owner ent x y z hb he hx hy hz) = (
      keep (is_near entities p (x, y, z)) ids,
      rw
          (
            apply_filter,
            point_entity-Belongs p owner hb,
            position_of-Stands p owner ent x y z he hx hy hz,
          )
          refl,
      keep-Selects _ (is_near entities p (x, y, z)) (near-Decides entities p x y z) ids,
    )
    apply_filter-Selects ids (nobody_asked p e e') =
        (ids, rw (apply_filter, point_entity-nobody p e e') refl, Selects-everything ids)

    -- Filters by id, by components and by distance to a point, one after another, select from the entities those
    -- that do all that is asked of them, in the order in which they came, and each as often: whose id is
    -- among the ids; that are there and have all the components; and that are there and are, by each of
    -- their stored coordinates, not farther from the point than is asked. It is supposed that every point
    -- belongs to an entity which has its coordinates, or to no entity, in which case nothing is asked.
    pub apply_filters-Selects :
        {fs : List Filter} {ds : List Demand} (ids : List ℕ)
        → AllAsk entities names fs ds
        → (kept : List ℕ) × (apply_filters entities names fs ids ≡ ok kept)
          × Selects (λ id. All (Passes entities id) ds) kept ids
    unfolding apply_filters
    apply_filters-Selects ids none_asks = (ids, refl, Selects-everything ids)
    apply_filters-Selects ids (one_asks {f} {d} {fs} {ds} asks more) =
        let (some_kept, e, h) = apply_filter-Selects ids asks in
        let (kept, e', h') = apply_filters-Selects some_kept more in
        (
          kept,
          rw (e) e',
          Selects-trans (λ id. Passes entities id d) (λ id. All (Passes entities id) ds) h h',
        )
