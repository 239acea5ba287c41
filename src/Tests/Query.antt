-- ===== src/Tests/Query.antt =====
-- Queries in a harbour of one ship.
use outcome.Prelude.{
  ℕ, All, inl, zero, suc, String, [], ◌∷◌, List, none, ◌≡◌, refl, sym, arith, contains, nat_eq,
  string_eq, if◌then◌else◌,
}
use mathlib.Core.Path.{subst}
use outcome.Prelude.Assoc.{Assoc, get}
use outcome.Prelude.Int.{pos}
use outcome.Prelude.Result.{ok}
use outcome.Data.{bits, VarType, Var, Address}
use outcome.Entity.{Entity}
use outcome.Storage
use outcome.Var.Convert.{to_float}
use outcome.Query
use outcome.Query.{
  Point, Filter, Native, native_eq, address_eq, QueryProduct, Description, Layout, Trigger,
}
use outcome.Query.Select.{apply_filters}
use outcome.Query.Select.Passing.{
  Demand, one_of, having, around, Selects, Passes, id_asked, components_asked, distance_asked,
  none_asks, one_asks,
}
use outcome.Query.Select.Filtered.{apply_filters-Selects}
use outcome.Query.Pack.{process, combine}
use outcome.Query.Pack.Mapped.{pick, wants, var_of, HasUniqueKeys, get-process}
use outcome.Query.Pack.Combine.{products, first_of, get-combine}
use outcome.Tests.{test_std}
use outcome.Tests.Sim.{ship}

abbrev entities : Assoc ℕ Entity
entities = (0, ship) ∷ (7, ship) ∷ []

abbrev names : Assoc String ℕ
names = ("anna", 0) ∷ ("bert", 7) ∷ []

abbrev ship_at : ℕ → List String → Entity
ship_at depth components = record {
  storage =
      (("transform", "pos_x"), Var.float (bits 5))
      ∷ (("transform", "pos_y"), Var.float (bits 6))
      ∷ (("transform", "pos_z"), Var.float (bits depth))
      ∷ [];
  components = components;
  comp_state = [];
  comp_queue = [];
}

abbrev both : List String
both = "hull" ∷ "sail" ∷ []

-- The third ship is too deep, the last has no sail.
abbrev fleet : Assoc ℕ Entity
fleet =
    (0, ship_at 7 both)
    ∷ (7, ship_at 8 both)
    ∷ (8, ship_at 20 both)
    ∷ (9, ship_at 8 ("hull" ∷ []))
    ∷ []

abbrev coordinate_of : String → Address
coordinate_of n = record {
  entity = "anna";
  component = "transform";
  var_type = VarType.float;
  var_name = n;
}

abbrev by_anna : Point
by_anna = record {
  x_addr = coordinate_of "pos_x";
  y_addr = coordinate_of "pos_y";
  z_addr = coordinate_of "pos_z";
  dx = bits 3;
  dy = bits 3;
  dz = bits 3;
}

abbrev filters : List Filter
filters = Filter.id (7 ∷ 8 ∷ 9 ∷ []) ∷ Filter.all_components both ∷ Filter.distance by_anna ∷ []

abbrev demands : List Demand
demands =
    one_of (7 ∷ 8 ∷ 9 ∷ [])
    ∷ having both
    ∷ around (bits 5, bits 6, bits 7) (bits 3, bits 3, bits 3)
    ∷ []

abbrev all_ships : List ℕ
all_ships = 0 ∷ 7 ∷ 8 ∷ 9 ∷ []

apply_filters-Selects_example :
    (kept : List ℕ) × (apply_filters ⦃std = test_std⦄ fleet names filters all_ships ≡ ok kept)
    × Selects (λ id. All (Passes ⦃std = test_std⦄ fleet id) demands) kept all_ships
unfolding get Storage.get_var to_float
apply_filters-Selects_example = apply_filters-Selects ⦃std = test_std⦄ fleet names all_ships (
    one_asks (id_asked (7 ∷ 8 ∷ 9 ∷ [])) (
      one_asks (components_asked both) (
        one_asks
          (distance_asked by_anna 0 (ship_at 7 both) (bits 5) (bits 6) (bits 7) (inl refl) refl
            (Var.float (bits 5), refl, refl) (Var.float (bits 6), refl, refl)
            (Var.float (bits 7), refl, refl))
          none_asks)))

filters_run : apply_filters ⦃std = test_std⦄ fleet names filters all_ships ≡ ok (7 ∷ [])
unfolding apply_filters get
filters_run = refl

abbrev moored : Assoc ℕ Entity
moored = (0, ship) ∷ []

unique : (id : ℕ) → HasUniqueKeys (get id moored)
unfolding get
unique zero = (refl, tt)
unique (suc id) =
    let e : get (suc id) moored ≡ none = ground arith in subst HasUniqueKeys (sym e) tt

get-process_example :
    (found : Assoc Native Var) × (process ⦃std = test_std⦄
        (record {
          trigger = Trigger.immediate;
          description = Description.native_described;
          layout = Layout.var;
          filters = [];
          mappings = Query.Map.var_name "x" ∷ [];
        })
        moored
        []
      ≡ ok (QueryProduct.native_addressed_var found))
    × ((j : ℕ) (c n : String)
        → get (j, c, n) found ≡ (
            if contains (0 ∷ []) j
            then pick (wants (Query.Map.var_name "x" ∷ [])) c n (var_of (get j moored) c n) none
            else none))
unfolding apply_filters
get-process_example =
    get-process moored (Query.Map.var_name "x" ∷ []) tt unique ⦃std = test_std⦄ Trigger.immediate []
      [] (0 ∷ []) refl

abbrev depth : Address
depth = record { entity = "0"; component = "hull"; var_type = VarType.int; var_name = "x" }

get-combine_example :
    (out : Assoc Address Var) × (combine
        (products (((depth, Var.int (pos 1)) ∷ []) ∷ ((depth, Var.int (pos 2)) ∷ []) ∷ []))
      ≡ QueryProduct.addressed_var out)
    × ((k : Address)
        → get k out
          ≡ first_of k (((depth, Var.int (pos 2)) ∷ []) ∷ ((depth, Var.int (pos 1)) ∷ []) ∷ []))
get-combine_example =
    get-combine ((depth, Var.int (pos 1)) ∷ []) (((depth, Var.int (pos 2)) ∷ []) ∷ [])

-- The last product wins.
combine_run :
    combine (products (((depth, Var.int (pos 1)) ∷ []) ∷ ((depth, Var.int (pos 2)) ∷ []) ∷ []))
    ≡ QueryProduct.addressed_var ((depth, Var.int (pos 2)) ∷ [])
unfolding combine get Query.type_beq
combine_run = refl
