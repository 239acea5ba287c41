-- ===== src/Sim.antt =====
-- A local simulation: outcome-core/src/sim/mod.rs. The pool of entity ids is the crate `id_pool`'s; its
-- `request_id`, which gives an id and the pool without it, is a parameter.
pub mod Remote
pub mod Step
pub mod Spawn
pub mod Access
pub mod Index
pub mod Written
pub mod Sound
use outcome.Prelude.{
  ℕ, ◌-◌, ◌^◌, String, Bool, true, false, List, [], ◌∷◌, ◌++◌, Option, none, some, string_eq,
  nat_eq, if◌then◌else◌,
}
use outcome.Prelude.Assoc
use outcome.Prelude.Assoc.{Assoc}
use outcome.Prelude.Decimal.{parse_unsigned, parse_i32}
use outcome.Prelude.Result.{Result, ok, err, panic, ◌>>=◌, ok_or, unwrap, map_err}
use outcome.Data.{
  VarType, Var, Address, Error, parsing_error, failed_getting_var_from_sim,
  failed_getting_entity_by_id, failed_getting_entity_by_name, other,
}
use outcome.Std.{Std}
use outcome.Address.{storage_index}
use outcome.Var.Access.{set_string, set_int, set_float, set_bool}
use outcome.Var.Parse.{parse_bool}
use outcome.Storage
use outcome.Model.{SimModel}
use outcome.Entity
use outcome.Entity.{Entity, from_prefab_name}

pub record Sim (Pool : Type 0) : Type 0 where
  pub model : SimModel
  pub clock : ℕ
  pub event_queue : List String
  pub entities : Assoc ℕ Entity
  pub entity_idx : Assoc String ℕ
  pub entity_pool : Pool

abbrev pub with_storage : Entity → Storage.Storage → Entity
with_storage ent s = record {
  storage = s;
  components = ent.components;
  comp_state = ent.comp_state;
  comp_queue = ent.comp_queue;
}

module _ {Pool : Type 0} where
  abbrev pub with_model : Sim Pool → SimModel → Sim Pool
  with_model sim model = record {
    model = model;
    clock = sim.clock;
    event_queue = sim.event_queue;
    entities = sim.entities;
    entity_idx = sim.entity_idx;
    entity_pool = sim.entity_pool;
  }

  abbrev pub with_events : Sim Pool → List String → Sim Pool
  with_events sim events = record {
    model = sim.model;
    clock = sim.clock;
    event_queue = events;
    entities = sim.entities;
    entity_idx = sim.entity_idx;
    entity_pool = sim.entity_pool;
  }

  abbrev pub with_entities : Sim Pool → Assoc ℕ Entity → Sim Pool
  with_entities sim entities = record {
    model = sim.model;
    clock = sim.clock;
    event_queue = sim.event_queue;
    entities = entities;
    entity_idx = sim.entity_idx;
    entity_pool = sim.entity_pool;
  }

  abbrev pub with_index : Sim Pool → Assoc String ℕ → Sim Pool
  with_index sim idx = record {
    model = sim.model;
    clock = sim.clock;
    event_queue = sim.event_queue;
    entities = sim.entities;
    entity_idx = idx;
    entity_pool = sim.entity_pool;
  }

  abbrev pub with_pool : Sim Pool → Pool → Sim Pool
  with_pool sim pool = record {
    model = sim.model;
    clock = sim.clock;
    event_queue = sim.event_queue;
    entities = sim.entities;
    entity_idx = sim.entity_idx;
    entity_pool = pool;
  }

  -- The entity of `spawn_entity`, before it has an id.
  abbrev pub new_entity : Sim Pool → Option String → Result Error Entity
  new_entity sim none = ok Entity.empty
  new_entity sim (some p) = from_prefab_name p sim.model

  -- The new entity under a name, given what the index has for it.
  unfoldable pub insert_named :
      Sim Pool → Entity → ℕ → Pool → String → Option ℕ → Sim Pool × Result Error ℕ
  insert_named sim ent id pool n (some taken) =
      (with_pool sim pool, err (other "Failed to add entity"))
  insert_named sim ent id pool n none = (
    with_entities (with_index (with_pool sim pool) (Assoc.insert n id sim.entity_idx))
        (Assoc.insert id ent sim.entities),
    ok id,
  )

  -- The new entity and its id, where there is one.
  unfoldable pub insert_entity :
      Sim Pool → Option String → Result Error Entity → Option (ℕ × Pool) → Sim Pool × Result Error ℕ
  unfolding insert_named
  insert_entity sim name (err e) request = (sim, err e)
  insert_entity sim name panic request = (sim, panic)
  insert_entity sim name (ok ent) none = (sim, panic)
  insert_entity sim none (ok ent) (some (id, pool)) =
      (with_entities (with_pool sim pool) (Assoc.insert id ent sim.entities), ok id)
  insert_entity sim (some n) (ok ent) (some (id, pool)) =
      insert_named sim ent id pool n (Assoc.get n sim.entity_idx)

  -- `spawn_entity`, with the simulation as it is left, whatever the result is. A name that is taken is
  -- only found after the id was requested.
  unfoldable pub spawn_entity :
      (Pool → Option (ℕ × Pool))
      → Sim Pool
      → Option String
      → Option String
      → Sim Pool × Result Error ℕ
  unfolding from_prefab_name insert_entity
  spawn_entity request_id sim prefab name =
      insert_entity sim name (new_entity sim prefab) (request_id sim.entity_pool)

  abbrev pub add_event : Sim Pool → String → Sim Pool
  add_event sim name =
      let model : SimModel = record {
        events = sim.model.events ++ (name ∷ []);
        entities = sim.model.entities;
        components = sim.model.components;
      } in
      with_events (with_model sim model) (sim.event_queue ++ (name ∷ []))

  abbrev pub get_entity : Sim Pool → ℕ → Result Error Entity
  get_entity sim id = ok_or (failed_getting_entity_by_id id) (Assoc.get id sim.entities)

  abbrev pub get_entity_by_name : Sim Pool → String → Result Error Entity
  get_entity_by_name sim name = do
    id ← ok_or (failed_getting_entity_by_name name) (Assoc.get name sim.entity_idx)
    get_entity sim id

  module _ ⦃std : Std⦄ where
    -- The id of the entity that an address names: by its name, or by its id in digits.
    unfoldable pub entity_of : Sim Pool → Address → Result Error (Option ℕ)
    unfolding parse_unsigned
    entity_of sim addr = elim (Assoc.get addr.entity sim.entity_idx) [
      | some id ↦ ok (some id)
      | none ↦
          if std.all_numeric addr.entity
          then elim (parse_unsigned (2 ^ 32 - 1) addr.entity) [
            | none ↦ err parsing_error
            | some id ↦ ok (some id)
          ]
          else ok none
    ]

    unfoldable pub get_var : Sim Pool → Address → Result Error Var
    unfolding entity_of Storage.get_var
    get_var sim addr = do
      id ← entity_of sim addr
      elim id [
        | none ↦ err (failed_getting_var_from_sim addr)
        | some i ↦ elim (Assoc.get i sim.entities) [
          | none ↦ err (failed_getting_var_from_sim addr)
          | some ent ↦ Storage.get_var ent.storage (storage_index addr)
        ]
      ]

    -- `*sim.get_var_mut(addr)? = v`
    unfoldable pub set_var : Sim Pool → Address → Var → Result Error (Sim Pool)
    unfolding entity_of Storage.set_var
    set_var sim addr v = do
      id ← entity_of sim addr
      elim id [
        | none ↦ err (failed_getting_var_from_sim addr)
        | some i ↦ elim (Assoc.get i sim.entities) [
          | none ↦ err (failed_getting_var_from_sim addr)
          | some ent ↦ do
            s ← Storage.set_var ent.storage (storage_index addr) v
            ok (with_entities sim (Assoc.insert i (with_storage ent s) sim.entities))
        ]
      ]

    -- In each assignment the value is parsed before its place is looked up.
    unfoldable pub set_from_string : Sim Pool → Address → String → Result Error (Sim Pool)
    unfolding get_var set_var set_string set_int set_float set_bool parse_bool parse_i32
    set_from_string sim addr val = elim addr.var_type [
      | VarType.string ↦ do v ← get_var sim addr; w ← set_string v val; set_var sim addr w
      | VarType.int ↦ do
        x ← ok_or parsing_error (parse_i32 val)
        v ← get_var sim addr
        w ← set_int v x
        set_var sim addr w
      | VarType.float ↦ do
        x ← ok_or parsing_error (std.parse_float val)
        v ← get_var sim addr
        w ← set_float v x
        set_var sim addr w
      | VarType.bool ↦ do
        x ← ok_or parsing_error (parse_bool val)
        v ← get_var sim addr
        w ← set_bool v x
        set_var sim addr w
      | _ ↦ ok sim
    ]
