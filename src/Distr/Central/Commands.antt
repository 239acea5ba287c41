-- ===== src/Distr/Central/Commands.antt =====
-- The central commands on the central authority: `execute_distr` of outcome-core/src/machine/cmd/mod.rs and
-- the `execute_ext_distr` that it calls. Where their bodies are those of `execute_ext` on another state, the
-- change of the model is the same function.
use outcome.Prelude.{ℕ, String, List, [], ◌∷◌, ◌++◌, Option, string_eq}
use outcome.Prelude.Result.{Result, ok, err, panic}
use outcome.Data
use outcome.Model.{SimModel, default_logic, get_component}
use outcome.Machine.{MachineError, empty_location}
use outcome.Machine.Command.{CentralRemoteCommand}
use outcome.Machine.Exec.{Central}
use outcome.Sim.Remote.{
  located_error, with_components, add_component, add_state, add_var, add_trigger, invoke_all,
}
use outcome.Distr.Central.{SimCentral, DistributionPolicy, spawn_entity}

abbrev pub Executed : Type 0 → Type 0
Executed Pool = SimCentral Pool × Result MachineError (Unit {0})

module _ {Pool : Type 0} where
  abbrev pub with_model : SimCentral Pool → SimModel → SimCentral Pool
  with_model c model = record {
    model = model;
    clock = c.clock;
    event_queue = c.event_queue;
    node_entities = c.node_entities;
    entities_idx = c.entities_idx;
    entity_idpool = c.entity_idpool;
    ent_spawn_queue = c.ent_spawn_queue;
  }

  abbrev pub with_events : SimCentral Pool → List String → SimCentral Pool
  with_events c events = record {
    model = c.model;
    clock = c.clock;
    event_queue = events;
    node_entities = c.node_entities;
    entities_idx = c.entities_idx;
    entity_idpool = c.entity_idpool;
    ent_spawn_queue = c.ent_spawn_queue;
  }

  abbrev pub remodelled : SimCentral Pool → Result MachineError SimModel → Executed Pool
  remodelled c (ok m) = (with_model c m, ok tt)
  remodelled c (err e) = (c, err e)
  remodelled c panic = (c, panic)

  abbrev pub spawned : SimCentral Pool × Result Data.Error (Unit {0}) → Executed Pool
  spawned (c, ok _) = (c, ok tt)
  spawned (c, err e) = (c, err (located_error empty_location e))
  spawned (c, panic) = (c, panic)

  module _ (request_id : Pool → Option (ℕ × Pool)) (shuffle : List ℕ → List ℕ) where
    -- `CentralRemoteCommand::execute_distr`
    unfoldable pub execute_distr : CentralRemoteCommand → SimCentral Pool → String → Executed Pool
    unfolding add_component add_state add_var add_trigger invoke_all spawn_entity
    execute_distr (CentralRemoteCommand.sim args) c comp = (c, ok tt)
    execute_distr (CentralRemoteCommand.extend e) c comp = (c, ok tt)
    execute_distr (CentralRemoteCommand.spawn s) c comp =
        spawned (spawn_entity request_id shuffle c s.prefab s.spawn_id DistributionPolicy.random)
    execute_distr (CentralRemoteCommand.register_component r) c comp = remodelled c (
        ok (
          with_components c.model (
            c.model.components
            ++ (record {
              name = r.name;
              vars = [];
              triggers = r.trigger_events;
              logic = default_logic;
            }
                ∷ []))))
    execute_distr (CentralRemoteCommand.register_entity_prefab r) c comp = remodelled c (
        ok (record {
          events = c.model.events;
          entities = c.model.entities ++ (record { name = r.name; components = r.components } ∷ []);
          components = c.model.components;
        }))
    execute_distr (CentralRemoteCommand.register_event name) c comp = (
      with_events
          (with_model c (record {
            events = c.model.events ++ (name ∷ []);
            entities = c.model.entities;
            components = c.model.components;
          }))
          (c.event_queue ++ (name ∷ [])),
      ok tt,
    )
    execute_distr (CentralRemoteCommand.register_trigger r) c comp =
        elim (get_component c.model r.comp) [
          | ok found ↦ remodelled c (ok (add_trigger r c.model))
          | err e ↦ (c, panic)
          | panic ↦ (c, panic)
        ]
    execute_distr (CentralRemoteCommand.register_var r) c comp =
        remodelled c (ok (add_var r comp c.model))
    execute_distr (CentralRemoteCommand.invoke events) c comp =
        (with_events c (invoke_all events c.event_queue), ok tt)
    execute_distr (CentralRemoteCommand.state s) c comp = remodelled c (ok (add_state s c.model))
    execute_distr (CentralRemoteCommand.component b) c comp = remodelled c (add_component b c.model)

    -- The loop over the gathered commands: an error is dropped, and the next command is executed.
    unfoldable pub execute_all : Central → SimCentral Pool → Result Data.Error (SimCentral Pool)
    unfolding execute_distr
    execute_all [] c = ok c
    execute_all ((ctx, cmd) ∷ cmds) c =
        let (c', r) = execute_distr cmd c ctx.comp in
        elim r [ ok _ ↦ execute_all cmds c' | err e ↦ execute_all cmds c' | panic ↦ panic ]
