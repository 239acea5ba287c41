-- ===== src/Sim/Step.antt =====
-- One step of a local simulation: outcome-core/src/sim/step.rs. The entities are processed in the order
-- of the map, which stands for one of the orders in which the threads may do it.
use outcome.Prelude.{
  ℕ, ◌+◌, ◌%◌, ◌^◌, String, List, [], ◌∷◌, ◌++◌, Option, none, some, contains, string_eq, nat_eq,
  ◌==◌, if◌then◌else◌,
}
use outcome.Prelude.Assoc
use outcome.Prelude.Assoc.{Assoc}
use outcome.Prelude.Result.{Result, ok, err, panic, ◌>>=◌}
use outcome.Std.{Std}
use outcome.Model.{SimModel, get_component}
use outcome.Entity.{Entity}
use outcome.Machine.{MachineError}
use outcome.Machine.Command.{Extend}
use outcome.Machine.Exec.{Ext, Central, Run, execute_loc}
use outcome.Sim.{Sim, with_events, with_entities}
use outcome.Sim.Remote.{Remote, execute_ext, execute_central_ext}

-- A computation that may need more fuel (`none`), or panic.
abbrev pub Work {ℓ} : Type ℓ → Type ℓ
Work A = Option (Result MachineError A)

abbrev pub and_then {ℓ κ} : {A : Type ℓ} {B : Type κ} → Work A → (A → Work B) → Work B
and_then none k = none
and_then (some (ok a)) k = k a
and_then (some (err e)) k = some (err e)
and_then (some panic) k = some panic

-- An entity, and the queues that all of them share.
pub record Local : Type 0 where
  pub entity : Entity
  pub ext_cmds : Ext
  pub central_ext_cmds : Central

abbrev pub after_run : Local → String → Run → Local
after_run l comp_uid r = record {
  entity = record {
    storage = r.locals.storage;
    components = l.entity.components;
    comp_state = Assoc.insert comp_uid r.locals.comp_state l.entity.comp_state;
    comp_queue = l.entity.comp_queue;
  };
  ext_cmds = r.ext_cmds;
  central_ext_cmds = r.central_ext_cmds;
}

module _ ⦃std : Std⦄ (fuel : ℕ) (model : SimModel) (ent_uid : ℕ) where
  -- One component of the queue of an event; the error is that of `execute_loc`.
  unfoldable pub step_component : Local → String → Work (Local × Option MachineError)
  unfolding execute_loc
  step_component l comp_uid = elim (Assoc.get comp_uid l.entity.comp_state) [
    | none ↦ some (ok (l, none))
    | some state ↦
        if state == "idle" then some (ok (l, none)) else elim (get_component model comp_uid) [
          | err _ ↦ some (ok (l, none))
          | panic ↦ some panic
          | ok m ↦ elim (Assoc.get state m.logic.states) [
            | none ↦ some (ok (l, none))
            | some (start, end) ↦
                and_then
                  (execute_loc fuel
                    (record {
                      cmds = m.logic.commands;
                      locations = m.logic.cmd_location_map;
                      ent_uid = ent_uid;
                      comp_uid = comp_uid;
                      sim_model = model;
                      end = some end;
                    })
                    l.entity.storage state (some start) l.ext_cmds l.central_ext_cmds)
                  (λ ending. some (ok (after_run l comp_uid ending.0, ending.1)))
          ]
        ]
  ]

  unfoldable pub step_components : List String → Local → Work (Local × Option MachineError)
  unfolding step_component
  step_components [] l = some (ok (l, none))
  step_components (c ∷ cs) l = and_then (step_component l c) (λ done. elim done.1 [
    | some e ↦ some (ok (done.0, some e))
    | none ↦ step_components cs done.0
  ])

  -- `step_entity_local`: an event for which the entity has no queue ends it.
  unfoldable pub step_entity_local : List String → Local → Work (Local × Option MachineError)
  unfolding step_components
  step_entity_local [] l = some (ok (l, none))
  step_entity_local (event ∷ events) l = elim (Assoc.get event l.entity.comp_queue) [
    | none ↦ some (ok (l, none))
    | some queue ↦ and_then (step_components queue l) (λ done. elim done.1 [
      | some e ↦ some (ok (done.0, some e))
      | none ↦ step_entity_local events done.0
    ])
  ]

module _ ⦃std : Std⦄ (fuel : ℕ) (model : SimModel) (event_queue : List String) where
  -- The local phase. What `step_entity_local` returns is not looked at.
  unfoldable pub step_entities :
      Assoc ℕ Entity → Ext → Central → Work (Assoc ℕ Entity × Ext × Central)
  unfolding step_entity_local
  step_entities [] ext central = some (ok ([], ext, central))
  step_entities ((id, ent) ∷ ents) ext central =
      and_then
        (step_entity_local fuel model id event_queue
          (record { entity = ent; ext_cmds = ext; central_ext_cmds = central }))
        (λ done.
          and_then (step_entities ents done.0.ext_cmds done.0.central_ext_cmds)
            (λ rest. some (ok ((id, done.0.entity) ∷ rest.0, rest.1, rest.2))))

abbrev pub with_step : List String → List String
with_step queue = if contains queue "step" then queue else queue ++ ("step" ∷ [])

abbrev pub ticked : {Pool : Type 0} → Sim Pool → Sim Pool
ticked sim = record {
  model = sim.model;
  clock = (sim.clock + 1) % 2 ^ 64;
  event_queue = with_step sim.event_queue;
  entities = sim.entities;
  entity_idx = sim.entity_idx;
  entity_pool = sim.entity_pool;
}

module _ ⦃std : Std⦄ {Pool : Type 0} (request_id : Pool → Option (ℕ × Pool))
    (extend : Extend → Sim Pool → ℕ → Remote Pool) where
  -- The phase after the local one: the queued commands, in their order.
  unfoldable pub post_phase : Sim Pool → Ext → Central → Result MachineError (Sim Pool)
  unfolding execute_ext execute_central_ext
  post_phase sim ext central = do
    sim' ← execute_ext ext sim
    execute_central_ext request_id extend central sim'

  -- `Sim::step`
  unfoldable pub step : ℕ → Sim Pool → Work (Sim Pool)
  unfolding step_entities post_phase
  step fuel sim =
      and_then (step_entities fuel sim.model (with_step sim.event_queue) sim.entities [] [])
        (λ done.
          and_then (some (post_phase (with_entities (with_events sim []) done.0) done.1 done.2))
            (λ sim'. some (ok (ticked sim'))))
