-- ===== src/Sim/Remote.antt =====
-- The commands that an entity leaves to the whole simulation: the `execute_ext` of
-- outcome-core/src/machine/cmd/{mod,register,get_set,sim}.rs and flow/{state,component}.rs, and the runs
-- over their queues of outcome-core/src/machine/exec.rs.
use outcome.Prelude.{
  ℕ, String, Bool, true, false, List, [], ◌∷◌, ◌++◌, Option, none, some, contains, string_eq,
  nat_eq, ◌==◌, if◌then◌else◌,
}
use outcome.Prelude.Assoc
use outcome.Prelude.Result.{Result, ok, err, panic, ◌>>=◌, must}
use outcome.Data
use outcome.Data.{Var, Address}
use outcome.Std.{Std}
use outcome.Var.Convert.{coerce}
use outcome.Model.{
  SimModel, ComponentModel, LogicModel, VarModel, slice, empty_logic, default_logic, get_component,
}
use outcome.Machine.{LocationInfo, MachineError, empty_location, core_error}
use outcome.Machine.Command.{
  ExtSet, State, ComponentBlock, RegisterVar, RegisterTrigger, Extend, CentralRemoteCommand,
  ExtCommand,
}
use outcome.Machine.Exec.{Ext, Central}
use outcome.Sim.{Sim, with_model, with_events, spawn_entity, add_event, get_var, set_var}

-- The simulation as it is left, also by an error.
abbrev pub Remote : Type 0 → Type 0
Remote Pool = Sim Pool × Result MachineError (Unit {0})

-- How a queue goes on after one of its commands: an error is logged.
abbrev pub logged :
    {Pool : Type 0}
    → Remote Pool
    → (Sim Pool → Result MachineError (Sim Pool))
    → Result MachineError (Sim Pool)
logged (sim, ok x) k = k sim
logged (sim, err e) k = k sim
logged (sim, panic) k = panic

abbrev pub located_error : LocationInfo → Data.Error → MachineError
located_error location e = record { location = location; kind = core_error e }

abbrev pub with_components : SimModel → List ComponentModel → SimModel
with_components m cs = record { events = m.events; entities = m.entities; components = cs }

abbrev pub with_vars : ComponentModel → List VarModel → ComponentModel
with_vars c vars = record { name = c.name; vars = vars; triggers = c.triggers; logic = c.logic }

abbrev pub with_triggers : ComponentModel → List String → ComponentModel
with_triggers c ts = record { name = c.name; vars = c.vars; triggers = ts; logic = c.logic }

abbrev pub with_states : ComponentModel → Assoc.Assoc String (ℕ × ℕ) → ComponentModel
with_states c states = record {
  name = c.name;
  vars = c.vars;
  triggers = c.triggers;
  logic = record {
    start_state = c.logic.start_state;
    commands = c.logic.commands;
    pre_commands = c.logic.pre_commands;
    states = states;
    procedures = c.logic.procedures;
    cmd_location_map = c.logic.cmd_location_map;
  };
}

-- The change of the first component with the name, as through `get_component_mut`.
unfoldable pub update_first :
    String → (ComponentModel → ComponentModel) → List ComponentModel → List ComponentModel
update_first name f [] = []
update_first name f (c ∷ cs) =
    let rest = update_first name f cs in if c.name == name then f c ∷ cs else c ∷ rest

-- The change of every component with the name.
unfoldable pub update_all :
    String → (ComponentModel → ComponentModel) → List ComponentModel → List ComponentModel
update_all name f [] = []
update_all name f (c ∷ cs) = (if c.name == name then f c else c) ∷ update_all name f cs

unfoldable pub remove_component : String → List ComponentModel → List ComponentModel
remove_component name [] = []
remove_component name (c ∷ cs) =
    let rest = remove_component name cs in if c.name == name then cs else c ∷ rest

-- `LogicModel::get_subset`
unfoldable pub get_subset {ℓ} : {E : Type ℓ} → LogicModel → ℕ → ℕ → Result E LogicModel
unfolding slice
get_subset l start_line last_line = do
  commands ← slice l.commands start_line last_line
  locations ← slice l.cmd_location_map start_line last_line
  ok (record {
    start_state = empty_logic.start_state;
    commands = commands;
    pre_commands = [];
    states = [];
    procedures = [];
    cmd_location_map = locations;
  })

-- `ComponentBlock::execute_ext`: a component of the same name gives way.
unfoldable pub add_component : ComponentBlock → SimModel → Result MachineError SimModel
unfolding get_subset remove_component
add_component c m = do
  comp_model ← must (get_component m c.source_comp)
  logic ← get_subset comp_model.logic c.start_line c.end_line
  ok (
      with_components m (
        remove_component c.name m.components
        ++ (record { name = c.name; vars = []; triggers = []; logic = logic } ∷ [])))

-- `State::execute_ext`
unfoldable pub add_state : State → SimModel → SimModel
unfolding update_all
add_state c m = with_components m (
    update_all c.comp
      (λ k. with_states k (Assoc.insert c.name (c.start_line, c.end_line) k.logic.states))
      m.components)

-- `RegisterVar::execute_ext`
unfoldable pub add_var : RegisterVar → String → SimModel → SimModel
unfolding update_first
add_var c comp_name m =
    let name = if c.comp == "" then comp_name else c.comp in
    let var : VarModel = record {
      name = c.addr.var_name;
      type_ = c.addr.var_type;
      default = c.val;
    } in
    with_components m (update_first name (λ k. with_vars k (k.vars ++ (var ∷ []))) m.components)

-- `RegisterTrigger::execute_ext`: the component that executes it is not read.
unfoldable pub add_trigger : RegisterTrigger → SimModel → SimModel
unfolding update_first
add_trigger c m =
    with_components m
      (update_first c.comp (λ k. with_triggers k (k.triggers ++ (c.name ∷ []))) m.components)

-- `Invoke::execute_ext`
unfoldable pub invoke_all : List String → List String → List String
invoke_all [] queue = queue
invoke_all (e ∷ es) queue =
    if contains queue e then invoke_all es queue else invoke_all es (queue ++ (e ∷ []))

module _ {Pool : Type 0} (request_id : Pool → Option (ℕ × Pool))
    (extend : Extend → Sim Pool → ℕ → Remote Pool) where
  abbrev pub spawned : Sim Pool × Result Data.Error ℕ → Remote Pool
  spawned (sim, ok id) = (sim, ok tt)
  spawned (sim, err e) = (sim, err (located_error empty_location e))
  spawned (sim, panic) = (sim, panic)

  abbrev pub remodelled : Sim Pool → Result MachineError SimModel → Remote Pool
  remodelled sim (ok m) = (with_model sim m, ok tt)
  remodelled sim (err e) = (sim, err e)
  remodelled sim panic = (sim, panic)

  -- `CentralRemoteCommand::execute`. `extend` is that of `Extend`, which parses files.
  unfoldable pub execute_central : CentralRemoteCommand → Sim Pool → ℕ → String → Remote Pool
  unfolding add_component add_state add_var add_trigger invoke_all spawn_entity
  execute_central (CentralRemoteCommand.sim []) sim ent comp = (sim, panic)
  execute_central (CentralRemoteCommand.sim (arg ∷ args)) sim ent comp =
      (sim, if arg == "apply_model" then panic else ok tt)
  execute_central (CentralRemoteCommand.register_component c) sim ent comp = remodelled sim (
      ok (
        with_components sim.model (
          sim.model.components
          ++ (record {
            name = c.name;
            vars = [];
            triggers = c.trigger_events;
            logic = default_logic;
          }
              ∷ []))))
  execute_central (CentralRemoteCommand.register_entity_prefab c) sim ent comp = remodelled sim (
      ok (record {
        events = sim.model.events;
        entities = sim.model.entities ++ (record { name = c.name; components = c.components } ∷ []);
        components = sim.model.components;
      }))
  execute_central (CentralRemoteCommand.register_event name) sim ent comp =
      (add_event sim name, ok tt)
  execute_central (CentralRemoteCommand.register_trigger c) sim ent comp =
      remodelled sim (ok (add_trigger c sim.model))
  execute_central (CentralRemoteCommand.register_var c) sim ent comp =
      remodelled sim (ok (add_var c comp sim.model))
  execute_central (CentralRemoteCommand.extend c) sim ent comp = extend c sim ent
  execute_central (CentralRemoteCommand.invoke events) sim ent comp =
      (with_events sim (invoke_all events sim.event_queue), ok tt)
  execute_central (CentralRemoteCommand.spawn c) sim ent comp =
      spawned (spawn_entity request_id sim c.prefab c.spawn_id)
  execute_central (CentralRemoteCommand.state c) sim ent comp =
      remodelled sim (ok (add_state c sim.model))
  execute_central (CentralRemoteCommand.component c) sim ent comp =
      remodelled sim (add_component c sim.model)

  -- `execute_central_ext`: an error is logged, and the next command is executed.
  unfoldable pub execute_central_ext : Central → Sim Pool → Result MachineError (Sim Pool)
  unfolding execute_central
  execute_central_ext [] sim = ok sim
  execute_central_ext ((ctx, c) ∷ cs) sim =
      logged (execute_central c sim ctx.ent ctx.comp) (λ sim'. execute_central_ext cs sim')

module _ {Pool : Type 0} ⦃std : Std⦄ where
  -- The `out` of an `ExtSet` is told whether the value was set.
  unfoldable pub report : Option Address → Bool → Sim Pool → Result MachineError (Sim Pool)
  unfolding set_var coerce
  report none b sim = ok sim
  report (some out) b sim = elim (coerce (Var.bool b) out.var_type) [
    | err e ↦ err (located_error empty_location e)
    | panic ↦ panic
    | ok v ↦ elim (set_var sim out v) [
      | ok sim' ↦ ok sim'
      | err e ↦ err (located_error empty_location e)
      | panic ↦ panic
    ]
  ]

  -- After a failure, and its report.
  abbrev pub failed : Sim Pool → MachineError → Result MachineError (Sim Pool) → Remote Pool
  failed sim e (ok sim') = (sim', err e)
  failed sim e (err f) = (sim, err f)
  failed sim e panic = (sim, panic)

  -- After a success, and its report.
  abbrev pub succeeded : Sim Pool → Result MachineError (Sim Pool) → Remote Pool
  succeeded sim (ok sim') = (sim', ok tt)
  succeeded sim (err f) = (sim, err f)
  succeeded sim panic = (sim, panic)

  -- `ExtSet::execute_ext`, once the value was written.
  unfoldable pub finish_set :
      ExtSet → Sim Pool → LocationInfo → Result Data.Error (Sim Pool) → Remote Pool
  unfolding report
  finish_set c sim location (ok sim') = succeeded sim' (report c.out true sim')
  finish_set c sim location (err e) = failed sim (located_error location e) (report c.out false sim)
  finish_set c sim location panic = (sim, panic)

  -- `ExtSet::execute_ext`, once the value was read.
  unfoldable pub write_value :
      ExtSet → Sim Pool → LocationInfo → Result Data.Error Var → Remote Pool
  unfolding report set_var finish_set
  write_value c sim location (ok v) = finish_set c sim location (set_var sim c.target v)
  write_value c sim location (err e) =
      failed sim (located_error location e) (report c.out false sim)
  write_value c sim location panic = (sim, panic)

  -- `ExtSet::execute_ext`
  unfoldable pub execute_ext_set : ExtSet → Sim Pool → LocationInfo → Remote Pool
  unfolding write_value get_var
  execute_ext_set c sim location = write_value c sim location (get_var sim c.source)

  -- `exec::execute_ext`
  unfoldable pub execute_ext : Ext → Sim Pool → Result MachineError (Sim Pool)
  unfolding execute_ext_set
  execute_ext [] sim = ok sim
  execute_ext ((ctx, ExtCommand.set c) ∷ cs) sim =
      logged (execute_ext_set c sim ctx.location) (λ sim'. execute_ext cs sim')
