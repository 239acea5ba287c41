-- ===== src/Distr/Central/Mirror.antt =====
-- The central authority beside a local simulation.
use outcome.Prelude.{
  ℕ, List, [], ◌∷◌, Option, string_eq, nat_eq, ◌≡◌, refl, sym, ap, All, ◌⊎◌, inl, inr,
}
use mathlib.Core.Path.{subst}
use outcome.Prelude.Assoc
use outcome.Prelude.Assoc.{keys, get-insert_self}
use outcome.Prelude.Result.{Result, ok, err, panic}
use outcome.Model.{SimModel, ComponentModel, get_component}
use outcome.Machine.{MachineError}
use outcome.Data.{Error}
use outcome.Distr.{Spawning}
use outcome.Machine.Command.{CentralRemoteCommand, Extend, RegisterTrigger}
use outcome.Machine.Exec.{ExecutionContext, Central}
use outcome.Sim.{Sim}
use outcome.Sim.Remote.{
  Remote, execute_central, execute_central_ext, remodelled, logged, add_component, add_trigger,
}
use outcome.Distr.Central.{SimCentral}
use outcome.Distr.Central.Commands
use outcome.Distr.Central.Commands.{execute_distr, execute_all}

-- What the central authority has and a simulation does not.
pub record Rest : Type 0 where
  pub clock : ℕ
  pub node_entities : Assoc.Assoc ℕ (List ℕ)
  pub ent_spawn_queue : Assoc.Assoc ℕ (List Spawning)

-- The central authority that knows what the simulation knows, but for the entities.
abbrev pub mirror : {Pool : Type 0} → Sim Pool → Rest → SimCentral Pool
mirror sim rest = record {
  model = sim.model;
  clock = rest.clock;
  event_queue = sim.event_queue;
  node_entities = rest.node_entities;
  entities_idx = sim.entity_idx;
  entity_idpool = sim.entity_pool;
  ent_spawn_queue = rest.ent_spawn_queue;
}

-- A command that changes the model or the event queue.
abbrev pub Remodels : ExecutionContext × CentralRemoteCommand → Type 0
Remodels (ctx, CentralRemoteCommand.sim args) = ⊥
Remodels (ctx, CentralRemoteCommand.extend e) = ⊥
Remodels (ctx, CentralRemoteCommand.spawn s) = ⊥
Remodels (ctx, CentralRemoteCommand.register_component r) = Unit
Remodels (ctx, CentralRemoteCommand.register_entity_prefab r) = Unit
Remodels (ctx, CentralRemoteCommand.register_event name) = Unit
Remodels (ctx, CentralRemoteCommand.register_trigger r) = Unit
Remodels (ctx, CentralRemoteCommand.register_var r) = Unit
Remodels (ctx, CentralRemoteCommand.invoke events) = Unit
Remodels (ctx, CentralRemoteCommand.state s) = Unit
Remodels (ctx, CentralRemoteCommand.component b) = Unit

module _ {Pool : Type 0} (request_id : Pool → Option (ℕ × Pool)) (shuffle : List ℕ → List ℕ)
    (extend : Extend → Sim Pool → ℕ → Remote Pool) (rest : Rest) where
  -- The central authority panics, or does what the simulation does.
  abbrev Alike : SimCentral Pool × Result MachineError (Unit {0}) → Remote Pool → Type 0
  Alike there here = (there.1 ≡ panic) ⊎ (there ≡ (mirror here.0 rest, here.1))

  remodelled-Alike :
      (sim : Sim Pool) (r : Result MachineError SimModel)
      → Alike (Commands.remodelled (mirror sim rest) r) (remodelled request_id extend sim r)
  remodelled-Alike sim (ok m) = inr refl
  remodelled-Alike sim (err e) = inr refl
  remodelled-Alike sim panic = inr refl

  trigger-Alike :
      (sim : Sim Pool) (r : RegisterTrigger) (found : Result Error ComponentModel)
      → Alike
          (elim found [
            | ok m ↦ Commands.remodelled (mirror sim rest) (ok (add_trigger r sim.model))
            | err e ↦ (mirror sim rest, panic)
            | panic ↦ (mirror sim rest, panic)
          ])
          (remodelled request_id extend sim (ok (add_trigger r sim.model)))
  trigger-Alike sim r (ok m) = inr refl
  trigger-Alike sim r (err e) = inl refl
  trigger-Alike sim r panic = inl refl

  execute-Alike :
      (ctx : ExecutionContext) (cmd : CentralRemoteCommand) (sim : Sim Pool)
      → Remodels (ctx, cmd)
      → Alike
          (execute_distr request_id shuffle cmd (mirror sim rest) ctx.comp)
          (execute_central request_id extend cmd sim ctx.ent ctx.comp)
  unfolding execute_distr execute_central
  execute-Alike ctx (CentralRemoteCommand.sim args) sim h = absurd h
  execute-Alike ctx (CentralRemoteCommand.extend e) sim h = absurd h
  execute-Alike ctx (CentralRemoteCommand.spawn s) sim h = absurd h
  execute-Alike ctx (CentralRemoteCommand.register_component r) sim h = inr refl
  execute-Alike ctx (CentralRemoteCommand.register_entity_prefab r) sim h = inr refl
  execute-Alike ctx (CentralRemoteCommand.register_event name) sim h = inr refl
  execute-Alike ctx (CentralRemoteCommand.register_trigger r) sim h =
      trigger-Alike sim r (get_component sim.model r.comp)
  execute-Alike ctx (CentralRemoteCommand.register_var r) sim h = inr refl
  execute-Alike ctx (CentralRemoteCommand.invoke events) sim h = inr refl
  execute-Alike ctx (CentralRemoteCommand.state s) sim h = inr refl
  execute-Alike ctx (CentralRemoteCommand.component b) sim h =
      remodelled-Alike sim (add_component b sim.model)

  -- The runs over a queue of commands.
  abbrev pub Same : Result Error (SimCentral Pool) → Result MachineError (Sim Pool) → Type 0
  Same there here =
      (there ≡ panic) ⊎ ((sim : Sim Pool) × (here ≡ ok sim) × (there ≡ ok (mirror sim rest)))

  -- How the central authority goes on.
  abbrev go_on :
      Central → SimCentral Pool × Result MachineError (Unit {0}) → Result Error (SimCentral Pool)
  go_on cmds there = elim there.1 [
    | ok _ ↦ execute_all request_id shuffle cmds there.0
    | err e ↦ execute_all request_id shuffle cmds there.0
    | panic ↦ panic
  ]

  then-Alike :
      (cmds : Central) (there : SimCentral Pool × Result MachineError (Unit {0}))
      (here : Remote Pool)
      → Alike there here
      → ((sim : Sim Pool)
          → Same
              (execute_all request_id shuffle cmds (mirror sim rest))
              (execute_central_ext request_id extend cmds sim))
      → Same
          (go_on cmds there)
          (logged here (λ sim'. execute_central_ext request_id extend cmds sim'))
  then-Alike cmds (c, r) (sim, here) (inl e) later = inl (rw e refl)
  then-Alike cmds (c, r) (sim, ok u) (inr e) later =
      subst (λ t. Same (go_on cmds t) (execute_central_ext request_id extend cmds sim)) (sym e)
        (later sim)
  then-Alike cmds (c, r) (sim, err f) (inr e) later =
      subst (λ t. Same (go_on cmds t) (execute_central_ext request_id extend cmds sim)) (sym e)
        (later sim)
  then-Alike cmds (c, r) (sim, panic) (inr e) later = inl (ap (go_on cmds) e)

  -- The central authority runs a queue of commands that change the model or the event queue as a local
  -- simulation does: it panics, or the simulation ends without a panic and the central authority again knows
  -- what the simulation knows, the entities apart.
  pub execute_all-mirror :
      (cmds : Central) (sim : Sim Pool)
      → All Remodels cmds
      → (execute_all request_id shuffle cmds (mirror sim rest) ≡ panic)
        ⊎ ((sim' : Sim Pool) × (execute_central_ext request_id extend cmds sim ≡ ok sim')
            × (execute_all request_id shuffle cmds (mirror sim rest) ≡ ok (mirror sim' rest)))
  unfolding execute_all execute_central_ext
  execute_all-mirror [] sim h = inr (sim, refl, refl)
  execute_all-mirror ((ctx, cmd) ∷ cmds) sim (hc, h) =
      then-Alike cmds (execute_distr request_id shuffle cmd (mirror sim rest) ctx.comp)
        (execute_central request_id extend cmd sim ctx.ent ctx.comp) (execute-Alike ctx cmd sim hc)
        (λ sim'. execute_all-mirror cmds sim' h)
