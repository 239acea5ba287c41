-- ===== src/Distr.antt =====
-- The distributed simulation: outcome-core/src/distr. The central authority and the nodes exchange signals;
-- how these travel is the business of whoever implements `CentralCommunication` and `NodeCommunication`.
-- Here what is sent is a list, and what is received is a list too, in the order in which it is read.
pub mod Node
pub mod Central
pub mod Union
use outcome.Prelude.{ℕ, String, List, Option}
use outcome.Model.{SimModel}
use outcome.Machine.Command.{CentralRemoteCommand}
use outcome.Machine.Exec.{ExecutionContext}

-- An entity to be spawned at a node: its id, its prefab and its name.
abbrev pub Spawning : Type 0
Spawning = ℕ × Option String × Option String

-- `Signal`. The ones that neither a step of a node nor a step of the central authority acts on are `other`.
pub data Signal : Type 0 where
  spawn_entities : List Spawning → Signal
  start_process_step : List String → Signal
  process_step_finished end_of_messages : Signal
  update_model : SimModel → Signal
  execute_central_ext_cmd : ExecutionContext × CentralRemoteCommand → Signal
  execute_central_ext_cmds : List (ExecutionContext × CentralRemoteCommand) → Signal
  other : Signal
