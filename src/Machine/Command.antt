-- ===== src/Machine/Command.antt =====
-- The commands of outcome-core/src/machine/cmd, and what executing one gives back (cmd/mod.rs).
use outcome.Prelude.{ℕ, String, Bool, List, Option}
use outcome.Prelude.Assoc.{Assoc}
use outcome.Data.{Var, Float, Address, ShortLocalAddress, StorageIndex}
use outcome.Machine.{LocationInfo, MachineError}

-- cmd/flow/ifelse.rs
pub data Condition : Type 0 where
  var_address : ShortLocalAddress → Condition
  bool_value : Bool → Condition

pub record If : Type 0 where
  pub condition : Condition
  pub start : ℕ
  pub end : ℕ
  pub else_lines : List ℕ

-- cmd/flow/_loop.rs
pub data BreakCondition : Type 0 where
  no_condition : BreakCondition
  bool_value : Bool → BreakCondition

pub record Loop : Type 0 where
  pub break_condition : BreakCondition
  pub start : ℕ
  pub end : ℕ

-- cmd/flow/forin.rs
pub record ForIn : Type 0 where
  pub start : ℕ
  pub end : ℕ
  pub target : ShortLocalAddress
  pub variable : ShortLocalAddress

-- cmd/flow/procedure.rs
pub record Procedure : Type 0 where
  pub name : String
  pub start_line : ℕ
  pub end_line : ℕ
  pub output_variable : Option Address

-- cmd/flow/state.rs
pub record State : Type 0 where
  pub comp : String
  pub signature : Option Address
  pub name : String
  pub start_line : ℕ
  pub end_line : ℕ
  pub output_variable : Option Address

-- cmd/flow/component.rs
pub record ComponentBlock : Type 0 where
  pub name : String
  pub source_comp : String
  pub source_file : String
  pub start_line : ℕ
  pub end_line : ℕ
  pub output_variable : Option Address

-- cmd/set.rs
pub data Target : Type 0 where
  address : Address → Target
  local_address : ShortLocalAddress → Target

pub data Source : Type 0 where
  address : Address → Source
  local_address : ShortLocalAddress → Source
  value : Var → Source

pub record Set : Type 0 where
  pub target : Target
  pub source : Source
  pub out : Option ShortLocalAddress

pub record SetIntIntAddr : Type 0 where
  pub target : StorageIndex
  pub source : StorageIndex

-- cmd/eval.rs. `expr` stands for the fields `expr` and `slab`, which the crate `fasteval` makes and
-- reads: given the arguments by name, widened to f64, the value of the expression as an f32.
pub record Eval : Type 0 where
  pub expr : Assoc String Float → Option Float
  pub args : List (String × ShortLocalAddress)
  pub out : Option ShortLocalAddress

-- cmd/get_set.rs
pub record ExtSet : Type 0 where
  pub target : Address
  pub source : Address
  pub out : Option Address

-- cmd/mod.rs
pub data JumpTarget : Type 0 where
  line : ℕ → JumpTarget
  tag : String → JumpTarget

pub record Spawn : Type 0 where
  pub prefab : Option String
  pub spawn_id : Option String
  pub out : Option ShortLocalAddress

-- cmd/range.rs
pub record Range : Type 0 where
  pub start : String
  pub end : String
  pub output : Address

-- cmd/register.rs
pub record RegisterVar : Type 0 where
  pub comp : String
  pub addr : ShortLocalAddress
  pub val : Option Var

pub record Extend : Type 0 where
  pub comp_signature : String
  pub source_files : List String
  pub location : LocationInfo

pub record RegisterEntityPrefab : Type 0 where
  pub name : String
  pub components : List String

pub record RegisterComponent : Type 0 where
  pub name : String
  pub trigger_events : List String
  pub source_comp : String
  pub start_line : ℕ
  pub end_line : ℕ

pub record RegisterTrigger : Type 0 where
  pub name : String
  pub comp : String

-- A command whose struct has one field is that field: the arguments of `sim`, the source of `Print`, the
-- events of `invoke`, the state of `goto`, the procedure of `call`, the name of `event`. `Get`,
-- `Attach` and `Detach` are `other`: no script makes them, and `execute` passes over them.
pub data Command : Type 0 where
  sim : List String → Command
  print : Address → Command
  print_fmt : String → List (ℕ × ShortLocalAddress) → Command
  set : Set → Command
  set_int_int_addr : SetIntIntAddr → Command
  eval : Eval → Command
  other : Command
  goto : String → Command
  jump : JumpTarget → Command
  invoke : List String → Command
  spawn : Spawn → Command
  register_event : String → Command
  register_entity_prefab : RegisterEntityPrefab → Command
  register_component : RegisterComponent → Command
  register_trigger : RegisterTrigger → Command
  register_var : RegisterVar → Command
  extend : Extend → Command
  state : State → Command
  component : ComponentBlock → Command
  if_ : If → Command
  else_ : Command
  end : Command
  call : String → Command
  for_in : ForIn → Command
  loop : Loop → Command
  break : Command
  procedure : Procedure → Command
  range : Range → Command

pub data CentralRemoteCommand : Type 0 where
  sim : List String → CentralRemoteCommand
  register_component : RegisterComponent → CentralRemoteCommand
  register_trigger : RegisterTrigger → CentralRemoteCommand
  register_var : RegisterVar → CentralRemoteCommand
  register_entity_prefab : RegisterEntityPrefab → CentralRemoteCommand
  register_event : String → CentralRemoteCommand
  extend : Extend → CentralRemoteCommand
  invoke : List String → CentralRemoteCommand
  spawn : Spawn → CentralRemoteCommand
  state : State → CentralRemoteCommand
  component : ComponentBlock → CentralRemoteCommand

-- The one external command that the modelled commands make.
pub data ExtCommand : Type 0 where
  set : ExtSet → ExtCommand

pub data CommandResult : Type 0 where
  continue break : CommandResult
  jump_to_line : ℕ → CommandResult
  jump_to_tag : String → CommandResult
  exec_ext : ExtCommand → CommandResult
  exec_central_ext : CentralRemoteCommand → CommandResult
  err : MachineError → CommandResult
