-- ===== src/Machine/Execute.antt =====
-- `Command::execute` and the `execute_loc` of the commands that do not steer:
-- outcome-core/src/machine/cmd/{mod,set,range,print,eval,register}.rs and flow/{state,component,procedure}.rs.
use outcome.Prelude.{
  ℕ, ◌+◌, ◌-◌, ◌%◌, ◌^◌, String, List, [], ◌∷◌, Option, none, some, string_eq, pair_eq,
}
use outcome.Prelude.Assoc
use outcome.Prelude.Assoc.{Assoc}
use outcome.Prelude.Decimal.{show_ℕ, parse_i32}
use outcome.Prelude.Result.{Result, ok, err, panic, ◌>>=◌, must, unwrap}
use outcome.Data
use outcome.Data.{Var, VarType, Float, Vars, nil, Address, ShortLocalAddress}
use outcome.Std.{Std}
use outcome.Address.{storage_index}
use outcome.Address.Short.{storage_index_using, into_address}
use outcome.Var.Access.{as_int, set_int}
use outcome.Var.Convert.{to_float}
use outcome.Storage.{Storage, get_var, set_var}
use outcome.Storage
use outcome.Model.{SimModel}
use outcome.Machine.{LocationInfo, MachineError, CallInfo, ComponentCallInfo, component, core_error}
use outcome.Machine.Command.{
  Command, Set, Target, Source, SetIntIntAddr, Eval, JumpTarget, Range, State, ComponentBlock,
  RegisterVar, RegisterTrigger, CentralRemoteCommand, ExtCommand, CommandResult, continue, break,
  jump_to_line, jump_to_tag, exec_ext, exec_central_ext,
}
use outcome.Machine.Flow.{
  CallStack, Flow, push, execute_if, execute_else, execute_loop, execute_break, execute_call,
  execute_for, execute_end,
}

-- What a command may change: the entity's storage, the component's state, and the call stack.
pub record Locals : Type 0 where
  pub storage : Storage
  pub comp_state : String
  pub call_stack : CallStack

abbrev pub Effect : Type 0
Effect = Result MachineError (Locals × List CommandResult)

abbrev pub with_storage : Locals → Storage → Locals
with_storage l s = record { storage = s; comp_state = l.comp_state; call_stack = l.call_stack }

abbrev pub with_stack : Locals → CallStack → Locals
with_stack l stack = record { storage = l.storage; comp_state = l.comp_state; call_stack = stack }

abbrev pub with_state : Locals → String → Locals
with_state l state = record { storage = l.storage; comp_state = state; call_stack = l.call_stack }

-- The effect of a command that changes the storage and the call stack.
abbrev pub from_flow : Locals → Flow → Effect
from_flow l flow = do
  done ← flow
  ok (record { storage = done.0; comp_state = l.comp_state; call_stack = done.1 }, done.2 ∷ [])

abbrev pub var_type_of : Target → VarType
var_type_of (Target.address a) = a.var_type
var_type_of (Target.local_address a) = a.var_type

-- An address without an entity is one of the executing entity, and one without a component is one of
-- the executing component.
abbrev pub target_address : Target → ℕ → String → Address
target_address (Target.address a) ent comp_name = a
target_address (Target.local_address a) ent comp_name = record {
  entity = show_ℕ ent;
  component = elim a.comp [ none ↦ comp_name | some c ↦ c ];
  var_type = a.var_type;
  var_name = a.var_name;
}

-- `Set::execute_loc`
unfoldable pub execute_set :
    Set → Storage → ℕ → String → Result MachineError (Storage × CommandResult)
unfolding get_var set_var Storage.insert into_address show_ℕ
execute_set c s ent comp_name = elim c.source [
  | Source.local_address a ↦ do
    v ← must (get_var s (storage_index_using a comp_name))
    s' ← must (set_var s (storage_index (target_address c.target ent comp_name)) v)
    ok (s', continue)
  | Source.address a ↦ do
    out ← unwrap c.out
    out_addr ← must (into_address out (show_ℕ ent) comp_name)
    ok (
      s,
      exec_ext (
          ExtCommand.set (record {
            target = target_address c.target ent comp_name;
            source = a;
            out = some out_addr;
          })),
    )
  | Source.value v ↦ elim (set_var s (storage_index (target_address c.target ent comp_name)) v) [
    | ok s' ↦ ok (s', continue)
    | err _ ↦
        ok (Storage.insert s (storage_index (target_address c.target ent comp_name)) v, continue)
    | panic ↦ panic
  ]
]

-- `SetIntIntAddr::execute_loc`
unfoldable pub execute_set_int :
    SetIntIntAddr → Storage → Result MachineError (Storage × CommandResult)
unfolding get_var set_var as_int set_int
execute_set_int c s = do
  v ← must (get_var s c.source)
  n ← must (as_int v)
  w ← must (get_var s c.target)
  w' ← must (set_int w n)
  s' ← must (set_var s c.target w')
  ok (s', continue)

-- `Range::execute_loc`: the list that it builds is not stored.
unfoldable pub execute_range :
    Range → Storage → String → Result MachineError (Storage × CommandResult)
unfolding get_var Storage.insert parse_i32
execute_range c s comp_name = do
  start_int ← unwrap (parse_i32 c.start)
  end_int ← unwrap (parse_i32 c.end)
  elim (get_var s (comp_name, c.output.var_name)) [
    | ok _ ↦ ok (s, continue)
    | err _ ↦ ok (Storage.insert s (comp_name, c.output.var_name) (Var.list nil), continue)
    | panic ↦ panic
  ]

-- `Print::execute_loc`, less the text that it logs
unfoldable pub execute_print : Address → Storage → Result MachineError CommandResult
unfolding get_var as_int
execute_print source s = elim source.var_type [
  | VarType.string ↦ elim (get_var s (storage_index source)) [
    | ok _ ↦ ok continue
    | err _ ↦ ok break
    | panic ↦ panic
  ]
  | VarType.int ↦ do v ← must (get_var s (storage_index source)); n ← must (as_int v); ok continue
  | _ ↦ ok continue
]

module _ ⦃std : Std⦄ where
  -- The arguments of an expression, as floats: the error is that of the first one that is missing.
  unfoldable pub arguments :
      List (String × ShortLocalAddress)
      → Storage
      → String
      → Assoc String Float
      → Result Data.Error (Assoc String Float)
  unfolding get_var to_float
  arguments [] s comp_name ns = ok ns
  arguments ((name, a) ∷ rest) s comp_name ns = do
    v ← get_var s (storage_index_using a comp_name)
    arguments rest s comp_name (Assoc.insert name (to_float v) ns)

  -- `Eval::execute_loc`
  unfoldable pub execute_eval :
      Eval → Storage → String → LocationInfo → Result MachineError (Storage × CommandResult)
  unfolding arguments set_var
  execute_eval c s comp_name location = elim (arguments c.args s comp_name []) [
    | err e ↦ ok (s, CommandResult.err (record { location = location; kind = core_error e }))
    | panic ↦ panic
    | ok ns ↦ do
      val ← unwrap (c.expr ns)
      elim c.out [
        | none ↦ ok (s, continue)
        | some out ↦ do
          s' ← must (set_var s (storage_index_using out comp_name) (Var.float val))
          ok (s', continue)
      ]
  ]

-- `call_stack.iter().find_map`: the lowest frame of a component.
unfoldable pub outer_component : CallStack → Option ComponentCallInfo
outer_component [] = none
outer_component (frame ∷ stack) = elim (outer_component stack) [
  | some c ↦ some c
  | none ↦ elim frame [ component c ↦ some c | _ ↦ none ]
]

-- `a - b` on `usize`, which wraps
abbrev pub wrapping_sub : ℕ → ℕ → ℕ
wrapping_sub a b = (a + (2 ^ 64 - b)) % 2 ^ 64

-- `State::execute_loc`: within a component's block, the lines count from the block's start.
unfoldable pub located_state : State → CallStack → State
unfolding outer_component
located_state c stack = elim (outer_component stack) [
  | none ↦ c
  | some info ↦ record {
    comp = info.name;
    signature = c.signature;
    name = c.name;
    start_line = wrapping_sub c.start_line info.start_line;
    end_line = wrapping_sub c.end_line info.start_line;
    output_variable = c.output_variable;
  }
]

-- `RegisterVar::execute_loc` and `RegisterTrigger::execute_loc`
unfoldable pub located_var : RegisterVar → CallStack → RegisterVar
unfolding outer_component
located_var c stack = elim (outer_component stack) [
  | none ↦ c
  | some info ↦ record { comp = info.name; addr = c.addr; val = c.val }
]

unfoldable pub located_trigger : RegisterTrigger → CallStack → RegisterTrigger
unfolding outer_component
located_trigger c stack = elim (outer_component stack) [
  | none ↦ c
  | some info ↦ record { name = c.name; comp = info.name }
]

abbrev pub jump_result : JumpTarget → CommandResult
jump_result (JumpTarget.line n) = jump_to_line n
jump_result (JumpTarget.tag t) = jump_to_tag t

abbrev pub component_frame : ComponentBlock → CallInfo
component_frame c =
    component (record { name = c.name; start_line = c.start_line; end_line = c.end_line })

abbrev pub stored : Locals → Result MachineError (Storage × CommandResult) → Effect
stored l r = do done ← r; ok (with_storage l done.0, done.1 ∷ [])

abbrev pub central : Locals → CentralRemoteCommand → Effect
central l c = ok (l, exec_central_ext c ∷ continue ∷ [])

module _ ⦃std : Std⦄ where
  -- The `match` of `Command::execute`
  unfoldable pub execute_at : Command → Locals → String → ℕ → SimModel → LocationInfo → ℕ → Effect
  unfolding execute_set execute_set_int execute_range execute_print execute_eval located_state
      located_var located_trigger execute_if execute_else execute_loop execute_break execute_call
      execute_for execute_end
  execute_at (Command.sim args) l comp_name ent_id sim_model location line =
      ok (l, exec_central_ext (CentralRemoteCommand.sim args) ∷ [])
  execute_at (Command.print source) l comp_name ent_id sim_model location line = (do
    r ← execute_print source l.storage
    ok (l, r ∷ []))
  execute_at (Command.print_fmt fmt inserts) l comp_name ent_id sim_model location line =
      ok (l, continue ∷ [])
  execute_at (Command.set cmd) l comp_name ent_id sim_model location line =
      stored l (execute_set cmd l.storage ent_id comp_name)
  execute_at (Command.set_int_int_addr cmd) l comp_name ent_id sim_model location line =
      stored l (execute_set_int cmd l.storage)
  execute_at (Command.eval cmd) l comp_name ent_id sim_model location line =
      stored l (execute_eval cmd l.storage comp_name location)
  execute_at Command.other l comp_name ent_id sim_model location line = ok (l, continue ∷ [])
  execute_at (Command.goto target_state) l comp_name ent_id sim_model location line =
      ok (with_state l target_state, continue ∷ [])
  execute_at (Command.jump target) l comp_name ent_id sim_model location line =
      ok (l, jump_result target ∷ [])
  execute_at (Command.invoke events) l comp_name ent_id sim_model location line =
      ok (l, exec_central_ext (CentralRemoteCommand.invoke events) ∷ [])
  execute_at (Command.spawn cmd) l comp_name ent_id sim_model location line =
      ok (l, exec_central_ext (CentralRemoteCommand.spawn cmd) ∷ [])
  execute_at (Command.register_event name) l comp_name ent_id sim_model location line =
      central l (CentralRemoteCommand.register_event name)
  execute_at (Command.register_entity_prefab cmd) l comp_name ent_id sim_model location line =
      central l (CentralRemoteCommand.register_entity_prefab cmd)
  execute_at (Command.register_component cmd) l comp_name ent_id sim_model location line =
      central l (CentralRemoteCommand.register_component cmd)
  execute_at (Command.register_trigger cmd) l comp_name ent_id sim_model location line =
      central l (CentralRemoteCommand.register_trigger (located_trigger cmd l.call_stack))
  execute_at (Command.register_var cmd) l comp_name ent_id sim_model location line =
      central l (CentralRemoteCommand.register_var (located_var cmd l.call_stack))
  execute_at (Command.extend cmd) l comp_name ent_id sim_model location line =
      ok (l, exec_central_ext (CentralRemoteCommand.extend cmd) ∷ [])
  execute_at (Command.state cmd) l comp_name ent_id sim_model location line = ok (
    l,
    exec_central_ext (CentralRemoteCommand.state (located_state cmd l.call_stack))
        ∷ jump_to_line (cmd.end_line + 1)
        ∷ [],
  )
  execute_at (Command.component cmd) l comp_name ent_id sim_model location line = (do
    stack ← push (component_frame cmd) l.call_stack
    central (with_stack l stack) (CentralRemoteCommand.component cmd))
  execute_at (Command.if_ cmd) l comp_name ent_id sim_model location line =
      from_flow l (execute_if cmd l.call_stack l.storage comp_name)
  execute_at Command.else_ l comp_name ent_id sim_model location line =
      from_flow l (execute_else l.call_stack l.storage location)
  execute_at Command.end l comp_name ent_id sim_model location line =
      from_flow l (execute_end l.call_stack l.storage location)
  execute_at (Command.call name) l comp_name ent_id sim_model location line =
      from_flow l (execute_call name l.call_stack l.storage line sim_model comp_name location)
  execute_at (Command.for_in cmd) l comp_name ent_id sim_model location line =
      from_flow l (execute_for cmd l.call_stack comp_name l.storage location)
  execute_at (Command.loop cmd) l comp_name ent_id sim_model location line =
      from_flow l (execute_loop cmd l.call_stack l.storage)
  execute_at Command.break l comp_name ent_id sim_model location line =
      from_flow l (execute_break l.call_stack l.storage location)
  execute_at (Command.procedure cmd) l comp_name ent_id sim_model location line =
      ok (l, jump_to_line (cmd.end_line + 1) ∷ [])
  execute_at (Command.range cmd) l comp_name ent_id sim_model location line =
      stored l (execute_range cmd l.storage comp_name)

  -- `Command::execute`
  unfoldable pub execute : Command → Locals → String → ℕ → SimModel → LocationInfo → Effect
  unfolding execute_at
  execute c l comp_name ent_id sim_model location = do
    line ← unwrap location.line
    execute_at c l comp_name ent_id sim_model location line
