-- ===== src/Machine/Flow.antt =====
-- The commands that steer execution, as they run: outcome-core/src/machine/cmd/flow.
-- A call stack has its top first; it is an `ArrayVec` of 32 places, and a push on a full one panics.
pub mod Blocks
use outcome.Prelude.{
  ℕ, zero, suc, ◌+◌, ◌-◌, String, Bool, true, false, List, [], ◌∷◌, Option, none, some, length, eqb,
  ltb, leb, string_eq, pair_eq, if◌then◌else◌, ◌==◌,
}
use outcome.Prelude.Int.{ℤ, pos, as_i32, as_usize}
use outcome.Prelude.Assoc
use outcome.Prelude.Result.{Result, ok, err, panic, ◌>>=◌, must, unwrap, value?}
use outcome.Data
use outcome.Data.{Var, VarType, ShortLocalAddress, LocalAddress}
use outcome.Std.{Std}
use outcome.Address.Short.{storage_index_using}
use outcome.Address.Short
use outcome.Address.Local
use outcome.Var.Access.{set_int, as_int}
use outcome.Var.Convert.{to_bool}
use outcome.Storage.{Storage, get_var, set_var}
use outcome.Model.{SimModel, get_component}
use outcome.Machine.{
  LocationInfo, ErrorKind, MachineError, stack_empty, invalid_command_body,
  failed_getting_from_storage, ProcedureCallInfo, ForInCallInfo, LoopCallInfo, IfElseCallInfo,
  CallInfo, procedure, for_in, loop, if_else, component, no_such_procedure,
}
use outcome.Machine.Command.{
  If, Loop, ForIn, Condition, var_address, bool_value, Command, CommandResult, continue,
  jump_to_line,
}

abbrev pub CallStack : Type 0
CallStack = List CallInfo

-- What a command leaves: the storage, the call stack and the result. The error is not used: a
-- command's own error is a result, and `unwrap` panics.
abbrev pub Flow : Type 0
Flow = Result MachineError (Storage × CallStack × CommandResult)

abbrev pub push : CallInfo → CallStack → Result MachineError CallStack
push frame stack = if ltb (length stack) 32 then ok (frame ∷ stack) else panic

-- `*storage.get_var_mut(idx).unwrap()`, written with an `Int` where the variable is one
unfoldable pub write_int : Storage → Data.StorageIndex → ℤ → Result MachineError Storage
unfolding get_var set_var set_int
write_int s idx n = do
  v ← must (get_var s idx)
  elim (set_int v n) [ ok w ↦ must (set_var s idx w) | err _ ↦ ok s | panic ↦ panic ]

module _ ⦃std : Std⦄ where
  unfoldable pub evaluate : Condition → Storage → String → Result Data.Error Bool
  unfolding get_var to_bool Short.storage_index
  evaluate (var_address a) s comp_name = do
    idx ← Short.storage_index a (some comp_name)
    v ← get_var s idx
    ok (to_bool v)
  evaluate (Condition.bool_value b) s comp_name = ok b

  -- `[usize; 10]`, filled from the lines
  unfoldable pub fill : ℕ → List ℕ → Result MachineError (List ℕ)
  fill zero [] = ok []
  fill zero (l ∷ ls) = panic
  fill (suc n) [] = do rest ← fill n []; ok (0 ∷ rest)
  fill (suc n) (l ∷ ls) = do rest ← fill n ls; ok (l ∷ rest)

  -- The first `else`, or the end.
  abbrev pub next_line : If → ℕ
  next_line c = elim c.else_lines [ [] ↦ c.end | l ∷ ls ↦ l ]

  abbrev pub has_else : If → Bool
  has_else c = elim c.else_lines [ [] ↦ false | l ∷ ls ↦ true ]

  abbrev pub if_frame : If → Bool → List ℕ → CallInfo
  if_frame c passed lines = if_else (record {
    current = next_line c;
    passed = passed;
    else_line_index = 0;
    meta = record { start = c.start; end = c.end; else_lines = lines };
  })

  -- `If::execute_loc`
  unfoldable pub execute_if : If → CallStack → Storage → String → Flow
  unfolding fill evaluate
  execute_if c stack s comp_name = do
    lines ← fill 10 c.else_lines
    holds ← must (evaluate c.condition s comp_name)
    if holds
        then (do stack' ← push (if_frame c true lines) stack; ok (s, stack', continue))
        else if has_else c
        then (do
          stack' ← push (if_frame c false lines) stack
          ok (s, stack', jump_to_line (next_line c)))
        else ok (s, stack, jump_to_line (c.end + 1))

  -- `Var::Int(num) => *num as usize`, and so on
  abbrev pub iterations : Var → ℕ
  iterations (Var.int n) = as_usize n
  iterations (Var.float f) = std.float_to_size f
  iterations _ = 0

-- `Else::execute_loc`
unfoldable pub execute_else : CallStack → Storage → LocationInfo → Flow
execute_else [] s location =
    ok (s, [], CommandResult.err (record { location = location; kind = stack_empty }))
execute_else (if_else ci ∷ stack) s location =
    ok (s, if_else ci ∷ stack, if ci.passed then jump_to_line (ci.meta.end + 1) else continue)
execute_else (frame ∷ stack) s location = ok (s, frame ∷ stack, continue)

-- `Loop::execute_loc`
unfoldable pub execute_loop : Loop → CallStack → Storage → Flow
execute_loop c stack s = do
  stack' ← push (loop (record { start = c.start; end = c.end })) stack
  ok (s, stack', continue)

-- `Break::execute_loc`
unfoldable pub execute_break : CallStack → Storage → LocationInfo → Flow
execute_break [] s location =
    ok (s, [], CommandResult.err (record { location = location; kind = stack_empty }))
execute_break (loop ci ∷ stack) s location = ok (s, stack, jump_to_line ci.end)
execute_break (frame ∷ stack) s location = ok (s, frame ∷ stack, continue)

-- `Call::execute_loc`
unfoldable pub execute_call :
    String → CallStack → Storage → ℕ → SimModel → String → LocationInfo → Flow
execute_call proc_name stack s line sim_model comp_uid location = do
  comp_model ← must (get_component sim_model comp_uid)
  elim (Assoc.get proc_name comp_model.logic.procedures) [
    | none ↦ ok (
      s,
      stack,
      CommandResult.err (record { location = location; kind = no_such_procedure proc_name }),
    )
    | some (start_line, end_line) ↦ do
      stack' ←
          push
            (procedure (record { call_line = line; start_line = start_line; end_line = end_line }))
            stack
      ok (s, stack', jump_to_line (start_line + 1))
  ]

-- `ForIn::update_variable`: the target, not the variable, is written.
unfoldable pub update_variable :
    LocalAddress → LocalAddress → ℕ → Storage → Result MachineError Storage
unfolding write_int
update_variable variable target iteration s = elim variable.var_type [
  | VarType.int ↦ elim target.var_type [
    | VarType.int ↦ write_int s (Local.storage_index target) (as_i32 iteration)
    | _ ↦ panic
  ]
  | _ ↦ ok s
]

abbrev pub local_address : ShortLocalAddress → String → LocalAddress
local_address a comp_id = record {
  comp = elim a.comp [ none ↦ comp_id | some c ↦ c ];
  var_type = a.var_type;
  var_name = a.var_name;
}

-- `ForIn::execute_loc`
unfoldable pub execute_for :
    ⦃std : Std⦄ → ForIn → CallStack → String → Storage → LocationInfo → Flow
unfolding update_variable get_var
execute_for c stack comp_id s location = elim (get_var s (storage_index_using c.target comp_id)) [
  | ok v ↦ do
    s' ← update_variable (local_address c.variable comp_id) (local_address c.target comp_id) 0 s
    stack' ←
        push
          (for_in (record {
            target = some (local_address c.target comp_id);
            target_len = iterations v;
            variable = some (local_address c.variable comp_id);
            iteration = 1;
            start = c.start;
            end = c.end;
          }))
          stack
    ok (s', stack', continue)
  | err _ ↦ ok (
    s,
    stack,
    CommandResult.err (record { location = location; kind = failed_getting_from_storage c.target }),
  )
  | panic ↦ panic
]

-- What `End` does to the variables of a `for` that goes on.
unfoldable pub advance : ForInCallInfo → Storage → Result MachineError Storage
unfolding update_variable write_int
advance fici s = elim fici.target [
  | none ↦ ok s
  | some target ↦ elim fici.variable [
    | some variable ↦ update_variable variable target fici.iteration s
    | none ↦ write_int s (Local.storage_index target) (as_i32 fici.iteration)
  ]
]

abbrev pub next_iteration : ForInCallInfo → ForInCallInfo
next_iteration fici = record {
  target = fici.target;
  target_len = fici.target_len;
  variable = fici.variable;
  iteration = fici.iteration + 1;
  start = fici.start;
  end = fici.end;
}

-- `End::execute_loc`
unfoldable pub execute_end : CallStack → Storage → LocationInfo → Flow
unfolding advance
execute_end [] s location = ok (s, [], continue)
execute_end (for_in fici ∷ stack) s location =
    if ltb fici.iteration fici.target_len
    then (do
      s' ← advance fici s
      ok (s', for_in (next_iteration fici) ∷ stack, jump_to_line (fici.start + 1)))
    else ok (s, stack, continue)
execute_end (if_else ci ∷ stack) s location = ok (s, if_else ci ∷ stack, continue)
execute_end (loop ci ∷ stack) s location = ok (s, loop ci ∷ stack, jump_to_line (ci.start + 1))
execute_end (procedure pci ∷ stack) s location = do
  line ← unwrap location.line
  ok (s, stack, if eqb pci.end_line line then jump_to_line (pci.call_line + 1) else continue)
execute_end (component cci ∷ stack) s location = ok (s, stack, continue)
