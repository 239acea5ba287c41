-- ===== src/Machine/Flow/Blocks.antt =====
-- How the block commands are made: each `new` of outcome-core/src/machine/cmd/flow looks for the end of
-- its block, with its own lists of names.
use Prim.Native.String
use outcome.Prelude.{
  ℕ, ◌+◌, String, true, false, List, [], ◌∷◌, ◌++◌, none, some, get_elem?, ltb, ◌==◌, string_eq,
  if◌then◌else◌,
}
use outcome.Prelude.Text.{has_char}
use outcome.Prelude.Result.{Result, ok, err, panic, ◌>>=◌, must, unwrap}
use outcome.Data.{ShortLocalAddress}
use outcome.Address.Short
use outcome.Machine.{
  LocationInfo, CommandPrototype, MachineError, invalid_command_body, invalid_block,
  invalid_address,
}
use outcome.Machine.Search.{Defs, command_search}
use outcome.Machine.Command.{
  Condition, var_address, BreakCondition, no_condition, If, Loop, ForIn, Procedure, State,
  ComponentBlock,
}

abbrev pub if_names : List String
if_names = "if" ∷ []

abbrev pub else_names : List String
else_names = "else" ∷ "else_if" ∷ []

abbrev pub end_names : List String
end_names = "end" ∷ []

abbrev pub loop_names : List String
loop_names = "loop" ∷ "while" ∷ []

abbrev pub for_names : List String
for_names = "for" ∷ []

abbrev pub procedure_names : List String
procedure_names = "proc" ∷ "procedure" ∷ []

abbrev pub state_names : List String
state_names = "state" ∷ []

abbrev pub component_names : List String
component_names = "component" ∷ []

abbrev pub fail {ℓ} : {A : Type ℓ} → LocationInfo → String → Result MachineError A
fail location what = err (record { location = location; kind = invalid_command_body what })

-- The search from the line below, and what each `new` makes of its answer.
unfoldable pub find_block :
    LocationInfo
    → List CommandPrototype
    → ℕ
    → Defs
    → List String
    → String
    → Result MachineError (ℕ × List ℕ)
unfolding command_search
find_block location commands line defs opens not_found =
    elim (command_search defs (record { opens = opens; closes = end_names }) (line + 1) true
      commands) [
        | ok (some positions) ↦ ok positions
        | ok none ↦ fail location not_found
        | err failure ↦ err (record { location = location; kind = invalid_block failure })
        | panic ↦ panic
      ]

abbrev pub block_of : List String → List String → Defs
block_of begins middles = record { begins = begins; middles = middles; ends = end_names }

unfoldable pub condition_of : String → Result MachineError Condition
unfolding has_char Short.from_str
condition_of arg =
    if has_char b':' arg
    then (do a ← must (Short.from_str arg); ok (var_address a))
    else ok (Condition.bool_value (arg == "true"))

-- `If::new`
unfoldable pub new_if : List String → LocationInfo → List CommandPrototype → Result MachineError If
unfolding find_block condition_of
new_if [] location commands = fail location "no arguments provided"
new_if (arg ∷ args) location commands = do
  line ← unwrap location.line
  positions ←
      find_block location commands line (block_of if_names else_names)
        (procedure_names ++ for_names) "end of if/else block not found."
  condition ← condition_of arg
  ok (record { condition = condition; start = line; end = positions.0; else_lines = positions.1 })

unfoldable pub break_condition_of : List String → Result MachineError BreakCondition
break_condition_of [] = ok no_condition
break_condition_of (arg ∷ args) =
    if arg == "true"
    then ok (BreakCondition.bool_value true)
    else if arg == "false"
    then ok (BreakCondition.bool_value false)
    else panic

-- `Loop::new`
unfoldable pub new_loop :
    List String → LocationInfo → List CommandPrototype → Result MachineError Loop
unfolding find_block break_condition_of
new_loop args location commands = do
  line ← unwrap location.line
  positions ←
      find_block location commands line (block_of loop_names []) (procedure_names ++ for_names)
        "end of if/else block not found."
  condition ← break_condition_of args
  ok (record { break_condition = condition; start = line; end = positions.0 })

-- `parse().unwrap()` into a `ShortString`, which holds 23 bytes
unfoldable pub short_string : String → Result MachineError String
short_string s = if ltb 23 (String.len s) then panic else ok s

-- `Procedure::new`
unfoldable pub new_procedure :
    List String → LocationInfo → List CommandPrototype → Result MachineError Procedure
unfolding find_block short_string
new_procedure args location commands = do
  line ← unwrap location.line
  positions ←
      find_block location commands line (block_of procedure_names [])
        (if_names ++ (else_names ++ (for_names ++ state_names))) "End of procedure block not found"
  name ← (unwrap (get_elem? args 0) >>= short_string)
  ok (record { name = name; start_line = line; end_line = positions.0; output_variable = none })

-- `State::new`
unfoldable pub new_state :
    List String → LocationInfo → List CommandPrototype → Result MachineError State
unfolding find_block
new_state args location commands = do
  line ← unwrap location.line
  positions ←
      find_block location commands line (block_of state_names [])
        (if_names ++ (else_names ++ (for_names ++ (procedure_names ++ component_names))))
        "end of state block not found"
  name ← unwrap (get_elem? args 0)
  ok (record {
    comp = "";
    signature = none;
    name = name;
    start_line = line + 1;
    end_line = positions.0;
    output_variable = none;
  })

-- `ComponentBlock::new`
unfoldable pub new_component :
    List String → LocationInfo → List CommandPrototype → Result MachineError ComponentBlock
unfolding find_block
new_component args location commands = do
  line ← unwrap location.line
  positions ←
      find_block location commands line (block_of component_names [])
        (if_names ++ (else_names ++ (for_names ++ (procedure_names ++ state_names))))
        "end of component block not found"
  name ← unwrap (get_elem? args 0)
  source_comp ← unwrap location.comp_name
  source_file ← unwrap location.source
  ok (record {
    name = name;
    source_comp = source_comp;
    source_file = source_file;
    start_line = line + 1;
    end_line = positions.0;
    output_variable = none;
  })

abbrev pub address_at : LocationInfo → String → Result MachineError ShortLocalAddress
address_at location arg = elim (Short.from_str arg) [
  | ok a ↦ ok a
  | err e ↦ err (record { location = location; kind = invalid_address e })
  | panic ↦ panic
]

-- `ForIn::new`. `no_arguments` is `format_err_no_arguments`, which reads the source file.
unfoldable pub new_for :
    (LocationInfo → Result MachineError String)
    → List String
    → LocationInfo
    → List CommandPrototype
    → Result MachineError ForIn
unfolding find_block Short.from_str
new_for no_arguments args location commands = do
  line ← unwrap location.line
  variable ← elim (get_elem? args 0) [
    | some arg ↦ address_at location arg
    | none ↦ (do text ← no_arguments location; fail location text)
  ]
  target ← elim (get_elem? args 2) [
    | some arg ↦ address_at location arg
    | none ↦ fail location "too few arguments?"
  ]
  positions ←
      find_block location commands line (block_of for_names [])
        (if_names ++ (else_names ++ (for_names ++ procedure_names))) "End of forin block not found."
  ok (record { start = line; end = positions.0; target = target; variable = variable })
