-- ===== src/Script.antt =====
-- The preprocessor of scripts: outcome-core/src/machine/script/preprocessor.rs, and the instructions that
-- it works on (script/mod.rs). Including files and printing are left out.
pub mod Bridge
pub mod Conditionals
use outcome.Prelude.{
  String, Bool, true, false, not, ◌&&◌, List, [], ◌∷◌, Option, none, some, string_eq, ◌==◌,
  if◌then◌else◌,
}
use outcome.Prelude.Result.{Result, ok, err, panic, ◌>>=◌}
use outcome.Machine.{LocationInfo, CommandPrototype, MachineError, error_processing_directive}

pub record DirectivePrototype : Type 0 where
  pub name : Option String
  pub arguments : Option (List String)

pub data InstructionType : Type 0 where
  nothing : InstructionType
  directive : DirectivePrototype → InstructionType
  command : CommandPrototype → InstructionType

pub record Instruction : Type 0 where
  pub location : LocationInfo
  pub type_ : InstructionType

-- What an instruction is to `run_conditionals`.
pub data Kind : Type 0 where
  is_nothing is_command is_nameless is_if is_else is_endif is_other : Kind

abbrev pub directive_kind : String → Kind
directive_kind n =
    if n == "if"
    then is_if
    else if n == "else"
    then is_else
    else if n == "endif"
    then is_endif
    else is_other

abbrev pub kind : Instruction → Kind
kind i = elim i.type_ [
  | nothing ↦ is_nothing
  | command c ↦ is_command
  | directive d ↦ elim d.name [ none ↦ is_nameless | some n ↦ directive_kind n ]
]

abbrev pub fail {ℓ} : {A : Type ℓ} → Instruction → String → Result MachineError A
fail i what = err (record { location = i.location; kind = error_processing_directive what })

-- The loop of `run_conditionals`, with `inside_if_if` and `inside_if_else`.
unfoldable pub conditionals :
    Bool → Bool → List Instruction → Result MachineError (List Instruction)
conditionals in_if in_else [] = ok []
conditionals in_if in_else (i ∷ is) = elim (kind i) [
  | is_nothing ↦ conditionals in_if in_else is
  | is_command ↦ do
    rest ← conditionals in_if in_else is
    ok (if not in_if && not in_else then i ∷ rest else rest)
  | is_nameless ↦ panic
  | is_if ↦ elim in_if [
    | true ↦ fail i "nested `if` directives not supported"
    | false ↦ elim in_else [
      | true ↦ fail i "cannot place `if` inside `else` block"
      | false ↦ conditionals true false is
    ]
  ]
  | is_else ↦ elim in_if [
    | true ↦ conditionals false true is
    | false ↦ elim in_else [
      | true ↦ fail i "nested `else` directives are not allowed"
      | false ↦ fail i "`else` must be declared inside `if` block"
    ]
  ]
  | is_endif ↦ elim in_if [
    | true ↦ conditionals false in_else is
    | false ↦ elim in_else [
      | true ↦ conditionals false false is
      | false ↦ fail i "`endif` without preceding `if`"
    ]
  ]
  | is_other ↦ do rest ← conditionals in_if in_else is; ok (if in_if then rest else i ∷ rest)
]

unfoldable pub run_conditionals : List Instruction → Result MachineError (List Instruction)
unfolding conditionals
run_conditionals is = conditionals false false is

unfoldable pub eliminate_empty : List Instruction → List Instruction
eliminate_empty [] = []
eliminate_empty (i ∷ is) =
    let rest = eliminate_empty is in elim i.type_ [ nothing ↦ rest | _ ↦ i ∷ rest ]

unfoldable pub eliminate_directives : List Instruction → List Instruction
eliminate_directives [] = []
eliminate_directives (i ∷ is) =
    let rest = eliminate_directives is in elim i.type_ [ directive d ↦ rest | _ ↦ i ∷ rest ]
