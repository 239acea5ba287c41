-- ===== src/Model.antt =====
-- The model of a simulation: outcome-core/src/model/mod.rs. Of `SimModel`, what running a simulation
-- reads: `scenario`, `scripts`, `data`, `data_files`, `data_imgs` and `services` are left out.
use outcome.Prelude.{
  ℕ, String, List, [], Option, length, take, drop, find, leb, ◌-◌, ◌&&◌, ◌==◌, string_eq,
  if◌then◌else◌,
}
use outcome.Prelude.Assoc.{Assoc}
use outcome.Prelude.Result.{Result, ok, panic, ok_or}
use outcome.Data.{VarType, Var, Error, no_component_model}
use outcome.Machine.{LocationInfo}
use outcome.Machine.Command.{Command, ExtCommand}

-- Of `EventModel`, the `id`.
abbrev pub EventModel : Type 0
EventModel = String

pub record EntityPrefab : Type 0 where
  pub name : String
  pub components : List String

pub record VarModel : Type 0 where
  pub name : String
  pub type_ : VarType
  pub default : Option Var

pub record LogicModel : Type 0 where
  pub start_state : String
  pub commands : List Command
  pub pre_commands : Assoc String (List ExtCommand)
  pub states : Assoc String (ℕ × ℕ)
  pub procedures : Assoc String (ℕ × ℕ)
  pub cmd_location_map : List LocationInfo

pub record ComponentModel : Type 0 where
  pub name : String
  pub vars : List VarModel
  pub triggers : List String
  pub logic : LogicModel

pub record SimModel : Type 0 where
  pub events : List EventModel
  pub entities : List EntityPrefab
  pub components : List ComponentModel

-- `LogicModel::empty`; `START_STATE_NAME` is "start" (outcome-core/src/machine/mod.rs).
abbrev pub empty_logic : LogicModel
empty_logic = record {
  start_state = "start";
  commands = [];
  pre_commands = [];
  states = [];
  procedures = [];
  cmd_location_map = [];
}

-- `LogicModel::default`, whose start state is the empty text
abbrev pub default_logic : LogicModel
default_logic = record {
  start_state = "";
  commands = [];
  pre_commands = [];
  states = [];
  procedures = [];
  cmd_location_map = [];
}

-- `xs[from..to]`
unfoldable pub slice {ℓ κ} : {E : Type ℓ} {A : Type κ} → List A → ℕ → ℕ → Result E (List A)
slice xs from to =
    if leb from to && leb to (length xs) then ok (take (to - from) (drop from xs)) else panic

abbrev pub get_entity : SimModel → String → Option EntityPrefab
get_entity m name = find (λ e. EntityPrefab.name e == name) m.entities

abbrev pub get_component : SimModel → String → Result Error ComponentModel
get_component m name =
    ok_or (no_component_model name) (find (λ c. ComponentModel.name c == name) m.components)
