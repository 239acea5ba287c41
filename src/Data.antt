-- ===== src/Data.antt =====
-- The data that the parts of the simulation share: variable types and values (outcome-core/src/var.rs),
-- addresses (outcome-core/src/address.rs) and errors (outcome-core/src/error.rs).
-- `StringId` and its uses (`CompName`, `VarName`, …) are `String`: the feature `stack_stringid` is off,
-- so `string::new_truncate` and `string::new` return their argument.
use outcome.Prelude.{ℕ, String, Bool, Option}
use outcome.Prelude.Int.{ℤ}

pub data VarType : Type 0 where
  string int float bool byte vec2 vec3 : VarType
  string_list int_list float_list bool_list byte_list vec2_list vec3_list var_list : VarType
  string_grid int_grid float_grid bool_grid byte_grid vec2_grid vec3_grid var_grid : VarType
  map : VarType

-- An `f32`, by its bits.
pub data Float : Type 0 where
  bits : ℕ → Float

-- `Vars` is `Vec<Var>`, `Rows` is `Vec<Vec<Var>>`, and `Entries` are those of a `BTreeMap<Var, Var>`.
mutual
  pub data Var : Type 0 where
    string : String → Var
    int : ℤ → Var
    float : Float → Var
    bool : Bool → Var
    byte : ℕ → Var
    vec2 : Float → Float → Var
    vec3 : Float → Float → Float → Var
    list : Vars → Var
    grid : Rows → Var
    map : Entries → Var

  pub data Vars : Type 0 where
    nil : Vars
    cons : Var → Vars → Vars

  pub data Rows : Type 0 where
    no_rows : Rows
    row : Vars → Rows → Rows

  pub data Entries : Type 0 where
    no_entries : Entries
    entry : Var → Var → Entries → Entries

pub record ShortLocalAddress : Type 0 where
  pub comp : Option String
  pub var_type : VarType
  pub var_name : String

pub record LocalAddress : Type 0 where
  pub comp : String
  pub var_type : VarType
  pub var_name : String

pub record Address : Type 0 where
  pub entity : String
  pub component : String
  pub var_type : VarType
  pub var_name : String

pub data PartialAddress : Type 0 where
  entity_local : String → VarType → String → PartialAddress
  component_local : VarType → String → PartialAddress

abbrev pub StorageIndex : Type 0
StorageIndex = String × String

-- The errors of the modelled parts. What the code formats into a message is kept as the text or value
-- that the message is made from. `other` carries a fixed text, and `other_parse_int` is an `Other` with
-- the text of a `ParseIntError`.
pub data Error : Type 0 where
  parsing_error parse_int_error parse_float_error parse_bool_error : Error
  invalid_var_type : VarType → Error
  invalid_local_address : String → Error
  no_entity_prefab : String → Error
  no_component_model : String → Error
  failed_getting_entity_by_id : ℕ → Error
  failed_getting_entity_by_name : String → Error
  failed_getting_var_from_sim : Address → Error
  failed_getting_var_from_entity_storage : StorageIndex → Error
  failed_creating_address : String → Error
  failed_creating_var : String → Error
  other : String → Error
  other_parse_int : Error
