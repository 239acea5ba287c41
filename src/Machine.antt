-- ===== src/Machine.antt =====
-- The logic processor (outcome-core/src/machine): its data here, and its parts in the modules below.
pub mod Search
pub mod Flow
pub mod Execute
pub mod Exec
pub mod Command
use outcome.Prelude.{ℕ, String, Bool, List, Option, none}
use outcome.Data.{LocalAddress, ShortLocalAddress}
use outcome.Data

-- outcome-core/src/machine/mod.rs
pub record LocationInfo : Type 0 where
  pub root : Option String
  pub source : Option String
  pub source_line : Option ℕ
  pub line : Option ℕ
  pub tag : Option String
  pub comp_name : Option String

abbrev pub empty_location : LocationInfo
empty_location = record {
  root = none;
  source = none;
  source_line = none;
  line = none;
  tag = none;
  comp_name = none;
}

pub record CommandPrototype : Type 0 where
  pub name : Option String
  pub arguments : Option (List String)
  pub output : Option String

-- The five messages of `ErrorKind::CommandSearchFailed`, with the names that they mention.
pub data SearchFailure : Type 0 where
  no_begin_defs no_end_defs : SearchFailure
  end_not_found bad_nesting : String → SearchFailure
  no_end : List String → SearchFailure

-- outcome-core/src/machine/error.rs: the kinds that the modelled parts raise. A message is its fixed
-- text, or the error or value that it is formatted from.
pub data ErrorKind : Type 0 where
  core_error : Data.Error → ErrorKind
  command_search_failed : SearchFailure → ErrorKind
  no_command_present : ErrorKind
  unknown_command : String → ErrorKind
  invalid_command_body : String → ErrorKind
  invalid_block : SearchFailure → ErrorKind
  invalid_address : Data.Error → ErrorKind
  stack_empty : ErrorKind
  no_such_procedure : String → ErrorKind
  failed_getting_from_storage : ShortLocalAddress → ErrorKind
  initialization : String → ErrorKind
  error_processing_directive : String → ErrorKind
  other : String → ErrorKind

pub record MachineError : Type 0 where
  pub location : LocationInfo
  pub kind : ErrorKind

pub record ProcedureCallInfo : Type 0 where
  pub call_line : ℕ
  pub start_line : ℕ
  pub end_line : ℕ

pub record ForInCallInfo : Type 0 where
  pub target : Option LocalAddress
  pub target_len : ℕ
  pub variable : Option LocalAddress
  pub iteration : ℕ
  pub start : ℕ
  pub end : ℕ

pub record LoopCallInfo : Type 0 where
  pub start : ℕ
  pub end : ℕ

pub record IfElseMetaData : Type 0 where
  pub start : ℕ
  pub end : ℕ
  pub else_lines : List ℕ

pub record IfElseCallInfo : Type 0 where
  pub current : ℕ
  pub passed : Bool
  pub else_line_index : ℕ
  pub meta : IfElseMetaData

pub record ComponentCallInfo : Type 0 where
  pub name : String
  pub start_line : ℕ
  pub end_line : ℕ

pub data CallInfo : Type 0 where
  procedure : ProcedureCallInfo → CallInfo
  for_in : ForInCallInfo → CallInfo
  loop : LoopCallInfo → CallInfo
  if_else : IfElseCallInfo → CallInfo
  component : ComponentCallInfo → CallInfo
