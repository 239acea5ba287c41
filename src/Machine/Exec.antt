-- ===== src/Machine/Exec.antt =====
-- `execute_loc` of outcome-core/src/machine/exec.rs: the run of a list of commands within one entity.
pub mod Places
pub mod Jumps
pub mod Loops
pub mod Ended
pub mod Frames
pub mod Forward
pub mod Halts
pub mod Stays
pub mod Steps
use outcome.Prelude.{
  ℕ, zero, suc, ◌+◌, ◌-◌, String, Bool, true, false, ◌&&◌, List, [], ◌∷◌, ◌++◌, Option, none, some,
  get_elem?, length, leb, string_eq, ◌==◌, if◌then◌else◌,
}
use outcome.Prelude.Result.{Result, ok, err, panic, ◌>>=◌, unwrap, ok_or}
use outcome.Std.{Std}
use outcome.Storage.{Storage}
use outcome.Model.{SimModel}
use outcome.Machine.{LocationInfo, empty_location, MachineError, other}
use outcome.Machine.Command.{
  Command, CommandResult, continue, break, jump_to_line, jump_to_tag, exec_ext, exec_central_ext,
  ExtCommand, CentralRemoteCommand,
}
use outcome.Machine.Flow.{CallStack}
use outcome.Machine.Execute.{Locals, execute}

pub record ExecutionContext : Type 0 where
  pub ent : ℕ
  pub comp : String
  pub location : LocationInfo

abbrev pub Ext : Type 0
Ext = List (ExecutionContext × ExtCommand)

abbrev pub Central : Type 0
Central = List (ExecutionContext × CentralRemoteCommand)

-- The arguments that a run does not change.
pub record Program : Type 0 where
  pub cmds : List Command
  pub locations : List LocationInfo
  pub ent_uid : ℕ
  pub comp_uid : String
  pub sim_model : SimModel
  pub end : Option ℕ

-- What a run changes: the line, the variables, and the two queues, which all the entities share.
pub record Run : Type 0 where
  pub cmd_n : ℕ
  pub locals : Locals
  pub ext_cmds : Ext
  pub central_ext_cmds : Central

-- The run goes on, or the loop is left, by an error perhaps.
pub data Next : Type 0 where
  again stop : Run → Next
  fail : Run → MachineError → Next

-- The run when the loop is left, and the error.
abbrev pub Ending : Type 0
Ending = Run × Option MachineError

abbrev pub no_location : MachineError
no_location = record { location = empty_location; kind = other "location info not found" }

abbrev pub at_line : Run → ℕ → Run
at_line r n = record {
  cmd_n = n;
  locals = r.locals;
  ext_cmds = r.ext_cmds;
  central_ext_cmds = r.central_ext_cmds;
}

abbrev pub with_locals : Run → Locals → Run
with_locals r l = record {
  cmd_n = r.cmd_n;
  locals = l;
  ext_cmds = r.ext_cmds;
  central_ext_cmds = r.central_ext_cmds;
}

-- The first line with the tag.
unfoldable pub find_tag : String → ℕ → List LocationInfo → Option ℕ
find_tag t n [] = none
find_tag t n (l ∷ ls) =
    let rest = find_tag t (suc n) ls in
    elim l.tag [ none ↦ rest | some u ↦ if u == t then some n else rest ]

module _ (p : Program) (location : LocationInfo) where
  abbrev pub context : ExecutionContext
  context = record { ent = p.ent_uid; comp = p.comp_uid; location = location }

  -- The loop over the results of a command. An error is logged, and no more.
  unfoldable pub apply_results : List CommandResult → Run → Next
  unfolding find_tag
  apply_results [] r = again (at_line r (r.cmd_n + 1))
  apply_results (continue ∷ rs) r = apply_results rs r
  apply_results (break ∷ rs) r = stop r
  apply_results (jump_to_line n ∷ rs) r = again (at_line r n)
  apply_results (jump_to_tag t ∷ rs) r = elim (find_tag t 0 p.locations) [
    | some line ↦ again (at_line r line)
    | none ↦ apply_results rs r
  ]
  apply_results (exec_ext c ∷ rs) r = apply_results rs (record {
    cmd_n = r.cmd_n;
    locals = r.locals;
    ext_cmds = r.ext_cmds ++ ((context, c) ∷ []);
    central_ext_cmds = r.central_ext_cmds;
  })
  apply_results (exec_central_ext c ∷ rs) r = apply_results rs (record {
    cmd_n = r.cmd_n;
    locals = r.locals;
    ext_cmds = r.ext_cmds;
    central_ext_cmds = r.central_ext_cmds ++ ((context, c) ∷ []);
  })
  apply_results (CommandResult.err e ∷ rs) r = apply_results rs r

abbrev pub is_empty_stack : CallStack → Bool
is_empty_stack [] = true
is_empty_stack (f ∷ fs) = false

-- The end of the state is reached: it counts only with an empty call stack.
abbrev pub at_end : Program → Run → Bool
at_end p r = elim p.end [
  | none ↦ false
  | some e ↦ is_empty_stack r.locals.call_stack && leb e r.cmd_n
]

module _ ⦃std : Std⦄ where
  -- The command of a round, and what its results do.
  unfoldable pub round : Program → Run → Command → Result MachineError Next
  unfolding execute apply_results
  round p r c = elim (get_elem? p.locations r.cmd_n) [
    | none ↦ ok (fail r no_location)
    | some location ↦ do
      done ← execute c r.locals p.comp_uid p.ent_uid p.sim_model location
      ok (apply_results p location done.1 (with_locals r done.0))
  ]

  -- One round of the loop.
  unfoldable pub step : Program → Run → Result MachineError Next
  unfolding round
  step p r = elim (get_elem? p.cmds r.cmd_n) [
    | none ↦ ok (stop r)
    | some c ↦ if at_end p r then ok (stop r) else round p r c
  ]

  -- The loop, for as many rounds as the first argument. `none`: they were too few.
  unfoldable pub run : ℕ → Program → Run → Option (Result MachineError Ending)
  unfolding step
  run zero p r = none
  run (suc fuel) p r = elim (step p r) [
    | ok next ↦ elim next [
      | again r' ↦ run fuel p r'
      | stop r' ↦ some (ok (r', none))
      | fail r' e ↦ some (ok (r', some e))
    ]
    | err e ↦ some (err e)
    | panic ↦ some panic
  ]

  -- `execute_loc`, from `start`, with an empty call stack.
  unfoldable pub execute_loc :
      ℕ
      → Program
      → Storage
      → String
      → Option ℕ
      → Ext
      → Central
      → Option (Result MachineError Ending)
  unfolding run
  execute_loc fuel p storage comp_state start ext_cmds central_ext_cmds = run fuel p (record {
    cmd_n = elim start [ none ↦ 0 | some s ↦ s ];
    locals = record { storage = storage; comp_state = comp_state; call_stack = [] };
    ext_cmds = ext_cmds;
    central_ext_cmds = central_ext_cmds;
  })
