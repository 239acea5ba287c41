-- ===== src/Machine/Exec/Places.antt =====
-- Rounds whose command and location are known.
use outcome.Prelude.{
  ℕ, ◌+◌, String, false, ◌&&◌, leb, List, ◌∷◌, Option, none, some, get_elem?, ◌≡◌, refl, ◌∙◌, ap,
}
use outcome.Prelude.Result.{Result, ok, ◌>>=◌, unwrap}
use outcome.Std.{Std}
use outcome.Storage.{Storage}
use outcome.Machine.{LocationInfo, MachineError, CallInfo}
use outcome.Machine.Command.{Command, CommandResult, continue, jump_to_line}
use outcome.Machine.Flow.{CallStack}
use outcome.Machine.Execute.{Locals, execute, execute_at, from_flow}
use outcome.Machine.Exec.{
  Program, Run, Ext, Central, again, at_end, apply_results, step, is_empty_stack,
}
use outcome.Machine.Exec.Steps.{step-execute}

-- All that a run changes but the line and the call stack.
pub record World : Type 0 where
  pub storage : Storage
  pub comp_state : String
  pub ext_cmds : Ext
  pub central_ext_cmds : Central

abbrev pub run_at : ℕ → CallStack → World → Run
run_at n stack w = record {
  cmd_n = n;
  locals = record { storage = w.storage; comp_state = w.comp_state; call_stack = stack };
  ext_cmds = w.ext_cmds;
  central_ext_cmds = w.central_ext_cmds;
}

abbrev pub stored_in : World → Storage → World
stored_in w s = record {
  storage = s;
  comp_state = w.comp_state;
  ext_cmds = w.ext_cmds;
  central_ext_cmds = w.central_ext_cmds;
}

-- The command stands on the line, and its location says so.
pub record Placed (p : Program) (n : ℕ) (c : Command) : Type 0 where
  pub location : LocationInfo
  pub command : get_elem? p.cmds n ≡ some c
  pub located : get_elem? p.locations n ≡ some location
  pub line : location.line ≡ some n

open_end :
    (end : Option ℕ) (n : ℕ) (f : CallInfo) (stack : CallStack)
    → (elim end [ none ↦ false | some e ↦ is_empty_stack (f ∷ stack) && leb e n ]) ≡ false
open_end none n f stack = refl
open_end (some e) n f stack = refl

-- With a frame on the call stack, the end does not count.
pub at_end-frame :
    (p : Program) (n : ℕ) (f : CallInfo) (stack : CallStack) (w : World)
    → at_end p (run_at n (f ∷ stack) w) ≡ false
at_end-frame p n f stack w = open_end p.end n f stack

module _ ⦃std : Std⦄ (p : Program) where
  execute-Placed :
      (n : ℕ) (c : Command) (at : Placed p n c) (l : Locals)
      (x : Result MachineError (Locals × List CommandResult))
      → execute_at c l p.comp_uid p.ent_uid p.sim_model at.location n ≡ x
      → execute c l p.comp_uid p.ent_uid p.sim_model at.location ≡ x
  unfolding execute
  execute-Placed n c at l x h =
      ap
        (λ o. unwrap o >>= λ line. execute_at c l p.comp_uid p.ent_uid p.sim_model at.location line)
        at.line
      ∙ h

  -- A round of a command that changes the storage and the call stack, and goes on to the next line.
  pub step-continue :
      (n : ℕ) (c : Command) (at : Placed p n c) (stack stack' : CallStack) (w : World) (s : Storage)
      → at_end p (run_at n stack w) ≡ false
      → execute_at c (run_at n stack w).locals p.comp_uid p.ent_uid p.sim_model at.location n
        ≡ from_flow (run_at n stack w).locals (ok (s, stack', continue))
      → step p (run_at n stack w) ≡ ok (again (run_at (n + 1) stack' (stored_in w s)))
  unfolding apply_results
  step-continue n c at stack stack' w s he hx =
      step-execute p (run_at n stack w) c at.location _ _ at.command he at.located
        (execute-Placed n c at _ _ hx)

  -- A round of a command that changes the storage and the call stack, and jumps.
  pub step-jump :
      (n : ℕ) (c : Command) (at : Placed p n c) (stack stack' : CallStack) (w : World) (s : Storage)
      (m : ℕ)
      → at_end p (run_at n stack w) ≡ false
      → execute_at c (run_at n stack w).locals p.comp_uid p.ent_uid p.sim_model at.location n
        ≡ from_flow (run_at n stack w).locals (ok (s, stack', jump_to_line m))
      → step p (run_at n stack w) ≡ ok (again (run_at (m) stack' (stored_in w s)))
  unfolding apply_results
  step-jump n c at stack stack' w s m he hx =
      step-execute p (run_at n stack w) c at.location _ _ at.command he at.located
        (execute-Placed n c at _ _ hx)
