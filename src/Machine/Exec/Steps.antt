-- ===== src/Machine/Exec/Steps.antt =====
-- Rounds of `execute_loc`.
use outcome.Prelude.{ℕ, suc, false, List, some, get_elem?, ◌≡◌, refl, ◌∙◌, arith}
use outcome.Prelude.Result.{Result, ok}
use outcome.Std.{Std}
use outcome.Machine.{LocationInfo, MachineError}
use outcome.Machine.Command.{Command, CommandResult}
use outcome.Machine.Execute.{Locals, execute}
use outcome.Machine.Exec.{
  Program, Run, again, Ending, with_locals, at_end, apply_results, step, run,
}

module _ ⦃std : Std⦄ (p : Program) where
  -- The rounds that lead from one state of a run to another.
  pub data Reaches : Run → Run → Type 0 where
    here : {r : Run} → Reaches r r
    next : {r r' r'' : Run} → step p r ≡ ok (again r') → Reaches r' r'' → Reaches r r''

  pub Reaches-trans : {r r' r'' : Run} → Reaches r r' → Reaches r' r'' → Reaches r r''
  Reaches-trans here k = k
  Reaches-trans (next e h) k = next e (Reaches-trans h k)

  -- A round whose command and place are known.
  pub step-execute :
      (r : Run) (c : Command) (location : LocationInfo) (l : Locals) (rs : List CommandResult)
      → get_elem? p.cmds r.cmd_n ≡ some c
      → at_end p r ≡ false
      → get_elem? p.locations r.cmd_n ≡ some location
      → execute c r.locals p.comp_uid p.ent_uid p.sim_model location ≡ ok (l, rs)
      → step p r ≡ ok (apply_results p location rs (with_locals r l))
  unfolding step
  step-execute r c location l rs hc he hl hx = ground arith

  pub run-again : (n : ℕ) (r r' : Run) → step p r ≡ ok (again r') → run (suc n) p r ≡ run n p r'
  unfolding run
  run-again n r r' h = rw (run, h) refl

  -- What a later state of a run comes to, the earlier one comes to.
  pub run-Reaches :
      {r r' : Run} (n : ℕ) (result : Result MachineError Ending)
      → Reaches r r'
      → run n p r' ≡ some result
      → (m : ℕ) × (run m p r ≡ some result)
  run-Reaches n result here h = (n, h)
  run-Reaches n result (next {r} {r'} {r''} e k) h =
      let (m, hm) = run-Reaches n result k h in (suc m, run-again m r r' e ∙ hm)
