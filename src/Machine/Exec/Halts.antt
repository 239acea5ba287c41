-- ===== src/Machine/Exec/Halts.antt =====
-- That runs of commands which only go forward end.
use mathlib.Core.Path.{subst}
use outcome.Prelude.{
  ℕ, zero, suc, ◌+◌, ◌<◌, ◌≡◌, refl, String, List, [], ◌∷◌, Option, none, some, All, length,
  get_elem?, arith, if◌then◌else◌,
}
use outcome.Prelude.Result.{
  Ensures-Option, Result, ok, err, panic, Ensures, Ensures-then, Ensures-if,
}
use outcome.Std.{Std}
use outcome.Storage.{Storage}
use outcome.Machine.{LocationInfo, MachineError}
use outcome.Machine.Command.{
  Command, CommandResult, continue, break, jump_to_line, jump_to_tag, exec_ext, exec_central_ext,
}
use outcome.Machine.Execute.{execute}
use outcome.Machine.Exec.{
  Program, Run, Next, again, stop, fail, Ending, Ext, Central, with_locals, at_end, apply_results,
  round, step, run, execute_loc,
}
use outcome.Machine.Exec.Stays.{Ahead}
use outcome.Machine.Exec.Forward.{GoesForward, AllForward, Quiet, Moves, Moves-execute}

get_elem-GoesForward :
    (cs : List Command) (k i : ℕ) (c : Command)
    → AllForward k cs
    → get_elem? cs i ≡ some c
    → GoesForward (k + i) c × (i < length cs)
get_elem-GoesForward [] k i c h e = absurd (ground arith)
get_elem-GoesForward (d ∷ cs) k zero c (hd, h) e = (
  subst (λ x. GoesForward (k + 0) x) (ground arith) (subst (λ n. GoesForward n d) (omega arith) hd),
  omega arith,
)
get_elem-GoesForward (d ∷ cs) k (suc i) c (hd, h) e =
    let (g, lt) = get_elem-GoesForward cs (suc k) i c h e in
    let line : suc k + i ≡ k + suc i = omega arith in
    (subst (λ n. GoesForward n c) line g, omega (arith, lt))

-- Where a round leads on, it is from a line of a command to one below it.
abbrev Lands : ℕ → ℕ → Next → Type 0
Lands size n (again r) = (n < size) × ((n < r.cmd_n) × Quiet r.locals.call_stack)
Lands size n (stop r) = Unit
Lands size n (fail r e) = Unit

module _ ⦃std : Std⦄ (p : Program) where
  apply_results-Lands :
      (location : LocationInfo) (size n : ℕ) (rs : List CommandResult) (r : Run)
      → r.cmd_n ≡ n
      → n < size
      → Quiet r.locals.call_stack
      → All (Ahead n) rs
      → Lands size n (apply_results p location rs r)
  unfolding apply_results
  apply_results-Lands location size n [] r e lt q h = (lt, (omega (arith, e), q))
  apply_results-Lands location size n (continue ∷ rs) r e lt q (h, hs) =
      apply_results-Lands location size n rs r e lt q hs
  apply_results-Lands location size n (break ∷ rs) r e lt q h = tt
  apply_results-Lands location size n (jump_to_line m ∷ rs) r e lt q (h, hs) = (lt, (h, q))
  apply_results-Lands location size n (jump_to_tag t ∷ rs) r e lt q (h, hs) = absurd h
  apply_results-Lands location size n (exec_ext c ∷ rs) r e lt q (h, hs) =
      apply_results-Lands location size n rs _ e lt q hs
  apply_results-Lands location size n (exec_central_ext c ∷ rs) r e lt q (h, hs) =
      apply_results-Lands location size n rs _ e lt q hs
  apply_results-Lands location size n (CommandResult.err x ∷ rs) r e lt q (h, hs) =
      apply_results-Lands location size n rs r e lt q hs

  round-Lands :
      (size : ℕ) (r : Run) (c : Command)
      → GoesForward r.cmd_n c
      → r.cmd_n < size
      → Quiet r.locals.call_stack
      → Ensures (Lands size r.cmd_n) (round p r c)
  unfolding round
  round-Lands size r c h lt q =
      Ensures-Option (Lands size r.cmd_n) (get_elem? p.locations r.cmd_n) _ _ tt (λ location.
        Ensures-then (Moves r.cmd_n) (Lands size r.cmd_n)
          (execute c r.locals p.comp_uid p.ent_uid p.sim_model location) _
          (Moves-execute r.cmd_n c r.locals p.comp_uid p.ent_uid p.sim_model location h q)
          (λ (l, rs) (q', ahead).
            apply_results-Lands location size r.cmd_n rs (with_locals r l) refl lt q' ahead))

  -- What a round makes of the command on its line.
  command-Lands :
      (r : Run) (command : Option Command)
      → get_elem? p.cmds r.cmd_n ≡ command
      → AllForward 0 p.cmds
      → Quiet r.locals.call_stack
      → Ensures (Lands (length p.cmds) r.cmd_n) (elim command [
        | none ↦ ok (stop r)
        | some c ↦ if at_end p r then ok (stop r) else round p r c
      ])
  command-Lands r none e h q = tt
  command-Lands r (some c) e h q =
      let (forward, lt) = get_elem-GoesForward p.cmds 0 r.cmd_n c h e in
      Ensures-if (Lands (length p.cmds) r.cmd_n) (at_end p r) _ _ tt
        (round-Lands (length p.cmds) r c (subst (λ n. GoesForward n c) (omega arith) forward) lt q)

  step-Lands :
      (r : Run)
      → AllForward 0 p.cmds
      → Quiet r.locals.call_stack
      → Ensures (Lands (length p.cmds) r.cmd_n) (step p r)
  unfolding step
  step-Lands r h q = command-Lands r (get_elem? p.cmds r.cmd_n) refl h q

  -- The rounds from a first one whose outcome is known.
  run-first :
      (fuel : ℕ) (r : Run) (x : Result MachineError Next)
      → ((r' : Run)
          → r.cmd_n < length p.cmds
          → length p.cmds < r'.cmd_n + fuel
          → Quiet r'.locals.call_stack
          → (result : Result MachineError Ending) × (run fuel p r' ≡ some result))
      → length p.cmds < r.cmd_n + suc fuel
      → step p r ≡ x
      → Ensures (Lands (length p.cmds) r.cmd_n) x
      → (result : Result MachineError Ending) × (run (suc fuel) p r ≡ some result)
  unfolding run
  run-first fuel r (ok (again r')) more lt e (in_range, (later, q)) =
      let (result, h) = more r' in_range (omega (arith, lt, later)) q in (result, rw (run, e) h)
  run-first fuel r (ok (stop r')) more lt e h = (ok (r', none), rw (run, e) refl)
  run-first fuel r (ok (fail r' x)) more lt e h = (ok (r', some x), rw (run, e) refl)
  run-first fuel r (err x) more lt e h = (err x, rw (run, e) refl)
  run-first fuel r panic more lt e h = (panic, rw (run, e) refl)

  -- Enough rounds are one more than there are commands from the line on, and one in any case.
  run-halts :
      (fuel : ℕ) (r : Run)
      → AllForward 0 p.cmds
      → Quiet r.locals.call_stack
      → length p.cmds < r.cmd_n + suc fuel
      → (result : Result MachineError Ending) × (run (suc fuel) p r ≡ some result)
  run-halts zero r h q lt =
      run-first zero r (step p r) (λ r' in_range lt' q'. absurd (omega (arith, in_range, lt))) lt
        refl (step-Lands r h q)
  run-halts (suc fuel) r h q lt =
      run-first (suc fuel) r (step p r) (λ r' in_range lt' q'. run-halts fuel r' h q' lt') lt refl
        (step-Lands r h q)

  -- Local execution ends, from any line, within as many rounds as there are commands, and one more, if the
  -- commands only go forward: an `if` has its `else` lines and its end below it, a state and a procedure do
  -- not end above their first line, a jump leads below itself and not to a tag, and there is no `else`,
  -- `call`, `loop` or `for`.
  pub execute_loc-halts :
      (storage : Storage) (comp_state : String) (start : Option ℕ) (ext_cmds : Ext)
      (central_ext_cmds : Central)
      → AllForward 0 p.cmds
      → (result : Result MachineError Ending) × (execute_loc
            (suc (length p.cmds))
            p
            storage
            comp_state
            start
            ext_cmds
            central_ext_cmds
          ≡ some result)
  unfolding execute_loc
  execute_loc-halts storage comp_state start ext_cmds central_ext_cmds h =
      run-halts (length p.cmds) _ h tt (omega arith)
