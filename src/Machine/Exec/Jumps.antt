-- ===== src/Machine/Exec/Jumps.antt =====
-- Jumps out of the order of the lines: an else after a passed branch, a break, a call and its return.
use outcome.Prelude.{
  if◌then◌else◌, string_eq, pair_eq, ℕ, zero, suc, ◌+◌, ◌<◌, String, true, false, ◌∷◌, none, some,
  length, ◌≡◌, refl, ◌∙◌, ap, arith,
}
use outcome.Prelude.Assoc
use outcome.Prelude.Result.{ok}
use outcome.Std.{Std}
use outcome.Storage.{Storage}
use outcome.Model.{SimModel, ComponentModel, get_component}
use outcome.Machine.{
  LocationInfo, CallInfo, IfElseCallInfo, LoopCallInfo, ProcedureCallInfo, if_else, loop, procedure,
}
use outcome.Machine.Command.{Command, continue, jump_to_line}
use outcome.Machine.Flow.{CallStack, execute_else, execute_end, execute_break, execute_call}
use outcome.Machine.Execute.{execute_at, from_flow}
use outcome.Machine.Exec.{Program, at_end, run}
use outcome.Machine.Exec.Steps.{Reaches, here, next, Reaches-trans, run-again}
use outcome.Machine.Exec.Places.{World, run_at, Placed, at_end-frame, step-jump}

execute_call-found :
    (name : String) (stack : CallStack) (s : Storage) (n : ℕ) (sim_model : SimModel) (comp : String)
    (location : LocationInfo) (m : ComponentModel) (start_line end_line : ℕ)
    → get_component sim_model comp ≡ ok m
    → Assoc.get name m.logic.procedures ≡ some (start_line, end_line)
    → length stack < 32
    → execute_call name stack s n sim_model comp location
      ≡ ok (
        s,
        procedure (record { call_line = n; start_line = start_line; end_line = end_line }) ∷ stack,
        jump_to_line (start_line + 1),
      )
unfolding execute_call
execute_call-found name stack s n sim_model comp location m start_line end_line hm hp hs =
    ground arith

execute_end-procedure :
    (ci : ProcedureCallInfo) (stack : CallStack) (s : Storage) (location : LocationInfo)
    → location.line ≡ some ci.end_line
    → execute_end (procedure ci ∷ stack) s location ≡ ok (s, stack, jump_to_line (ci.call_line + 1))
unfolding execute_end
execute_end-procedure ci stack s location h = ground arith

module _ ⦃std : Std⦄ (p : Program) where
  -- An `else` on the line below the end of the `if` whose frame is on top jumps to itself, so the run has
  -- no end, however many rounds it is given.
  pub run-else_forever :
      (ci : IfElseCallInfo) (stack : CallStack) (w : World) (fuel : ℕ)
      → Placed p (ci.meta.end + 1) Command.else_
      → ci.passed ≡ true
      → run fuel p (run_at (ci.meta.end + 1) (if_else ci ∷ stack) w) ≡ none
  unfolding run execute_at execute_else
  run-else_forever ci stack w zero at h = refl
  run-else_forever ci stack w (suc fuel) at h =
      run-again p fuel _ _ (
        step-jump p (ci.meta.end + 1) Command.else_ at (if_else ci ∷ stack) (if_else ci ∷ stack) w
          w.storage (ci.meta.end + 1) (at_end-frame p (ci.meta.end + 1) (if_else ci) stack w)
          (ap
            (λ b. from_flow (run_at (ci.meta.end + 1) (if_else ci ∷ stack) w).locals (
              ok (
                w.storage,
                if_else ci ∷ stack,
                if b then jump_to_line (ci.meta.end + 1) else continue,
              )))
            h))
      ∙ run-else_forever ci stack w fuel at h

  -- A `break`, with the frames of an inner and an outer loop on top, starts the outer loop again: it jumps
  -- to the inner loop's `end`, which then acts for the outer loop.
  pub Reaches-break :
      (inner outer : LoopCallInfo) (stack : CallStack) (w : World) (n : ℕ)
      → Placed p n Command.break
      → Placed p inner.end Command.end
      → Reaches p
          (run_at n (loop inner ∷ loop outer ∷ stack) w)
          (run_at (outer.start + 1) (loop outer ∷ stack) w)
  unfolding execute_at execute_break execute_end
  Reaches-break inner outer stack w n at_break at_end' =
      next
        (step-jump p n Command.break at_break _ (loop outer ∷ stack) w w.storage inner.end
          (at_end-frame p n (loop inner) (loop outer ∷ stack) w) refl)
        (next
          (step-jump p inner.end Command.end at_end' _ (loop outer ∷ stack) w w.storage
            (outer.start + 1) (at_end-frame p inner.end (loop outer) stack w) refl)
          here)

  -- A call of a procedure, where the body leads from the line below the procedure's first to its `end`
  -- with the frame of the call on top, comes back to the line below the call with the call stack as it was.
  pub Reaches-call :
      (name : String) (n start_line end_line : ℕ) (m : ComponentModel) (stack : CallStack)
      (w w' : World)
      → (at : Placed p n (Command.call name)) → Placed p end_line Command.end
      → get_component p.sim_model p.comp_uid ≡ ok m
      → Assoc.get name m.logic.procedures ≡ some (start_line, end_line)
      → length stack < 32
      → at_end p (run_at n stack w) ≡ false
      → Reaches p
          (run_at
            (start_line + 1)
            (procedure (record { call_line = n; start_line = start_line; end_line = end_line })
              ∷ stack)
            w)
          (run_at end_line
            (procedure (record { call_line = n; start_line = start_line; end_line = end_line })
              ∷ stack)
            w')
      → Reaches p (run_at n stack w) (run_at (n + 1) stack w')
  unfolding execute_at execute_call execute_end
  Reaches-call name n start_line end_line m stack w w' at at_end' hm hp hs he body =
      let call_info : ProcedureCallInfo = record {
        call_line = n;
        start_line = start_line;
        end_line = end_line;
      } in
      let frame : CallInfo = procedure call_info in
      next
        (step-jump p n (Command.call name) at stack (frame ∷ stack) w w.storage (start_line + 1) he
          (ap (from_flow (run_at n stack w).locals) (
            execute_call-found name stack w.storage n p.sim_model p.comp_uid at.location m
              start_line end_line hm hp hs)))
        (Reaches-trans p body (
          next
            (step-jump p end_line Command.end at_end' (frame ∷ stack) stack w' w'.storage (n + 1)
              (at_end-frame p end_line frame stack w')
              (ap (from_flow (run_at end_line (frame ∷ stack) w').locals)
                (execute_end-procedure call_info stack w'.storage at_end'.location at_end'.line)))
            here))
