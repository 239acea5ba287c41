-- ===== src/Machine/Exec/Loops.antt =====
-- A for loop over many rounds.
use outcome.Prelude.{
  string_eq, pair_eq, ℕ, zero, suc, ◌+◌, ◌-◌, ◌≤◌, ◌<◌, String, false, ◌∷◌, some, length, ◌≡◌, ap,
  arith,
}
use mathlib.Core.Path.{subst}
use outcome.Prelude.Result.{ok}
use outcome.Std.{Std}
use outcome.Data.{LocalAddress, Var}
use outcome.Address.Short.{storage_index_using}
use outcome.Storage.{Storage, get_var}
use outcome.Machine.{LocationInfo, ForInCallInfo, for_in}
use outcome.Machine.Command.{Command, ForIn, continue, jump_to_line}
use outcome.Machine.Flow.{
  CallStack, execute_end, execute_for, advance, update_variable, local_address, iterations,
  next_iteration,
}
use outcome.Machine.Execute.{execute_at, from_flow}
use outcome.Machine.Exec.{Program, at_end}
use outcome.Machine.Exec.Steps.{Reaches, here, next, Reaches-trans}
use outcome.Machine.Exec.Places.{
  World, run_at, stored_in, Placed, at_end-frame, step-continue, step-jump,
}

execute_end-goes_on :
    (ci : ForInCallInfo) (stack : CallStack) (s s' : Storage) (location : LocationInfo)
    → ci.iteration < ci.target_len
    → advance ci s ≡ ok s'
    → execute_end (for_in ci ∷ stack) s location
      ≡ ok (s', for_in (next_iteration ci) ∷ stack, jump_to_line (ci.start + 1))
unfolding execute_end
execute_end-goes_on ci stack s s' location h ha = ground arith

execute_end-done :
    (ci : ForInCallInfo) (stack : CallStack) (s : Storage) (location : LocationInfo)
    → ci.target_len ≤ ci.iteration
    → execute_end (for_in ci ∷ stack) s location ≡ ok (s, stack, continue)
unfolding execute_end
execute_end-done ci stack s location h = ground arith

-- A `for` over a body that is known by what it does: `Good k` holds of the world after `k` rounds.
module _ ⦃std : Std⦄ (p : Program) (c : ForIn) (comp_target comp_variable : LocalAddress) (len : ℕ)
    (stack : CallStack) (Good : ℕ → World → Type 0) where
  abbrev pub frame : ℕ → ForInCallInfo
  frame k = record {
    target = some comp_target;
    target_len = len;
    variable = some comp_variable;
    iteration = k;
    start = c.start;
    end = c.end;
  }

  -- From the `end` on, with `todo` rounds left.
  for_rounds :
      (todo k : ℕ) (w : World)
      → Placed p c.end Command.end
      → ((k : ℕ) (w : World)
          → Good k w
          → (s : Storage) × (update_variable comp_variable comp_target k w.storage ≡ ok s)
            × Good k (stored_in w s))
      → ((k : ℕ) (w : World)
          → Good k w
          → (w' : World) × Reaches p
              (run_at (c.start + 1) (for_in (frame (k + 1)) ∷ stack) w)
              (run_at c.end (for_in (frame (k + 1)) ∷ stack) w')
            × Good (k + 1) w')
      → k + todo ≡ len
      → Good k w
      → (w' : World) × Reaches p
          (run_at c.end (for_in (frame k) ∷ stack) w)
          (run_at (c.end + 1) stack w')
        × Good len w'
  unfolding execute_at execute_end advance
  for_rounds zero k w at write body hk good =
      let e' : k ≡ len = omega arith in
      (
        w,
        next
            (step-continue p c.end Command.end at (for_in (frame k) ∷ stack) stack w w.storage
              (at_end-frame p c.end (for_in (frame k)) stack w)
              (ap (from_flow (run_at c.end (for_in (frame k) ∷ stack) w).locals)
                (execute_end-done (frame k) stack w.storage at.location (omega arith))))
            here,
        subst (λ i. Good i w) e' good,
      )
  for_rounds (suc todo) k w at write body hk good =
      let (s, hs, good_s) = write k w good in
      let (w1, reach1, good1) = body k (stored_in w s) good_s in
      let (w2, reach2, good2) = for_rounds todo (k + 1) w1 at write body (omega arith) good1 in
      (
        w2,
        next
            (step-jump p c.end Command.end at (for_in (frame k) ∷ stack)
              (for_in (frame (k + 1)) ∷ stack) w s (c.start + 1)
              (at_end-frame p c.end (for_in (frame k)) stack w)
              (ap (from_flow (run_at c.end (for_in (frame k) ∷ stack) w).locals)
                (execute_end-goes_on (frame k) stack w.storage s at.location (omega arith) hs)))
            (Reaches-trans p reach1 reach2),
        good2,
      )

execute_for-found :
    ⦃std : Std⦄ (c : ForIn) (stack : CallStack) (comp_id : String) (s s' : Storage)
    (location : LocationInfo) (v : Var)
    → get_var s (storage_index_using c.target comp_id) ≡ ok v
    → update_variable (local_address c.variable comp_id) (local_address c.target comp_id) 0 s
      ≡ ok s'
    → length stack < 32
    → execute_for c stack comp_id s location
      ≡ ok (
        s',
        for_in (record {
          target = some (local_address c.target comp_id);
          target_len = iterations v;
          variable = some (local_address c.variable comp_id);
          iteration = 1;
          start = c.start;
          end = c.end;
        })
            ∷ stack,
        continue,
      )
unfolding execute_for
execute_for-found c stack comp_id s s' location v hv hu hs = ground arith

-- A `for` over a variable that counts at least one round runs its body that many times, and then goes on
-- below its `end` with the call stack as it was. It is supposed that the loop's variables can be written
-- before each round, and that the body leads from the line below the `for` to the `end`, the loop's
-- frame on top; `Good k` is what holds of the world after `k` rounds.
pub Reaches-for :
    ⦃std : Std⦄ (p : Program) (c : ForIn) (v : Var) (stack : CallStack) (Good : ℕ → World → Type 0)
    (w : World)
    → Placed p c.start (Command.for_in c)
    → Placed p c.end Command.end
    → get_var w.storage (storage_index_using c.target p.comp_uid) ≡ ok v
    → 0 < iterations v
    → length stack < 32
    → at_end p (run_at c.start stack w) ≡ false
    → ((k : ℕ) (w : World)
        → Good k w
        → (s : Storage) × (update_variable
              (local_address c.variable p.comp_uid)
              (local_address c.target p.comp_uid)
              k
              w.storage
            ≡ ok s)
          × Good k (stored_in w s))
    → ((k : ℕ) (w : World)
        → Good k w
        → (w' : World) × Reaches p
            (run_at
              (c.start + 1)
              (for_in (
                  frame p c
                    (local_address c.target p.comp_uid)
                    (local_address c.variable p.comp_uid)
                    (iterations v)
                    stack
                    Good
                    (k + 1))
                ∷ stack)
              w)
            (run_at c.end
              (for_in (
                  frame p c
                    (local_address c.target p.comp_uid)
                    (local_address c.variable p.comp_uid)
                    (iterations v)
                    stack
                    Good
                    (k + 1))
                ∷ stack)
              w')
          × Good (k + 1) w')
    → Good 0 w
    → (w' : World) × Reaches p (run_at c.start stack w) (run_at (c.end + 1) stack w')
      × Good (iterations v) w'
unfolding execute_at
Reaches-for p c v stack Good w at at_end' hv hn hs he write body good =
    let (s, hu, good_s) = write 0 w good in
    let (w1, reach1, good1) = body 0 (stored_in w s) good_s in
    let todo : (m : ℕ) × (1 + m ≡ iterations v) = (iterations v - 1, omega arith) in
    let (w2, reach2, good2) =
      for_rounds p c _ _ (iterations v) stack Good todo.0 1 w1 at_end' write body todo.1 good1 in
    (
      w2,
      next
          (step-continue p c.start (Command.for_in c) at stack _ w s he (
            ap (from_flow (run_at c.start stack w).locals)
              (execute_for-found c stack p.comp_uid w.storage s at.location v hv hu hs)))
          (Reaches-trans p reach1 reach2),
      good2,
    )
