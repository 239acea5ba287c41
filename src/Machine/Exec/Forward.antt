-- ===== src/Machine/Exec/Forward.antt =====
-- Runs of commands that only go forward.
use outcome.Prelude.{
  ℕ, suc, ◌≤◌, ◌<◌, ◌≡◌, refl, String, List, [], ◌∷◌, All, length, arith, ltb, Bool-cases, inl, inr,
}
use outcome.Prelude.Result.{
  Result, ok, err, panic, ◌>>=◌, unwrap, must, Ensures, Ensures-then, Ensures->>=, Ensures-if,
}
use outcome.Std.{Std}
use outcome.Model.{SimModel}
use outcome.Storage.{Storage}
use outcome.Machine.{
  LocationInfo, MachineError, CallInfo, if_else, for_in, loop, procedure, component,
}
use outcome.Machine.Command.{Command, CommandResult, If, JumpTarget, continue, jump_to_line}
use outcome.Machine.Flow.{
  CallStack, Flow, push, evaluate, fill, execute_if, execute_break, execute_end, has_else,
  next_line,
}
use outcome.Machine.Execute.{
  Locals, with_stack, component_frame, stored, execute_print, execute_at, execute, from_flow,
}
use outcome.Machine.Exec.Stays.{
  Ahead, Stays, Stays-set, Stays-set_int, Stays-range, Stays-print, Stays-eval,
}

-- A command on a line that jumps to lines below it, if it does. The jumps of an `else`, a `call`, a loop and a
-- `for` depend on the call stack or the model.
abbrev pub GoesForward : ℕ → Command → Type 0
GoesForward n (Command.if_ c) = All (λ el. n < el) c.else_lines × (n < c.end)
GoesForward n (Command.state c) = n ≤ c.end_line
GoesForward n (Command.procedure c) = n ≤ c.end_line
GoesForward n (Command.jump (JumpTarget.line m)) = n < m
GoesForward n (Command.jump (JumpTarget.tag t)) = ⊥
GoesForward n Command.else_ = ⊥
GoesForward n (Command.call name) = ⊥
GoesForward n (Command.loop c) = ⊥
GoesForward n (Command.for_in c) = ⊥
GoesForward n c = Unit

-- The commands from a line on.
abbrev pub AllForward : ℕ → List Command → Type 0
AllForward n [] = Unit
AllForward n (c ∷ cs) = GoesForward n c × AllForward (suc n) cs

-- Such commands leave no other frames on the call stack.
abbrev pub Quiet : CallStack → Type 0
Quiet [] = Unit
Quiet (if_else ci ∷ stack) = Quiet stack
Quiet (component ci ∷ stack) = Quiet stack
Quiet (frame ∷ stack) = ⊥

abbrev pub Moves : ℕ → Locals × List CommandResult → Type 0
Moves n (l, rs) = Quiet l.call_stack × All (Ahead n) rs

abbrev Flows : ℕ → Storage × CallStack × CommandResult → Type 0
Flows n (s, stack, r) = Quiet stack × Ahead n r

Flows-push :
    (n : ℕ) (frame : CallInfo) (stack : CallStack) (s : Storage) (r : CommandResult)
    → Quiet (frame ∷ stack)
    → Ahead n r
    → Ensures (Flows n) (push frame stack >>= λ stack'. ok (s, stack', r))
Flows-push n frame stack s r q a = elim (Bool-cases (ltb (length stack) 32)) [
  | inl e ↦ rw (e) (q, a)
  | inr e ↦ rw (e) tt
]

Flows-end :
    (n : ℕ) (stack : CallStack) (s : Storage) (location : LocationInfo)
    → Quiet stack
    → Ensures (Flows n) (execute_end stack s location)
unfolding execute_end
Flows-end n [] s location q = (tt, tt)
Flows-end n (if_else ci ∷ stack) s location q = (q, tt)
Flows-end n (component ci ∷ stack) s location q = (q, tt)
Flows-end n (for_in ci ∷ stack) s location q = absurd q
Flows-end n (loop ci ∷ stack) s location q = absurd q
Flows-end n (procedure ci ∷ stack) s location q = absurd q

Flows-break :
    (n : ℕ) (stack : CallStack) (s : Storage) (location : LocationInfo)
    → Quiet stack
    → Ensures (Flows n) (execute_break stack s location)
unfolding execute_break
Flows-break n [] s location q = (tt, tt)
Flows-break n (if_else ci ∷ stack) s location q = (q, tt)
Flows-break n (component ci ∷ stack) s location q = (q, tt)
Flows-break n (for_in ci ∷ stack) s location q = absurd q
Flows-break n (loop ci ∷ stack) s location q = absurd q
Flows-break n (procedure ci ∷ stack) s location q = absurd q

-- A command that changes the storage only.
Moves-stored :
    (n : ℕ) (l : Locals) (r : Result MachineError (Storage × CommandResult))
    → Quiet l.call_stack
    → Ensures (Stays n) r
    → Ensures (Moves n) (stored l r)
Moves-stored n l (ok (s, x)) q h = (q, (h, tt))
Moves-stored n l (err e) q h = tt
Moves-stored n l panic q h = tt

Moves-flow :
    (n : ℕ) (l : Locals) (flow : Flow)
    → Ensures (Flows n) flow
    → Ensures (Moves n) (from_flow l flow)
Moves-flow n l (ok (s, stack, x)) (q, h) = (q, (h, tt))
Moves-flow n l (err e) h = tt
Moves-flow n l panic h = tt

module _ ⦃std : Std⦄ where
  next_line-ahead :
      (n : ℕ) (c : If) (lines : List ℕ)
      → c.else_lines ≡ lines
      → All (λ el. n < el) lines
      → n < c.end
      → n < next_line c
  next_line-ahead n c [] e h le = rw (e) le
  next_line-ahead n c (l ∷ ls) e (h, hs) le = rw (e) h

  Flows-if :
      (n : ℕ) (c : If) (stack : CallStack) (s : Storage) (comp : String)
      → Quiet stack
      → GoesForward n (Command.if_ c)
      → Ensures (Flows n) (execute_if c stack s comp)
  unfolding execute_if
  Flows-if n c stack s comp q (h, le) = Ensures->>= (Flows n) (fill 10 c.else_lines) _ (λ lines.
      Ensures->>= (Flows n) (must (evaluate c.condition s comp)) _ (λ holds.
        Ensures-if (Flows n) holds _ _ (Flows-push n _ stack s continue q tt) (
          Ensures-if (Flows n) (has_else c) _ _
            (Flows-push n _ stack s (jump_to_line (next_line c)) q
              (next_line-ahead n c c.else_lines refl h le))
            (q, omega (arith, le)))))

  Moves-component :
      (n : ℕ) (frame : CallInfo) (l : Locals) (rs : List CommandResult)
      → Quiet (frame ∷ l.call_stack)
      → All (Ahead n) rs
      → Ensures (Moves n) (push frame l.call_stack >>= λ stack. ok (with_stack l stack, rs))
  Moves-component n frame l rs q h = elim (Bool-cases (ltb (length l.call_stack) 32)) [
    | inl e ↦ rw (e) (q, h)
    | inr e ↦ rw (e) tt
  ]

  Moves-execute_at :
      (n : ℕ) (c : Command) (l : Locals) (comp : String) (ent : ℕ) (m : SimModel)
      (location : LocationInfo) (line : ℕ)
      → GoesForward n c
      → Quiet l.call_stack
      → Ensures (Moves n) (execute_at c l comp ent m location line)
  unfolding execute_at
  Moves-execute_at n (Command.sim args) l comp ent m location line h q = (q, (tt, tt))
  Moves-execute_at n (Command.print source) l comp ent m location line h q =
      Ensures-then (Ahead n) (Moves n) (execute_print source l.storage) _
        (Stays-print n source l.storage) (λ r a. (q, (a, tt)))
  Moves-execute_at n (Command.print_fmt fmt inserts) l comp ent m location line h q = (q, (tt, tt))
  Moves-execute_at n (Command.set cmd) l comp ent m location line h q =
      Moves-stored n l _ q (Stays-set n cmd l.storage ent comp)
  Moves-execute_at n (Command.set_int_int_addr cmd) l comp ent m location line h q =
      Moves-stored n l _ q (Stays-set_int n cmd l.storage)
  Moves-execute_at n (Command.eval cmd) l comp ent m location line h q =
      Moves-stored n l _ q (Stays-eval n cmd l.storage comp location)
  Moves-execute_at n Command.other l comp ent m location line h q = (q, (tt, tt))
  Moves-execute_at n (Command.goto target) l comp ent m location line h q = (q, (tt, tt))
  Moves-execute_at n (Command.jump (JumpTarget.line k)) l comp ent m location line h q =
      (q, (h, tt))
  Moves-execute_at n (Command.jump (JumpTarget.tag t)) l comp ent m location line h q = absurd h
  Moves-execute_at n (Command.invoke events) l comp ent m location line h q = (q, (tt, tt))
  Moves-execute_at n (Command.spawn cmd) l comp ent m location line h q = (q, (tt, tt))
  Moves-execute_at n (Command.register_event name) l comp ent m location line h q =
      (q, (tt, (tt, tt)))
  Moves-execute_at n (Command.register_entity_prefab cmd) l comp ent m location line h q =
      (q, (tt, (tt, tt)))
  Moves-execute_at n (Command.register_component cmd) l comp ent m location line h q =
      (q, (tt, (tt, tt)))
  Moves-execute_at n (Command.register_trigger cmd) l comp ent m location line h q =
      (q, (tt, (tt, tt)))
  Moves-execute_at n (Command.register_var cmd) l comp ent m location line h q = (q, (tt, (tt, tt)))
  Moves-execute_at n (Command.extend cmd) l comp ent m location line h q = (q, (tt, tt))
  Moves-execute_at n (Command.state cmd) l comp ent m location line h q =
      (q, (tt, (omega (arith, h), tt)))
  Moves-execute_at n (Command.component cmd) l comp ent m location line h q =
      Moves-component n (component_frame cmd) l _ q (tt, (tt, tt))
  Moves-execute_at n (Command.if_ cmd) l comp ent m location line h q =
      Moves-flow n l _ (Flows-if n cmd l.call_stack l.storage comp q h)
  Moves-execute_at n Command.else_ l comp ent m location line h q = absurd h
  Moves-execute_at n Command.end l comp ent m location line h q =
      Moves-flow n l _ (Flows-end n l.call_stack l.storage location q)
  Moves-execute_at n (Command.call name) l comp ent m location line h q = absurd h
  Moves-execute_at n (Command.for_in cmd) l comp ent m location line h q = absurd h
  Moves-execute_at n (Command.loop cmd) l comp ent m location line h q = absurd h
  Moves-execute_at n Command.break l comp ent m location line h q =
      Moves-flow n l _ (Flows-break n l.call_stack l.storage location q)
  Moves-execute_at n (Command.procedure cmd) l comp ent m location line h q =
      (q, (omega (arith, h), tt))
  Moves-execute_at n (Command.range cmd) l comp ent m location line h q =
      Moves-stored n l _ q (Stays-range n cmd l.storage comp)

  pub Moves-execute :
      (n : ℕ) (c : Command) (l : Locals) (comp : String) (ent : ℕ) (m : SimModel)
      (location : LocationInfo)
      → GoesForward n c
      → Quiet l.call_stack
      → Ensures (Moves n) (execute c l comp ent m location)
  unfolding execute
  Moves-execute n c l comp ent m location h q =
      Ensures->>= (Moves n) (unwrap location.line) _
        (λ line. Moves-execute_at n c l comp ent m location line h q)
