-- ===== src/Machine/Exec/Frames.antt =====
-- The frame that an `if` leaves on the call stack.
use outcome.Prelude.{
  ℕ, String, Bool, true, false, [], ◌∷◌, ◌≡◌, refl, Bool-cases, inl, inr, ltb, length, string_eq,
}
use outcome.Prelude.Result.{
  ok, ◌>>=◌, unwrap, must, Ensures, Ensures->>=, Ensures-if, Ensures-Option, Ensures-Result,
}
use outcome.Std.{Std}
use outcome.Prelude.Assoc
use outcome.Address.Short.{storage_index_using}
use outcome.Model.{SimModel, get_component}
use outcome.Storage.{Storage, get_var}
use outcome.Machine.{LocationInfo, CallInfo, if_else, for_in, loop, procedure, component}
use outcome.Machine.Command.{CommandResult, If, Loop, ForIn}
use outcome.Machine.Flow.{
  CallStack, Flow, push, evaluate, fill, advance, update_variable, execute_if, execute_else,
  execute_loop, execute_break, execute_call, execute_for, execute_end, has_else, local_address,
}

-- An `if` that was taken, or that has an `else`, has left its frame.
abbrev pub has_if : CallStack → Bool
has_if [] = false
has_if (if_else ci ∷ stack) = true
has_if (frame ∷ stack) = has_if stack

-- The stack that a flow command leaves, where it leaves one, has a frame of an `if`.
abbrev pub KeepsIf : Storage × CallStack × CommandResult → Type 0
KeepsIf (s, stack, r) = has_if stack ≡ true

abbrev pub LeavesIf : Flow → Type 0
LeavesIf = Ensures KeepsIf

pub has_if-cons :
    (frame : CallInfo) (stack : CallStack) → has_if stack ≡ true → has_if (frame ∷ stack) ≡ true
has_if-cons (procedure ci) stack h = h
has_if-cons (for_in ci) stack h = h
has_if-cons (loop ci) stack h = h
has_if-cons (if_else ci) stack h = refl
has_if-cons (component ci) stack h = h

pub LeavesIf-push :
    (frame : CallInfo) (stack : CallStack) (s : Storage) (r : CommandResult)
    → has_if stack ≡ true
    → LeavesIf (push frame stack >>= λ stack'. ok (s, stack', r))
LeavesIf-push frame stack s r h = elim (Bool-cases (ltb (length stack) 32)) [
  | inl e ↦ rw (e) (has_if-cons frame stack h)
  | inr e ↦ rw (e) tt
]

pub LeavesIf-end :
    (stack : CallStack) (s : Storage) (location : LocationInfo)
    → has_if stack ≡ true
    → LeavesIf (execute_end stack s location)
unfolding execute_end
LeavesIf-end [] s location h = h
LeavesIf-end (for_in ci ∷ stack) s location h =
    Ensures-if KeepsIf (ltb ci.iteration ci.target_len) _ _
      (Ensures->>= KeepsIf (advance ci s) _ (λ s'. h)) h
LeavesIf-end (if_else ci ∷ stack) s location h = refl
LeavesIf-end (loop ci ∷ stack) s location h = h
LeavesIf-end (procedure ci ∷ stack) s location h =
    Ensures->>= KeepsIf (unwrap location.line) _ (λ line. h)
LeavesIf-end (component ci ∷ stack) s location h = h

pub LeavesIf-else :
    (stack : CallStack) (s : Storage) (location : LocationInfo)
    → has_if stack ≡ true
    → LeavesIf (execute_else stack s location)
unfolding execute_else
LeavesIf-else [] s location h = h
LeavesIf-else (for_in ci ∷ stack) s location h = h
LeavesIf-else (if_else ci ∷ stack) s location h = refl
LeavesIf-else (loop ci ∷ stack) s location h = h
LeavesIf-else (procedure ci ∷ stack) s location h = h
LeavesIf-else (component ci ∷ stack) s location h = h

pub LeavesIf-break :
    (stack : CallStack) (s : Storage) (location : LocationInfo)
    → has_if stack ≡ true
    → LeavesIf (execute_break stack s location)
unfolding execute_break
LeavesIf-break [] s location h = h
LeavesIf-break (for_in ci ∷ stack) s location h = h
LeavesIf-break (if_else ci ∷ stack) s location h = refl
LeavesIf-break (loop ci ∷ stack) s location h = h
LeavesIf-break (procedure ci ∷ stack) s location h = h
LeavesIf-break (component ci ∷ stack) s location h = h

pub LeavesIf-loop :
    (c : Loop) (stack : CallStack) (s : Storage)
    → has_if stack ≡ true
    → LeavesIf (execute_loop c stack s)
unfolding execute_loop
LeavesIf-loop c stack s h = LeavesIf-push _ stack s _ h

pub LeavesIf-call :
    (name : String) (stack : CallStack) (s : Storage) (line : ℕ) (m : SimModel) (comp : String)
    (location : LocationInfo)
    → has_if stack ≡ true
    → LeavesIf (execute_call name stack s line m comp location)
unfolding execute_call
LeavesIf-call name stack s line m comp location h =
    Ensures->>= KeepsIf (must (get_component m comp)) _ (λ model.
      Ensures-Option KeepsIf (Assoc.get name model.logic.procedures) _ _ h
        (λ lines. LeavesIf-push _ stack s _ h))

module _ ⦃std : Std⦄ where
  pub LeavesIf-if :
      (c : If) (stack : CallStack) (s : Storage) (comp : String)
      → has_if stack ≡ true
      → LeavesIf (execute_if c stack s comp)
  unfolding execute_if
  LeavesIf-if c stack s comp h = Ensures->>= KeepsIf (fill 10 c.else_lines) _ (λ lines.
      Ensures->>= KeepsIf (must (evaluate c.condition s comp)) _ (λ holds.
        Ensures-if KeepsIf holds _ _ (LeavesIf-push _ stack s _ h)
          (Ensures-if KeepsIf (has_else c) _ _ (LeavesIf-push _ stack s _ h) h)))

  pub LeavesIf-for :
      (c : ForIn) (stack : CallStack) (comp : String) (s : Storage) (location : LocationInfo)
      → has_if stack ≡ true
      → LeavesIf (execute_for c stack comp s location)
  unfolding execute_for
  LeavesIf-for c stack comp s location h =
      Ensures-Result KeepsIf (get_var s (storage_index_using c.target comp)) _ _
        (λ v.
          Ensures->>= KeepsIf
            (update_variable (local_address c.variable comp) (local_address c.target comp) 0 s) _
            (λ s'. LeavesIf-push _ stack s' _ h))
        (λ e. h)
