-- ===== src/Script/Bridge/Moved.antt =====
-- What moving a block command comes to.
use mathlib.Core.Option
use outcome.Prelude.{
  ℕ, ◌+◌, ◌≡◌, refl, ap, String, List, [], ◌∷◌, ◌++◌, none, some, length, get_elem?, arith,
}
use outcome.Prelude.Result.{Result, ok, ◌>>=◌, value?, unwrap}
use outcome.Machine.{LocationInfo, CommandPrototype, MachineError}
use outcome.Machine.Search.{Defs}
use outcome.Machine.Command.{Command, Loop}
use outcome.Machine.Flow.Blocks.{
  find_block, new_if, new_for, new_procedure, new_state, new_loop, condition_of, break_condition_of,
  short_string, loop_names, if_names, else_names, for_names, procedure_names, state_names,
  component_names, block_of,
}
use outcome.Script.Bridge.{apply_offset}
use outcome.Script.Bridge.Found.{
  with_line, value?->>=, moved, find_block-moved, same_value, argument_value, no_value,
}

-- What is made in the joined commands is what is made alone, moved.
abbrev pub IsMoved :
    {A : Type 0}
    → (A → Command)
    → (A → Command)
    → Result MachineError A
    → Result MachineError A
    → Type 0
IsMoved command move made alone = Option.map command (value? made) ≡ Option.map move (value? alone)

-- A loop, with its lines further down.
abbrev pub lower : ℕ → Loop → Command
lower offset l =
    Command.loop (record {
      break_condition = l.break_condition;
      start = l.start + offset;
      end = l.end + offset;
    })

module _ (pre commands : List CommandPrototype) (location : LocationInfo) (n : ℕ) where
  -- A block command is made of the answer of the search and one more value.
  block-IsMoved :
      {A X : Type 0} (command move : A → Command) (defs : Defs) (opens : List String)
      (not_found : String) (m : Result MachineError X) (build : ℕ → ℕ × List ℕ → X → A)
      → ((p : ℕ × List ℕ) (x : X)
          → command (build (n + length pre) (moved (length pre) p) x) ≡ move (build n p x))
      → IsMoved command move
          (find_block
              (with_line location (n + length pre))
              (pre ++ commands)
              (n + length pre)
              defs
              opens
              not_found
            >>= λ p. m >>= λ x. ok (build (n + length pre) p x))
          (find_block (with_line location n) commands n defs opens not_found >>= λ p.
            m >>= λ x. ok (build n p x))
  block-IsMoved command move defs opens not_found m build h =
      value?->>= (moved (length pre)) move command
        (find_block (with_line location n) commands n defs opens not_found)
        (find_block (with_line location (n + length pre)) (pre ++ commands) (n + length pre) defs
          opens not_found)
        (λ p. m >>= λ x. ok (build n p x)) (λ p. m >>= λ x. ok (build (n + length pre) p x))
        (find_block-moved (with_line location n) (with_line location (n + length pre)) pre commands
          n defs opens not_found)
        (λ p.
          value?->>= (λ x. x) move command m m (λ x. ok (build n p x))
            (λ x. ok (build (n + length pre) (moved (length pre) p) x)) (same_value m)
            (λ x. ap some (h p x)))

  if-IsMoved :
      (args : List String)
      → IsMoved Command.if_
          (λ i. apply_offset (length pre) (Command.if_ i))
          (new_if args (with_line location (n + length pre)) (pre ++ commands))
          (new_if args (with_line location n) commands)
  unfolding new_if apply_offset
  if-IsMoved [] = refl
  if-IsMoved (arg ∷ args) =
      block-IsMoved Command.if_ (λ i. apply_offset (length pre) (Command.if_ i))
        (block_of if_names else_names) (procedure_names ++ for_names)
        "end of if/else block not found." (condition_of arg)
        (λ line p c. record { condition = c; start = line; end = p.0; else_lines = p.1 })
        (λ p c. refl)

  procedure-IsMoved :
      (args : List String)
      → IsMoved Command.procedure
          (λ p. apply_offset (length pre) (Command.procedure p))
          (new_procedure args (with_line location (n + length pre)) (pre ++ commands))
          (new_procedure args (with_line location n) commands)
  unfolding new_procedure apply_offset
  procedure-IsMoved args =
      block-IsMoved Command.procedure (λ p. apply_offset (length pre) (Command.procedure p))
        (block_of procedure_names []) (if_names ++ (else_names ++ (for_names ++ state_names)))
        "End of procedure block not found" (unwrap (get_elem? args 0) >>= short_string)
        (λ line p name. record {
          name = name;
          start_line = line;
          end_line = p.0;
          output_variable = none;
        })
        (λ p name. refl)

  state-IsMoved :
      (args : List String)
      → IsMoved Command.state
          (λ s. apply_offset (length pre) (Command.state s))
          (new_state args (with_line location (n + length pre)) (pre ++ commands))
          (new_state args (with_line location n) commands)
  unfolding new_state apply_offset
  state-IsMoved args =
      block-IsMoved Command.state (λ s. apply_offset (length pre) (Command.state s))
        (block_of state_names [])
        (if_names ++ (else_names ++ (for_names ++ (procedure_names ++ component_names))))
        "end of state block not found" (unwrap (get_elem? args 0))
        (λ line p name. record {
          comp = "";
          signature = none;
          name = name;
          start_line = line + 1;
          end_line = p.0;
          output_variable = none;
        })
        (λ p name.
          let one : (n + length pre) + 1 ≡ (n + 1) + length pre = omega arith in
          ap
            (λ start. Command.state (record {
              comp = "";
              signature = none;
              name = name;
              start_line = start;
              end_line = p.0 + length pre;
              output_variable = none;
            }))
            one)

  loop-IsMoved :
      (args : List String)
      → IsMoved Command.loop
          (lower (length pre))
          (new_loop args (with_line location (n + length pre)) (pre ++ commands))
          (new_loop args (with_line location n) commands)
  unfolding new_loop
  loop-IsMoved args =
      block-IsMoved Command.loop (lower (length pre)) (block_of loop_names [])
        (procedure_names ++ for_names) "end of if/else block not found." (break_condition_of args)
        (λ line p c. record { break_condition = c; start = line; end = p.0 }) (λ p c. refl)

  for-IsMoved :
      (no_arguments : LocationInfo → Result MachineError String) (args : List String)
      → IsMoved Command.for_in
          (λ f. apply_offset (length pre) (Command.for_in f))
          (new_for no_arguments args (with_line location (n + length pre)) (pre ++ commands))
          (new_for no_arguments args (with_line location n) commands)
  unfolding new_for apply_offset
  for-IsMoved no_arguments args =
      let here = with_line location n in
      let there = with_line location (n + length pre) in
      value?->>= (λ a. a) _ _ _ _ _ _
        (argument_value here there (get_elem? args 0) _ _ (no_value here (no_arguments here))
          (no_value there (no_arguments there)))
        (λ variable.
          value?->>= (λ a. a) _ _ _ _ _ _
            (argument_value here there (get_elem? args 2) _ _ refl refl)
            (λ target.
              block-IsMoved Command.for_in (λ f. apply_offset (length pre) (Command.for_in f))
                (block_of for_names []) (if_names ++ (else_names ++ (for_names ++ procedure_names)))
                "End of forin block not found." (ok tt)
                (λ line p u. record {
                  start = line;
                  end = p.0;
                  target = target;
                  variable = variable;
                })
                (λ p u. refl)))

  -- The block commands that are made of prototypes which stand below others are those that are made without
  -- the others, with `apply_offset` by how many the others are: an if, a procedure, a state and a for is
  -- made in the one case where it is in the other, and is the same. A loop has its lines further down in
  -- the same way, and `apply_offset` leaves it as it is.
  pub apply_offset-new :
      (no_arguments : LocationInfo → Result MachineError String) (args : List String) (l : Loop)
      → IsMoved Command.if_
          (λ i. apply_offset (length pre) (Command.if_ i))
          (new_if args (with_line location (n + length pre)) (pre ++ commands))
          (new_if args (with_line location n) commands)
        × (IsMoved Command.procedure
              (λ p. apply_offset (length pre) (Command.procedure p))
              (new_procedure args (with_line location (n + length pre)) (pre ++ commands))
              (new_procedure args (with_line location n) commands)
            × (IsMoved Command.state
                  (λ s. apply_offset (length pre) (Command.state s))
                  (new_state args (with_line location (n + length pre)) (pre ++ commands))
                  (new_state args (with_line location n) commands)
                × (IsMoved Command.for_in
                      (λ f. apply_offset (length pre) (Command.for_in f))
                      (new_for no_arguments args
                        (with_line location (n + length pre))
                        (pre ++ commands))
                      (new_for no_arguments args (with_line location n) commands)
                    × (IsMoved Command.loop
                          (lower (length pre))
                          (new_loop args (with_line location (n + length pre)) (pre ++ commands))
                          (new_loop args (with_line location n) commands)
                        × (apply_offset (length pre) (Command.loop l) ≡ Command.loop l)))))
  unfolding apply_offset
  apply_offset-new no_arguments args l = (
    if-IsMoved args,
    (
      procedure-IsMoved args,
      (state-IsMoved args, (for-IsMoved no_arguments args, (loop-IsMoved args, refl))),
    ),
  )
