-- ===== src/Tests/Script.antt =====
-- A script with one conditional.
use outcome.Prelude.{String, List, true, ◌++◌, [], ◌∷◌, none, some, ◌≡◌, refl}
use outcome.Prelude.Result.{ok, panic}
use outcome.Machine.{CommandPrototype, empty_location}
use outcome.Machine.Command.{Command, Condition, Loop, no_condition}
use outcome.Machine.Flow.Blocks.{new_if, new_procedure, new_state, new_for, new_loop}
use outcome.Script.{Instruction, directive, command, run_conditionals}
use outcome.Script.Bridge.{apply_offset}
use outcome.Script.Bridge.Found.{with_line}
use outcome.Script.Bridge.Moved.{IsMoved, lower, apply_offset-new}
use outcome.Script.Conditionals.{Script, finished, item, choice_else, run_conditionals-flatten}

abbrev order : String → Instruction
order n = record {
  location = empty_location;
  type_ = command (record { name = some n; arguments = none; output = none });
}

abbrev directing : String → Instruction
directing n = record {
  location = empty_location;
  type_ = directive (record { name = some n; arguments = none });
}

abbrev branches : Script
branches = item (order "set") (
    choice_else (directing "if") (order "jump" ∷ []) (directing "else")
      (order "goto" ∷ directing "print" ∷ []) (directing "endif") finished)

run_conditionals-flatten_example :
    run_conditionals (
      order "set"
      ∷ directing "if"
      ∷ order "jump"
      ∷ directing "else"
      ∷ order "goto"
      ∷ directing "print"
      ∷ directing "endif"
      ∷ [])
    ≡ ok (order "set" ∷ directing "print" ∷ [])
run_conditionals-flatten_example =
    run_conditionals-flatten branches (refl, (refl, (refl, tt), refl, (refl, (refl, tt)), refl, tt))

abbrev prototype : String → CommandPrototype
prototype n = record { name = some n; arguments = none; output = none }

abbrev first_commands : List CommandPrototype
first_commands = prototype "print" ∷ prototype "set" ∷ []

abbrev more_commands : List CommandPrototype
more_commands = prototype "if" ∷ prototype "else" ∷ prototype "end" ∷ []

abbrev round : Loop
round = record { break_condition = no_condition; start = 0; end = 2 }

apply_offset-new_example :
    IsMoved Command.if_
      (λ i. apply_offset 2 (Command.if_ i))
      (new_if ("true" ∷ []) (with_line empty_location 2) (first_commands ++ more_commands))
      (new_if ("true" ∷ []) (with_line empty_location 0) more_commands)
    × (IsMoved Command.procedure
          (λ p. apply_offset 2 (Command.procedure p))
          (new_procedure
            ("true" ∷ [])
            (with_line empty_location 2)
            (first_commands ++ more_commands))
          (new_procedure ("true" ∷ []) (with_line empty_location 0) more_commands)
        × (IsMoved Command.state
              (λ s. apply_offset 2 (Command.state s))
              (new_state
                ("true" ∷ [])
                (with_line empty_location 2)
                (first_commands ++ more_commands))
              (new_state ("true" ∷ []) (with_line empty_location 0) more_commands)
            × (IsMoved Command.for_in
                  (λ f. apply_offset 2 (Command.for_in f))
                  (new_for
                    (λ l. panic)
                    ("true" ∷ [])
                    (with_line empty_location 2)
                    (first_commands ++ more_commands))
                  (new_for (λ l. panic) ("true" ∷ []) (with_line empty_location 0) more_commands)
                × (IsMoved Command.loop
                      (lower 2)
                      (new_loop
                        ("true" ∷ [])
                        (with_line empty_location 2)
                        (first_commands ++ more_commands))
                      (new_loop ("true" ∷ []) (with_line empty_location 0) more_commands)
                    × (apply_offset 2 (Command.loop round) ≡ Command.loop round)))))
apply_offset-new_example =
    apply_offset-new first_commands more_commands empty_location 0 (λ l. panic) ("true" ∷ []) round

if_run :
    new_if ("true" ∷ []) (with_line empty_location 2) (first_commands ++ more_commands)
    ≡ ok (record { condition = Condition.bool_value true; start = 2; end = 4; else_lines = 3 ∷ [] })
unfolding new_if
if_run = refl

abbrev empty_procedure : List CommandPrototype
empty_procedure = prototype "proc" ∷ prototype "end" ∷ []

-- A name of 24 bytes does not fit.
long_name_run :
    new_procedure ("abcdefghijklmnopqrstuvwx" ∷ []) (with_line empty_location 0) empty_procedure
    ≡ panic
unfolding new_procedure
long_name_run = refl

short_name_run :
    new_procedure ("abcdefghijklmnopqrstuvw" ∷ []) (with_line empty_location 0) empty_procedure
    ≡ ok (record {
      name = "abcdefghijklmnopqrstuvw";
      start_line = 0;
      end_line = 1;
      output_variable = none;
    })
unfolding new_procedure
short_name_run = refl
