-- ===== src/Tests/Exec.antt =====
-- Small programs, and what the theorems about runs say of them.
use outcome.Prelude.{
  ℕ, ◌+◌, String, ◌≡◌, refl, true, false, List, [], ◌∷◌, Option, none, some, arith, string_eq,
  pair_eq,
}
use outcome.Prelude.Assoc.{get}
use outcome.Prelude.Int.{ℤ, pos, as_i32, as_usize}
use outcome.Prelude.Result.{Result, ok}
use outcome.Data.{VarType, Var, StorageIndex}
use outcome.Storage.{Storage, get_var, insert, set_var}
use outcome.Storage.Laws.{get_var-insert}
use outcome.Var.Access.{set_int}
use outcome.Model.{ComponentModel}
use outcome.Machine.{LocationInfo, MachineError, IfElseCallInfo, if_else, loop, CallInfo}
use outcome.Machine.Command.{Command, ForIn, If, Condition, no_condition}
use outcome.Machine.Flow.{write_int, update_variable, local_address}
use outcome.Machine.Exec.{Program, Ending, step, run, execute_loc}
use outcome.Machine.Exec.Steps.{Reaches, here, next}
use outcome.Machine.Exec.Ended.{run-without_end, without_end}
use outcome.Machine.Exec.Places.{World, run_at, stored_in}
use outcome.Machine.Exec.Jumps.{run-else_forever, Reaches-break, Reaches-call}
use outcome.Machine.Exec.Loops.{Reaches-for}
use outcome.Machine.Exec.Halts.{execute_loc-halts}
use outcome.Tests.{test_std}

abbrev at_line : ℕ → LocationInfo
at_line n = record {
  root = none;
  source = none;
  source_line = none;
  line = some n;
  tag = none;
  comp_name = none;
}

abbrev logic_component : ComponentModel
logic_component = record {
  name = "c";
  vars = [];
  triggers = [];
  logic = record {
    start_state = "start";
    commands = [];
    pre_commands = [];
    states = [];
    procedures = ("work", (2, 4)) ∷ [];
    cmd_location_map = [];
  };
}

abbrev program : List Command → Option ℕ → Program
program cmds end = record {
  cmds = cmds;
  locations = at_line 0 ∷ at_line 1 ∷ at_line 2 ∷ at_line 3 ∷ at_line 4 ∷ [];
  ent_uid = 7;
  comp_uid = "c";
  sim_model = record { events = []; entities = []; components = logic_component ∷ [] };
  end = end;
}

abbrev world : String → World
world state = record {
  storage = (("c", "n"), Var.int (pos 3)) ∷ [];
  comp_state = state;
  ext_cmds = [];
  central_ext_cmds = [];
}

-- `goto next`, then nothing.
abbrev one_goto : Program
one_goto = program (Command.goto "next" ∷ []) none

goto_run :
    run ⦃std = test_std⦄ 2 one_goto (run_at 0 [] (world "start"))
    ≡ some (ok (run_at 1 [] (world "next"), none))
unfolding run
goto_run = refl

-- `if false`, `goto next`, `end`, `goto done`
abbrev straight : Program
straight =
    program
      (Command.if_
          (record { condition = Condition.bool_value false; start = 0; end = 2; else_lines = [] })
        ∷ Command.goto "next"
        ∷ Command.end
        ∷ Command.goto "done"
        ∷ [])
      none

execute_loc-halts_example :
    (result : Result MachineError Ending) × (execute_loc ⦃std = test_std⦄ 5 straight [] "start" none
        [] []
      ≡ some result)
execute_loc-halts_example =
    execute_loc-halts ⦃std = test_std⦄ straight [] "start" none [] []
      ((tt, omega arith), (tt, (tt, (tt, tt))))

straight_run :
    execute_loc ⦃std = test_std⦄ 5 straight [] "start" none [] []
    ≡ some (
        ok (
          record {
            cmd_n = 4;
            locals = record { storage = []; comp_state = "done"; call_stack = [] };
            ext_cmds = [];
            central_ext_cmds = [];
          },
          none,
        ))
unfolding execute_loc
straight_run = refl

-- `if a`, `if b`, `end`, `else`, `end`: the frame of the inner `if`.
abbrev inner_if : IfElseCallInfo
inner_if = record {
  current = 2;
  passed = true;
  else_line_index = 0;
  meta = record { start = 1; end = 2; else_lines = [] };
}

abbrev always : ℕ → List ℕ → ℕ → If
always end lines start = record {
  condition = Condition.bool_value true;
  start = start;
  end = end;
  else_lines = lines;
}

abbrev nested_ifs : Program
nested_ifs =
    program
      (Command.if_ (always 4 (3 ∷ []) 0)
        ∷ Command.if_ (always 2 [] 1)
        ∷ Command.end
        ∷ Command.else_
        ∷ Command.end
        ∷ [])
      none

run-else_forever_example :
    run ⦃std = test_std⦄ 1000 nested_ifs (run_at 3 (if_else inner_if ∷ []) (world "start")) ≡ none
run-else_forever_example =
    run-else_forever ⦃std = test_std⦄ nested_ifs inner_if [] (world "start") 1000
      (record { location = at_line 3; command = refl; located = refl; line = refl }) refl

run-without_end_example :
    run ⦃std = test_std⦄ 9
      (without_end (program (Command.end ∷ Command.goto "past" ∷ []) (some 1)))
      (run_at 0 (if_else inner_if ∷ []) (world "start"))
    ≡ run ⦃std = test_std⦄ 9
        (program (Command.end ∷ Command.goto "past" ∷ []) (some 1))
        (run_at 0 (if_else inner_if ∷ []) (world "start"))
run-without_end_example =
    run-without_end ⦃std = test_std⦄ 9 (program (Command.end ∷ Command.goto "past" ∷ []) (some 1))
      (run_at 0 (if_else inner_if ∷ []) (world "start")) refl

-- `loop`, `loop`, `break`, `end`, `end`
abbrev nested_loops : Program
nested_loops =
    program
      (Command.loop (record { break_condition = no_condition; start = 0; end = 4 })
        ∷ Command.loop (record { break_condition = no_condition; start = 1; end = 3 })
        ∷ Command.break
        ∷ Command.end
        ∷ Command.end
        ∷ [])
      none

Reaches-break_example :
    Reaches ⦃std = test_std⦄ nested_loops
      (run_at 2
        (loop (record { start = 1; end = 3 }) ∷ loop (record { start = 0; end = 4 }) ∷ [])
        (world "start"))
      (run_at 1 (loop (record { start = 0; end = 4 }) ∷ []) (world "start"))
Reaches-break_example =
    Reaches-break ⦃std = test_std⦄ nested_loops (record { start = 1; end = 3 })
      (record { start = 0; end = 4 }) [] (world "start") 2
      (record { location = at_line 2; command = refl; located = refl; line = refl })
      (record { location = at_line 3; command = refl; located = refl; line = refl })

-- `call work`, `break`, and the procedure: `proc work`, `goto done`, `end`
abbrev calling : Program
calling =
    program
      (Command.call "work"
        ∷ Command.break
        ∷ Command.procedure
            (record { name = "work"; start_line = 2; end_line = 4; output_variable = none })
        ∷ Command.goto "done"
        ∷ Command.end
        ∷ [])
      (some 2)

Reaches-call_example :
    Reaches ⦃std = test_std⦄ calling (run_at 0 [] (world "start")) (run_at 1 [] (world "done"))
unfolding step get
Reaches-call_example =
    Reaches-call ⦃std = test_std⦄ calling "work" 0 2 4 logic_component [] (world "start")
      (world "done") (record { location = at_line 0; command = refl; located = refl; line = refl })
      (record { location = at_line 4; command = refl; located = refl; line = refl }) refl refl
      (omega arith) refl (next refl here)

-- `for int:i in int:n`, `goto next`, `end`
abbrev three_rounds : ForIn
three_rounds = record {
  start = 0;
  end = 2;
  target = record { comp = none; var_type = VarType.int; var_name = "n" };
  variable = record { comp = none; var_type = VarType.int; var_name = "i" };
}

abbrev counting : Program
counting = program (Command.for_in three_rounds ∷ Command.goto "next" ∷ Command.end ∷ []) (some 3)

-- The target stays an integer.
abbrev HasInt : ℕ → World → Type 0
HasInt k w = (x : ℤ) × (get_var w.storage ("c", "n") ≡ ok (Var.int x))

write_int-int :
    (s : Storage) (i : StorageIndex) (x n : ℤ)
    → get_var s i ≡ ok (Var.int x)
    → write_int s i n ≡ ok (insert s i (Var.int n))
unfolding write_int get_var set_var set_int insert
write_int-int s i x n h = ground arith

HasInt-write :
    (k : ℕ) (w : World)
    → HasInt k w
    → (s : Storage) × (update_variable
          (local_address three_rounds.variable "c")
          (local_address three_rounds.target "c")
          k
          w.storage
        ≡ ok s)
      × HasInt k (stored_in w s)
unfolding update_variable
HasInt-write k w (x, h) = (
  insert w.storage ("c", "n") (Var.int (as_i32 k)),
  write_int-int w.storage ("c", "n") x (as_i32 k) h,
  (as_i32 k, get_var-insert w.storage ("c", "n") ("c", "n") (Var.int (as_i32 k))),
)

HasInt-body :
    (f : CallInfo) (k : ℕ) (w : World)
    → HasInt k w
    → (w' : World) × Reaches ⦃std = test_std⦄ counting (run_at 1 (f ∷ []) w) (run_at 2 (f ∷ []) w')
      × HasInt (k + 1) w'
unfolding step
HasInt-body f k w (x, h) = (
  record {
    storage = w.storage;
    comp_state = "next";
    ext_cmds = w.ext_cmds;
    central_ext_cmds = w.central_ext_cmds;
  },
  next refl here,
  (x, h),
)

Reaches-for_example :
    (w' : World) × Reaches ⦃std = test_std⦄ counting (run_at 0 [] (world "start")) (run_at 3 [] w')
    × HasInt 3 w'
unfolding get_var get as_usize
Reaches-for_example =
    Reaches-for ⦃std = test_std⦄ counting three_rounds (Var.int (pos 3)) [] HasInt (world "start")
      (record { location = at_line 0; command = refl; located = refl; line = refl })
      (record { location = at_line 2; command = refl; located = refl; line = refl }) refl
      (omega arith) (omega arith) refl HasInt-write (λ k. HasInt-body _ k) (pos 3, refl)
