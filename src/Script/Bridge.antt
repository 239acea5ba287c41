-- ===== src/Script/Bridge.antt =====
-- How the commands of a script are moved below those of a component that it extends: `apply_offset` of
-- outcome-core/src/machine/script/bridge.rs.
pub mod Found
pub mod Moved
use outcome.Prelude.{ℕ, ◌+◌, List, [], ◌∷◌}
use outcome.Machine.Command.{Command, If, ForIn, Procedure, State}
use outcome.Machine.Search.Offset.{shift_lines}

-- `Command::apply_offset`
unfoldable pub apply_offset : ℕ → Command → Command
apply_offset offset (Command.state c) = Command.state (record {
  comp = c.comp;
  signature = c.signature;
  name = c.name;
  start_line = c.start_line + offset;
  end_line = c.end_line + offset;
  output_variable = c.output_variable;
})
apply_offset offset (Command.procedure c) = Command.procedure (record {
  name = c.name;
  start_line = c.start_line + offset;
  end_line = c.end_line + offset;
  output_variable = c.output_variable;
})
apply_offset offset (Command.if_ c) = Command.if_ (record {
  condition = c.condition;
  start = c.start + offset;
  end = c.end + offset;
  else_lines = shift_lines offset c.else_lines;
})
apply_offset offset (Command.for_in c) = Command.for_in (record {
  start = c.start + offset;
  end = c.end + offset;
  target = c.target;
  variable = c.variable;
})
apply_offset offset c = c
