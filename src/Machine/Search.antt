-- ===== src/Machine/Search.antt =====
-- `command_search` of outcome-core/src/machine/mod.rs: where the block ends that begins above a line.
pub mod Nesting
pub mod Bounds
pub mod Offset
use outcome.Prelude.{
  ℕ, zero, suc, ◌+◌, ◌-◌, String, Bool, true, false, ◌&&◌, List, [], ◌∷◌, ◌++◌, Option, none, some,
  ltb, drop, contains, string_eq, if◌then◌else◌,
}
use outcome.Prelude.Result.{Result, ok, err, panic}
use outcome.Machine.{
  CommandPrototype, SearchFailure, no_begin_defs, no_end_defs, end_not_found, bad_nesting, no_end,
}

-- The argument `defs`: the names that begin, divide and end the block that is searched.
pub record Defs : Type 0 where
  pub begins : List String
  pub middles : List String
  pub ends : List String

-- The argument `blocks`: the names that open and close the blocks inside it.
pub record Blocks : Type 0 where
  pub opens : List String
  pub closes : List String

-- The end's line and those of the middle parts.
abbrev pub Found : Type 0
Found = Result SearchFailure (Option (ℕ × List ℕ))

-- What a command is to the search, in the order of the code's tests.
pub data Role : Type 0 where
  opens_block is_middle closes_block is_end is_begin is_other : Role

abbrev pub role : Defs → Blocks → Bool → String → Role
role d b inside name =
    if contains b.opens name
    then opens_block
    else if contains d.middles name
    then is_middle
    else if contains b.closes name && inside
    then closes_block
    else if contains d.ends name
    then is_end
    else if contains d.begins name
    then is_begin
    else is_other

module _ (d : Defs) (b : Blocks) (recurse : Bool) where
  -- The loop from a line on: the lines below `skip_to` are passed over, `diff` is `block_diff`, and
  -- `mids` is `locs.1`. The recursive search starts on the next line.
  pub search : ℕ → ℕ → ℕ → List ℕ → List CommandPrototype → Found
  search line skip_to diff mids [] = err (no_end d.begins)
  search line skip_to diff mids (c ∷ rest) = elim (ltb line skip_to) [
    | true ↦ search (suc line) skip_to diff mids rest
    | false ↦ elim c.name [
      | none ↦ search (suc line) skip_to diff mids rest
      | some name ↦ elim (role d b (ltb 0 diff) name) [
        | opens_block ↦ search (suc line) skip_to (suc diff) mids rest
        | is_middle ↦ search (suc line) skip_to diff (mids ++ line ∷ []) rest
        | closes_block ↦ search (suc line) skip_to (diff - 1) mids rest
        | is_end ↦ ok (some (line, mids))
        | is_begin ↦ elim recurse [
          | true ↦ elim (search (suc line) (suc line) 0 [] rest) [
            | ok found ↦ elim found [
              | none ↦ err (end_not_found name)
              | some (e, _) ↦ search (suc line) (suc e) diff mids rest
            ]
            | err failure ↦ err failure
            | panic ↦ panic
          ]
          | false ↦ err (bad_nesting name)
        ]
        | is_other ↦ search (suc line) skip_to diff mids rest
      ]
    ]
  ]

abbrev pub is_empty : List String → Bool
is_empty [] = true
is_empty (x ∷ xs) = false

-- `constraints.0` is the line to start from; `constraints.1` is not read.
unfoldable pub command_search : Defs → Blocks → ℕ → Bool → List CommandPrototype → Found
unfolding search
command_search d b from recurse commands =
    if is_empty d.begins
    then err no_begin_defs
    else if is_empty d.ends
    then err no_end_defs
    else search d b recurse from from 0 [] (drop from commands)
