-- ===== src/Tests/Search.antt =====
-- A nested loop, and the search for its ends.
use outcome.Prelude.{String, ◌≡◌, refl, true, [], ◌∷◌, none, some, inr}
use outcome.Prelude.Result.{ok}
use outcome.Machine.{CommandPrototype}
use outcome.Machine.Search.{Defs, Blocks, command_search}
use outcome.Machine.Search.Nesting.{
  Body, done, plain, middle, block, nested, command_search-flatten,
}
use outcome.Machine.Search.Bounds.{IsAnswer, IsAnswer-command_search}

abbrev named : String → CommandPrototype
named n = record { name = some n; arguments = none; output = none }

abbrev if_defs : Defs
if_defs = record { begins = "if" ∷ []; middles = "else" ∷ []; ends = "end" ∷ [] }

abbrev if_blocks : Blocks
if_blocks = record { opens = "for" ∷ []; closes = "end" ∷ [] }

-- `if … set, for … end, else, if … else … end, end`
abbrev body : Body
body = plain (named "set") (
    block (named "for") done (named "end")
      (middle (named "else") (nested (named "if") (middle (named "else") done) (named "end") done)))

command_search-flatten_example :
    command_search if_defs if_blocks 1 true (
      named "if"
      ∷ named "set"
      ∷ named "for"
      ∷ named "end"
      ∷ named "else"
      ∷ named "if"
      ∷ named "else"
      ∷ named "end"
      ∷ named "end"
      ∷ named "print"
      ∷ [])
    ≡ ok (some (8, 4 ∷ []))
command_search-flatten_example =
    command_search-flatten if_defs if_blocks (named "if" ∷ []) body (named "end")
      (named "print" ∷ []) refl refl
      (
        inr ("set", refl, refl, refl),
        (
          ("for", refl, refl, refl),
          tt,
          ("end", refl, refl, refl),
          (
            ("else", refl, refl, refl),
            (
              ("if", refl, refl, refl),
              (("else", refl, refl, refl), tt),
              ("end", refl, refl, refl),
              tt,
            ),
          ),
        ),
      )
      ("end", refl, refl, refl)

IsAnswer-command_search_example :
    IsAnswer if_defs 1
      (named "set" ∷ named "end" ∷ [])
      (command_search if_defs if_blocks 1 true (named "if" ∷ named "set" ∷ named "end" ∷ []))
IsAnswer-command_search_example =
    IsAnswer-command_search if_defs if_blocks 1 true (named "if" ∷ named "set" ∷ named "end" ∷ [])
