-- ===== src/Script/Conditionals.antt =====
-- What is left of a script after its conditional directives.
use outcome.Prelude.{
  Bool, true, false, not, ◌&&◌, List, [], ◌∷◌, ◌++◌, ◌≡◌, refl, ap, ◌∙◌, arith, All, if◌then◌else◌,
}
use outcome.Prelude.Result.{ok}
use outcome.Script.{
  Instruction, Kind, is_nothing, is_command, is_if, is_else, is_endif, is_other, kind, conditionals,
  run_conditionals,
}

-- A script whose conditionals are closed and not nested: instructions, `if … endif` and
-- `if … else … endif`.
pub data Script : Type 0 where
  finished : Script
  item : Instruction → Script → Script
  choice : Instruction → List Instruction → Instruction → Script → Script
  choice_else :
      Instruction
      → List Instruction
      → Instruction
      → List Instruction
      → Instruction
      → Script
      → Script

abbrev pub flatten : Script → List Instruction
flatten finished = []
flatten (item i s) = i ∷ flatten s
flatten (choice i body e s) = i ∷ (body ++ (e ∷ flatten s))
flatten (choice_else i body l alternative e s) =
    i ∷ (body ++ (l ∷ (alternative ++ (e ∷ flatten s))))

abbrev pub is_inner : Kind → Bool
is_inner is_nothing = true
is_inner is_command = true
is_inner is_other = true
is_inner _ = false

abbrev pub IsBody : List Instruction → Type 0
IsBody is = All (λ (i : Instruction). is_inner (kind i) ≡ true) is

abbrev pub IsScript : Script → Type 0
IsScript finished = Unit
IsScript (item i s) = (is_inner (kind i) ≡ true) × IsScript s
IsScript (choice i body e s) = (kind i ≡ is_if) × IsBody body × (kind e ≡ is_endif) × IsScript s
IsScript (choice_else i body l alternative e s) =
    (kind i ≡ is_if)
    × IsBody body
    × (kind l ≡ is_else)
    × IsBody alternative
    × (kind e ≡ is_endif)
    × IsScript s

abbrev pub keeps : Bool → Bool → Kind → Bool
keeps in_if in_else is_command = not in_if && not in_else
keeps in_if in_else is_other = not in_if
keeps in_if in_else _ = false

abbrev pub kept : Bool → Bool → List Instruction → List Instruction
kept in_if in_else [] = []
kept in_if in_else (i ∷ is) =
    if keeps in_if in_else (kind i) then i ∷ kept in_if in_else is else kept in_if in_else is

-- Outside the conditionals the commands and the directives, of an `else` part the directives alone.
abbrev pub chosen : Script → List Instruction
chosen finished = []
chosen (item i s) = kept false false (i ∷ []) ++ chosen s
chosen (choice i body e s) = chosen s
chosen (choice_else i body l alternative e s) = kept false true alternative ++ chosen s

conditionals-body :
    (in_if in_else : Bool) (body tail rest : List Instruction)
    → IsBody body
    → conditionals in_if in_else tail ≡ ok rest
    → conditionals in_if in_else (body ++ tail) ≡ ok (kept in_if in_else body ++ rest)
unfolding conditionals
conditionals-body in_if in_else [] tail rest h e = e
conditionals-body in_if in_else (i ∷ body) tail rest (hi, h) e =
    ground (arith, conditionals-body in_if in_else body tail rest h e)

kept_nothing : (body : List Instruction) → IsBody body → kept true false body ≡ []
kept_nothing [] h = refl
kept_nothing (i ∷ body) (hi, h) = ground (arith, kept_nothing body h)

conditionals-if :
    (i : Instruction) (is : List Instruction)
    → kind i ≡ is_if
    → conditionals false false (i ∷ is) ≡ conditionals true false is
unfolding conditionals
conditionals-if i is h = ground arith

conditionals-else :
    (i : Instruction) (is : List Instruction)
    → kind i ≡ is_else
    → conditionals true false (i ∷ is) ≡ conditionals false true is
unfolding conditionals
conditionals-else i is h = ground arith

conditionals-endif :
    (i : Instruction) (is : List Instruction)
    → kind i ≡ is_endif
    → conditionals true false (i ∷ is) ≡ conditionals false false is
unfolding conditionals
conditionals-endif i is h = ground arith

conditionals-endif_else :
    (i : Instruction) (is : List Instruction)
    → kind i ≡ is_endif
    → conditionals false true (i ∷ is) ≡ conditionals false false is
unfolding conditionals
conditionals-endif_else i is h = ground arith

-- On a script whose conditionals are closed and not nested, what is left are the commands and the
-- directives outside the conditionals and the directives of the `else` parts, in their order: nothing of an `if`
-- part, and no command of an `else` part.
pub run_conditionals-flatten :
    (s : Script) → IsScript s → run_conditionals (flatten s) ≡ ok (chosen s)
unfolding run_conditionals conditionals
run_conditionals-flatten finished h = refl
run_conditionals-flatten (item i s) (hi, h) =
    conditionals-body false false (i ∷ []) (flatten s) (chosen s) (hi, tt)
      (run_conditionals-flatten s h)
run_conditionals-flatten (choice i body e s) (hi, hb, he, h) =
    conditionals-if i (body ++ (e ∷ flatten s)) hi
    ∙ conditionals-body true false body (e ∷ flatten s) (chosen s) hb
        (conditionals-endif e (flatten s) he ∙ run_conditionals-flatten s h)
    ∙ ap (λ (xs : List Instruction). ok (xs ++ chosen s)) (kept_nothing body hb)
run_conditionals-flatten (choice_else i body l alternative e s) (hi, hb, hl, ha, he, h) =
    conditionals-if i (body ++ (l ∷ (alternative ++ (e ∷ flatten s)))) hi
    ∙ conditionals-body true false body (l ∷ (alternative ++ (e ∷ flatten s)))
        (kept false true alternative ++ chosen s) hb
        (conditionals-else l (alternative ++ (e ∷ flatten s)) hl
          ∙ conditionals-body false true alternative (e ∷ flatten s) (chosen s) ha
              (conditionals-endif_else e (flatten s) he ∙ run_conditionals-flatten s h))
    ∙ ap (λ (xs : List Instruction). ok (xs ++ (kept false true alternative ++ chosen s)))
        (kept_nothing body hb)
