-- ===== src/Distr/Node/Batches.antt =====
-- The parts in which a node sends its central commands.
use outcome.Prelude.{
  ℕ, ◌+◌, ◌<◌, ◌≤◌, ◌≡◌, refl, sym, ap, ◌∙◌, true, false, List, [], ◌∷◌, ◌++◌, length,
  length-append, leb, append_assoc, All, arith, Bool-cases, inl, inr,
}
use mathlib.Core.Path.{subst}
use outcome.Machine.Command.{CentralRemoteCommand}
use outcome.Machine.Exec.{ExecutionContext, Central}
use outcome.Distr.Node.{batches}

abbrev pub concat : List Central → Central
concat [] = []
concat (b ∷ bs) = b ++ concat bs

-- Every part but the last one is full.
abbrev pub FullButLast : List Central → Type 0
FullButLast [] = Unit
FullButLast (b ∷ []) = Unit
FullButLast (b ∷ c ∷ bs) = (length b ≡ 1000) × FullButLast (c ∷ bs)

full-cons :
    (b : Central) (bs : List Central) → length b ≡ 1000 → FullButLast bs → FullButLast (b ∷ bs)
full-cons b [] h hs = tt
full-cons b (c ∷ bs) h hs = (h, hs)

abbrev Fits : List Central → Central → Type 0
Fits bs cmds =
    (concat bs ≡ cmds) × All (λ b. (0 < length b) × (length b ≤ 1000)) bs × FullButLast bs

-- What the loop does with one command, by whether it fills the part.
batches_full :
    (counter : ℕ) (part cmds : Central) (cmd : ExecutionContext × CentralRemoteCommand)
    → leb 1000 (counter + 1) ≡ true
    → batches counter part (cmd ∷ cmds) ≡ (part ++ (cmd ∷ [])) ∷ batches 0 [] cmds
unfolding batches
batches_full counter [] cmds cmd h = rw (h, batches)
batches_full counter (c ∷ part) cmds cmd h = rw (h, batches)

batches_room :
    (counter : ℕ) (part cmds : Central) (cmd : ExecutionContext × CentralRemoteCommand)
    → leb 1000 (counter + 1) ≡ false
    → batches counter part (cmd ∷ cmds) ≡ batches (counter + 1) (part ++ (cmd ∷ [])) cmds
unfolding batches
batches_room counter [] cmds cmd h = rw (h, batches)
batches_room counter (c ∷ part) cmds cmd h = rw (h, batches)

cut :
    (counter : ℕ) (part cmds : Central)
    → length part ≡ counter
    → counter < 1000
    → Fits (batches counter part cmds) (part ++ cmds)
unfolding batches
cut counter [] [] h lt = (refl, tt, tt)
cut counter (c ∷ part) [] h lt = (refl, ((omega arith, omega arith), tt), tt)
cut counter part (cmd ∷ cmds) h lt =
    let size : length (part ++ (cmd ∷ [])) ≡ counter + 1 =
      omega (arith, length-append part (cmd ∷ [])) in
    elim (Bool-cases (leb 1000 (counter + 1))) [
      | inl e ↦
          let (whole, sizes, full) = cut 0 [] cmds refl (omega arith) in
          let last : counter + 1 ≡ 1000 = ground arith in
          subst (λ bs. Fits bs (part ++ (cmd ∷ cmds))) (sym (batches_full counter part cmds cmd e))
            (
              ap (λ rest. (part ++ (cmd ∷ [])) ++ rest) whole ∙ append_assoc part (cmd ∷ []) cmds,
              ((omega arith, omega arith), sizes),
              full-cons (part ++ (cmd ∷ [])) (batches 0 [] cmds) (size ∙ last) full,
            )
      | inr e ↦
          subst (λ bs. Fits bs (part ++ (cmd ∷ cmds))) (sym (batches_room counter part cmds cmd e))
            (subst (λ all. Fits (batches (counter + 1) (part ++ (cmd ∷ [])) cmds) all)
              (append_assoc part (cmd ∷ []) cmds)
              (cut (counter + 1) (part ++ (cmd ∷ [])) cmds size (ground arith)))
    ]

-- The parts in which a node sends its central commands are all of them, in their order. None is empty, none
-- has more than a thousand commands, and all but the last one have a thousand.
pub concat-batches :
    (cmds : Central)
    → (concat (batches 0 [] cmds) ≡ cmds)
      × All (λ b. (0 < length b) × (length b ≤ 1000)) (batches 0 [] cmds)
      × FullButLast (batches 0 [] cmds)
concat-batches cmds = cut 0 [] cmds refl (omega arith)
