-- ===== src/Machine/Search/Bounds.antt =====
-- What the search returns on any list of commands.
use outcome.Prelude.{
  ℕ, suc, ◌+◌, ◌-◌, ◌<◌, ◌≡◌, refl, Bool, true, List, [], ◌∷◌, ◌++◌, Option, none, some, length,
  drop, get_elem?, arith, contains, string_eq, ltb, ◌⊎◌, inl, inr, Bool-cases, Option-cases, String,
  if◌then◌else◌,
}
use outcome.Prelude.Result.{ok, err, panic}
use outcome.Machine.{CommandPrototype, end_not_found, bad_nesting}
use outcome.Machine.Search.{
  Defs, Blocks, Found, Role, opens_block, is_middle, closes_block, is_end, is_begin, is_other, role,
  search, command_search, is_empty,
}

-- The command is there, and its name is among the ends.
abbrev NamesEnd : Defs → Option CommandPrototype → Type 0
NamesEnd d none = ⊥
NamesEnd d (some c) = (n : String) × (c.name ≡ some n) × (contains d.ends n ≡ true)

-- An error, or the line of one of the commands whose name is among the ends. Never `Ok(None)`.
abbrev pub IsAnswer : Defs → ℕ → List CommandPrototype → Found → Type 0
IsAnswer d line cs (ok none) = ⊥
IsAnswer d line cs (ok (some (e, m))) =
    (k : ℕ) × (e ≡ line + k) × (k < length cs) × NamesEnd d (get_elem? cs k)
IsAnswer d line cs (err f) = Unit
IsAnswer d line cs panic = ⊥

module _ (d : Defs) where
  IsAnswer-suc :
      (line : ℕ) (c : CommandPrototype) (cs : List CommandPrototype) (r : Found)
      → IsAnswer d (suc line) cs r
      → IsAnswer d line (c ∷ cs) r
  IsAnswer-suc line c cs (ok none) h = h
  IsAnswer-suc line c cs (ok (some (e, m))) (k, p, q, s) = (suc k, omega arith, omega arith, s)
  IsAnswer-suc line c cs (err f) h = tt
  IsAnswer-suc line c cs panic h = h

-- How the search goes on after a nested structure.
abbrev pub resume : String → (ℕ → Found) → Found → Found
resume n k (ok none) = err (end_not_found n)
resume n k (ok (some (e, _))) = k e
resume n k (err failure) = err failure
resume n k panic = panic

module _ (d : Defs) (b : Blocks) (recurse : Bool) where
  -- The result of a round at a named command, by the command's role.
  unfoldable pub after_role :
      Role → String → (line skip_to diff : ℕ) → List ℕ → List CommandPrototype → Found
  after_role opens_block n line skip_to diff mids cs =
      search d b recurse (suc line) skip_to (suc diff) mids cs
  after_role is_middle n line skip_to diff mids cs =
      search d b recurse (suc line) skip_to diff (mids ++ line ∷ []) cs
  after_role closes_block n line skip_to diff mids cs =
      search d b recurse (suc line) skip_to (diff - 1) mids cs
  after_role is_end n line skip_to diff mids cs = ok (some (line, mids))
  after_role is_begin n line skip_to diff mids cs =
      if recurse
      then resume n (λ e. search d b recurse (suc line) (suc e) diff mids cs)
          (search d b recurse (suc line) (suc line) 0 [] cs)
      else err (bad_nesting n)
  after_role is_other n line skip_to diff mids cs =
      search d b recurse (suc line) skip_to diff mids cs

  module _ (line skip_to diff : ℕ) (mids : List ℕ) (c : CommandPrototype)
      (cs : List CommandPrototype) where
    -- A round passes the command over, or treats it by its role.
    round_cases :
        (search d b recurse line skip_to diff mids (c ∷ cs)
          ≡ search d b recurse (suc line) skip_to diff mids cs)
        ⊎ ((n : String) × (c.name ≡ some n)
            × (search d b recurse line skip_to diff mids (c ∷ cs)
                ≡ after_role (role d b (ltb 0 diff) n) n line skip_to diff mids cs))
    unfolding search after_role
    round_cases = elim (Bool-cases (ltb line skip_to)) [
      | inl skipped ↦ inl (ground arith)
      | inr seen ↦ elim (Option-cases c.name) [
        | inl unnamed ↦ inl (ground arith)
        | inr (n, named) ↦ inr (n, named, ground arith)
      ]
    ]

  is_end-contains :
      (inside : Bool) (n : String) → role d b inside n ≡ is_end → contains d.ends n ≡ true
  is_end-contains inside n h = ground arith

  module _ (line : ℕ) (c : CommandPrototype) (cs : List CommandPrototype) (n : String)
      (named : c.name ≡ some n)
      (ih : (skip_to diff : ℕ) (mids : List ℕ)
        → IsAnswer d (suc line) cs (search d b recurse (suc line) skip_to diff mids cs)) where
    IsAnswer-resume :
        (skip_to diff : ℕ) (mids : List ℕ) (r : Found)
        → IsAnswer d (suc line) cs r
        → IsAnswer d line
            (c ∷ cs)
            (resume n (λ e. search d b recurse (suc line) (suc e) diff mids cs) r)
    IsAnswer-resume skip_to diff mids (ok none) h = absurd h
    IsAnswer-resume skip_to diff mids (ok (some (e, m))) h =
        IsAnswer-suc d line c cs _ (ih (suc e) diff mids)
    IsAnswer-resume skip_to diff mids (err f) h = tt
    IsAnswer-resume skip_to diff mids panic h = absurd h

    IsAnswer-begin :
        (skip_to diff : ℕ) (mids : List ℕ)
        → IsAnswer d line (c ∷ cs) (after_role is_begin n line skip_to diff mids cs)
    unfolding after_role
    IsAnswer-begin skip_to diff mids = elim (Bool-cases recurse) [
      | inl e ↦ rw e (rw (← e) (IsAnswer-resume skip_to diff mids _ (ih (suc line) 0 [])))
      | inr e ↦ rw e tt
    ]

    IsAnswer-role :
        (skip_to diff : ℕ) (mids : List ℕ) (r : Role)
        → role d b (ltb 0 diff) n ≡ r
        → IsAnswer d line (c ∷ cs) (after_role r n line skip_to diff mids cs)
    unfolding after_role
    IsAnswer-role skip_to diff mids opens_block p =
        IsAnswer-suc d line c cs _ (ih skip_to (suc diff) mids)
    IsAnswer-role skip_to diff mids is_middle p =
        IsAnswer-suc d line c cs _ (ih skip_to diff (mids ++ line ∷ []))
    IsAnswer-role skip_to diff mids closes_block p =
        IsAnswer-suc d line c cs _ (ih skip_to (diff - 1) mids)
    IsAnswer-role skip_to diff mids is_end p =
        (0, omega arith, omega arith, (n, named, is_end-contains (ltb 0 diff) n p))
    IsAnswer-role skip_to diff mids is_begin p = IsAnswer-begin skip_to diff mids
    IsAnswer-role skip_to diff mids is_other p = IsAnswer-suc d line c cs _ (ih skip_to diff mids)

  IsAnswer-search :
      (line skip_to diff : ℕ) (mids : List ℕ) (cs : List CommandPrototype)
      → IsAnswer d line cs (search d b recurse line skip_to diff mids cs)
  IsAnswer-search line skip_to diff mids [] = unfold search in tt
  IsAnswer-search line skip_to diff mids (c ∷ cs) =
      let ih = λ (s k : ℕ) (m : List ℕ). IsAnswer-search (suc line) s k m cs in
      elim (round_cases line skip_to diff mids c cs) [
        | inl e ↦ rw e (IsAnswer-suc d line c cs _ (ih skip_to diff mids))
        | inr (n, named, e) ↦
            rw e
              (IsAnswer-role line c cs n named ih skip_to diff mids (role d b (ltb 0 diff) n) refl)
      ]

-- For any lists of names and any commands, the search returns an error or the line of a command at or
-- below the line where it starts, within the list, whose name is among the ends: `Ok(None)` is never
-- returned.
pub IsAnswer-command_search :
    (d : Defs) (b : Blocks) (from : ℕ) (recurse : Bool) (commands : List CommandPrototype)
    → IsAnswer d from (drop from commands) (command_search d b from recurse commands)
unfolding command_search
IsAnswer-command_search d b from recurse commands = elim (Bool-cases (is_empty d.begins)) [
  | inl e ↦ rw e tt
  | inr e ↦ elim (Bool-cases (is_empty d.ends)) [
    | inl e' ↦ rw (e, e') tt
    | inr e' ↦ rw (e, e') (IsAnswer-search d b recurse from from 0 [] (drop from commands))
  ]
]
