-- ===== src/Machine/Search/Offset.antt =====
-- The search in commands that stand below others.
use outcome.Prelude.{
  ℕ, zero, suc, ◌+◌, ◌-◌, ◌≡◌, refl, sym, ap, ◌∙◌, Bool, true, false, List, [], ◌∷◌, ◌++◌, none,
  some, length, drop, arith, string_eq, ltb, inl, inr, Bool-cases, Option-cases, String,
}
use outcome.Prelude.Result.{ok, err, panic}
use outcome.Machine.{CommandPrototype}
use outcome.Machine.Search.{
  Defs, Blocks, Found, Role, opens_block, is_middle, closes_block, is_end, is_begin, is_other, role,
  search, command_search, is_empty,
}
use outcome.Machine.Search.Bounds.{resume, after_role}

abbrev pub shift_lines : ℕ → List ℕ → List ℕ
shift_lines o [] = []
shift_lines o (l ∷ ls) = (l + o) ∷ shift_lines o ls

shift_lines-++ :
    (o : ℕ) (ls ms : List ℕ) → shift_lines o (ls ++ ms) ≡ shift_lines o ls ++ shift_lines o ms
shift_lines-++ o [] ms = refl
shift_lines-++ o (l ∷ ls) ms = ap (λ rest. (l + o) ∷ rest) (shift_lines-++ o ls ms)

-- The answer, with its lines further down.
abbrev pub shift : ℕ → Found → Found
shift o (ok none) = ok none
shift o (ok (some (e, m))) = ok (some (e + o, shift_lines o m))
shift o (err failure) = err failure
shift o panic = panic

module _ (d : Defs) (b : Blocks) (recurse : Bool) (o : ℕ) where
  abbrev Shifts : List CommandPrototype → Type 0
  Shifts cs =
      (line skip_to diff : ℕ) (mids : List ℕ) (line' skip_to' : ℕ) (mids' : List ℕ)
      → line' ≡ line + o
      → skip_to' ≡ skip_to + o
      → mids' ≡ shift_lines o mids
      → search d b recurse line' skip_to' diff mids' cs
        ≡ shift o (search d b recurse line skip_to diff mids cs)

  resume-shift :
      (n : String) (cs : List CommandPrototype) (line diff : ℕ) (mids : List ℕ) (line' : ℕ)
      (mids' : List ℕ) (r r' : Found)
      → Shifts cs
      → line' ≡ line + o
      → mids' ≡ shift_lines o mids
      → r' ≡ shift o r
      → resume n (λ e. search d b recurse (suc line') (suc e) diff mids' cs) r'
        ≡ shift o (resume n (λ e. search d b recurse (suc line) (suc e) diff mids cs) r)
  resume-shift n cs line diff mids line' mids' (ok none) r' ih l m h = rw (h) refl
  resume-shift n cs line diff mids line' mids' (ok (some (e, x))) r' ih l m h = rw (h) (
      ih (suc line) (suc e) diff mids (suc line') (suc (e + o)) mids' (omega (arith, l))
        (omega arith) m)
  resume-shift n cs line diff mids line' mids' (err f) r' ih l m h = rw (h) refl
  resume-shift n cs line diff mids line' mids' panic r' ih l m h = rw (h) refl

  after_role-shift :
      (n : String) (cs : List CommandPrototype) (line skip_to diff : ℕ) (mids : List ℕ)
      (line' skip_to' : ℕ) (mids' : List ℕ) (r : Role)
      → Shifts cs
      → line' ≡ line + o
      → skip_to' ≡ skip_to + o
      → mids' ≡ shift_lines o mids
      → after_role d b recurse r n line' skip_to' diff mids' cs
        ≡ shift o (after_role d b recurse r n line skip_to diff mids cs)
  unfolding after_role
  after_role-shift n cs line skip_to diff mids line' skip_to' mids' opens_block ih l s m =
      ih (suc line) skip_to (suc diff) mids (suc line') skip_to' mids' (omega (arith, l)) s m
  after_role-shift n cs line skip_to diff mids line' skip_to' mids' is_middle ih l s m =
      ih (suc line) skip_to diff (mids ++ line ∷ []) (suc line') skip_to' (mids' ++ line' ∷ [])
        (omega (arith, l)) s (rw (shift_lines-++, m, l) refl)
  after_role-shift n cs line skip_to diff mids line' skip_to' mids' closes_block ih l s m =
      ih (suc line) skip_to (diff - 1) mids (suc line') skip_to' mids' (omega (arith, l)) s m
  after_role-shift n cs line skip_to diff mids line' skip_to' mids' is_end ih l s m = rw (l, m) refl
  after_role-shift n cs line skip_to diff mids line' skip_to' mids' is_begin ih l s m =
      elim (Bool-cases recurse) [
        | inl e ↦ rw (e) (
            rw (← e) (
              resume-shift n cs line diff mids line' mids' _ _ ih l m (
                ih (suc line) (suc line) 0 [] (suc line') (suc line') [] (omega (arith, l))
                  (omega (arith, l)) refl)))
        | inr e ↦ rw (e) refl
      ]
  after_role-shift n cs line skip_to diff mids line' skip_to' mids' is_other ih l s m =
      ih (suc line) skip_to diff mids (suc line') skip_to' mids' (omega (arith, l)) s m

  search-named :
      (line skip_to diff : ℕ) (mids : List ℕ) (c : CommandPrototype) (cs : List CommandPrototype)
      (n : String)
      → ltb line skip_to ≡ false
      → c.name ≡ some n
      → search d b recurse line skip_to diff mids (c ∷ cs)
        ≡ after_role d b recurse (role d b (ltb 0 diff) n) n line skip_to diff mids cs
  unfolding search after_role
  search-named line skip_to diff mids c cs n seen named = ground arith

  search-skipped :
      (line skip_to diff : ℕ) (mids : List ℕ) (c : CommandPrototype) (cs : List CommandPrototype)
      → ltb line skip_to ≡ true
      → search d b recurse line skip_to diff mids (c ∷ cs)
        ≡ search d b recurse (suc line) skip_to diff mids cs
  unfolding search
  search-skipped line skip_to diff mids c cs skipped = ground arith

  search-unnamed :
      (line skip_to diff : ℕ) (mids : List ℕ) (c : CommandPrototype) (cs : List CommandPrototype)
      → c.name ≡ none
      → search d b recurse line skip_to diff mids (c ∷ cs)
        ≡ search d b recurse (suc line) skip_to diff mids cs
  unfolding search
  search-unnamed line skip_to diff mids c cs unnamed = ground arith

  search-shift : (cs : List CommandPrototype) → Shifts cs
  search-shift [] line skip_to diff mids line' skip_to' mids' l s m = unfold search in refl
  search-shift (c ∷ cs) line skip_to diff mids line' skip_to' mids' l s m =
      let next =
        search-shift cs (suc line) skip_to diff mids (suc line') skip_to' mids' (omega (arith, l)) s
          m in
      elim (Bool-cases (ltb line skip_to)) [
        | inl skipped ↦
            let skipped' : ltb line' skip_to' ≡ true = ground (arith, l, s) in
            search-skipped line' skip_to' diff mids' c cs skipped'
            ∙ (next ∙ ap (shift o) (sym (search-skipped line skip_to diff mids c cs skipped)))
        | inr seen ↦ elim (Option-cases c.name) [
          | inl unnamed ↦
              search-unnamed line' skip_to' diff mids' c cs unnamed
              ∙ (next ∙ ap (shift o) (sym (search-unnamed line skip_to diff mids c cs unnamed)))
          | inr (n, named) ↦
              let seen' : ltb line' skip_to' ≡ false = ground (arith, l, s) in
              search-named line' skip_to' diff mids' c cs n seen' named
              ∙ (after_role-shift n cs line skip_to diff mids line' skip_to' mids'
                    (role d b (ltb 0 diff) n) (search-shift cs) l s m
                  ∙ ap (shift o) (sym (search-named line skip_to diff mids c cs n seen named)))
        ]
      ]

drop-++ :
    (pre cs : List CommandPrototype) (from k : ℕ)
    → k ≡ from + length pre
    → drop k (pre ++ cs) ≡ drop from cs
drop-++ [] cs from k e = ap (λ n. drop n cs) (omega (arith, e))
drop-++ (p ∷ pre) cs from zero e = absurd (omega (arith, e))
drop-++ (p ∷ pre) cs from (suc k) e = drop-++ pre cs from k (omega (arith, e))

-- The search in commands that stand below others returns what it returns without them, with its lines as
-- far down as they reach.
pub command_search-shift :
    (d : Defs) (b : Blocks) (from : ℕ) (recurse : Bool) (pre cs : List CommandPrototype)
    → command_search d b (from + length pre) recurse (pre ++ cs)
      ≡ shift (length pre) (command_search d b from recurse cs)
unfolding command_search
command_search-shift d b from recurse pre cs = elim (Bool-cases (is_empty d.begins)) [
  | inl e ↦ rw e refl
  | inr e ↦ elim (Bool-cases (is_empty d.ends)) [
    | inl e' ↦ rw (e, e') refl
    | inr e' ↦
        rw (e, e', drop-++ pre cs from (from + length pre) refl)
          (search-shift d b recurse (length pre) (drop from cs) from from 0 [] _ _ [] refl refl
            refl)
  ]
]
