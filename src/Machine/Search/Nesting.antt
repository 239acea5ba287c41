-- ===== src/Machine/Search/Nesting.antt =====
-- On a well nested body the search ends at the end of its block and lists the middle parts of it.
use outcome.Prelude.{
  ℕ, suc, ◌+◌, ◌-◌, ◌≤◌, ◌≡◌, ◌⊎◌, refl, sym, ap, ◌∙◌, String, true, false, List, [], ◌∷◌, ◌++◌,
  append_assoc, none, some, length, arith, drop-append, length-append, append-nil,
}
use outcome.Prelude.Result.{ok}
use outcome.Machine.{CommandPrototype}
use outcome.Machine.Search.{
  Defs, Blocks, Role, opens_block, is_middle, closes_block, is_end, is_begin, is_other, role,
  search, command_search, is_empty,
}

-- A body: its items one after the other. A block has its opener, its own body and its closer; a nested
-- structure of the kind that is searched has its beginning, its own body and its end.
pub data Body : Type 0 where
  done : Body
  plain : CommandPrototype → Body → Body
  middle : CommandPrototype → Body → Body
  block : CommandPrototype → Body → CommandPrototype → Body → Body
  nested : CommandPrototype → Body → CommandPrototype → Body → Body

abbrev pub flatten : Body → List CommandPrototype
flatten done = []
flatten (plain c rest) = c ∷ flatten rest
flatten (middle c rest) = c ∷ flatten rest
flatten (block o inner c rest) = o ∷ (flatten inner ++ (c ∷ flatten rest))
flatten (nested o inner c rest) = o ∷ (flatten inner ++ (c ∷ flatten rest))

abbrev pub size : Body → ℕ
size done = 0
size (plain c rest) = suc (size rest)
size (middle c rest) = suc (size rest)
size (block o inner c rest) = suc (size inner + suc (size rest))
size (nested o inner c rest) = suc (size inner + suc (size rest))

pub length-flatten : (body : Body) → length (flatten body) ≡ size body
length-flatten done = refl
length-flatten (plain c rest) = omega (arith, length-flatten rest)
length-flatten (middle c rest) = omega (arith, length-flatten rest)
length-flatten (block o inner c rest) = omega (
  arith,
  length-append (flatten inner) (c ∷ flatten rest),
  length-flatten inner,
  length-flatten rest,
)
length-flatten (nested o inner c rest) = omega (
  arith,
  length-append (flatten inner) (c ∷ flatten rest),
  length-flatten inner,
  length-flatten rest,
)

-- The lines of the middle parts, those inside blocks too, when the body starts on the given line.
abbrev pub middles : ℕ → Body → List ℕ
middles line done = []
middles line (plain c rest) = middles (suc line) rest
middles line (middle c rest) = line ∷ middles (suc line) rest
middles line (block o inner c rest) =
    middles (suc line) inner ++ middles (suc (suc line + size inner)) rest
middles line (nested o inner c rest) = middles (suc (suc line + size inner)) rest

module _ (d : Defs) (b : Blocks) where
  -- The command has that role, whether a block is open or not.
  abbrev pub Plays : Role → CommandPrototype → Type 0
  Plays r c = (n : String) × (c.name ≡ some n) × (role d b true n ≡ r) × (role d b false n ≡ r)

  abbrev pub IsPlain : CommandPrototype → Type 0
  IsPlain c = (c.name ≡ none) ⊎ Plays is_other c

  -- The command ends a block that is open, and else the structure that is searched.
  abbrev pub Closes : CommandPrototype → Type 0
  Closes c =
      (n : String) × (c.name ≡ some n)
      × (role d b true n ≡ closes_block)
      × (role d b false n ≡ is_end)

  abbrev pub IsNested : Body → Type 0
  IsNested done = Unit
  IsNested (plain c rest) = IsPlain c × IsNested rest
  IsNested (middle c rest) = Plays is_middle c × IsNested rest
  IsNested (block o inner c rest) = Plays opens_block o × IsNested inner × Closes c × IsNested rest
  IsNested (nested o inner c rest) = Plays is_begin o × IsNested inner × Closes c × IsNested rest

module _ (d : Defs) (b : Blocks) where
  -- Lines to skip that are behind do not matter.
  search_behind :
      (line skip_to diff : ℕ) (mids : List ℕ) (cs : List CommandPrototype)
      → skip_to ≤ line
      → search d b true line skip_to diff mids cs ≡ search d b true line 0 diff mids cs
  unfolding search
  search_behind line skip_to diff mids [] h = refl
  search_behind line skip_to diff mids (c ∷ cs) h = ground (
    arith,
    search_behind (suc line) skip_to diff mids cs (omega arith),
    search_behind (suc line) skip_to (suc diff) mids cs (omega arith),
    search_behind (suc line) skip_to (diff - 1) mids cs (omega arith),
    search_behind (suc line) skip_to diff (mids ++ line ∷ []) cs (omega arith),
  )

  -- The lines up to the one to skip to are passed over.
  search_ahead :
      (line skip_to diff : ℕ) (mids : List ℕ) (cs tail : List CommandPrototype)
      → line + length cs ≡ skip_to
      → search d b true line skip_to diff mids (cs ++ tail)
        ≡ search d b true skip_to 0 diff mids tail
  unfolding search
  search_ahead line skip_to diff mids [] tail h =
      let e : line ≡ skip_to = omega arith in
      rw e (search_behind skip_to skip_to diff mids tail (omega arith))
  search_ahead line skip_to diff mids (c ∷ cs) tail h =
      ground (arith, search_ahead (suc line) skip_to diff mids cs tail (omega arith))

  module _ (line diff : ℕ) (mids : List ℕ) (c : CommandPrototype) (cs : List CommandPrototype) where
    -- One round of the loop, by the role of the command.
    step_plain :
        IsPlain d b c
        → search d b true line 0 diff mids (c ∷ cs) ≡ search d b true (suc line) 0 diff mids cs
    unfolding search
    step_plain h = ground arith

    step_middle :
        Plays d b is_middle c
        → search d b true line 0 diff mids (c ∷ cs)
          ≡ search d b true (suc line) 0 diff (mids ++ line ∷ []) cs
    unfolding search
    step_middle h = ground arith

    step_open :
        Plays d b opens_block c
        → search d b true line 0 diff mids (c ∷ cs)
          ≡ search d b true (suc line) 0 (suc diff) mids cs
    unfolding search
    step_open h = ground arith

    step_close :
        Closes d b c
        → search d b true line 0 (suc diff) mids (c ∷ cs)
          ≡ search d b true (suc line) 0 diff mids cs
    unfolding search
    step_close h = ground arith

    step_end : Closes d b c → search d b true line 0 0 mids (c ∷ cs) ≡ ok (some (line, mids))
    unfolding search
    step_end h = ground arith

    step_begin :
        (e : ℕ) (m : List ℕ)
        → Plays d b is_begin c
        → search d b true (suc line) (suc line) 0 [] cs ≡ ok (some (e, m))
        → search d b true line 0 diff mids (c ∷ cs)
          ≡ search d b true (suc line) (suc e) diff mids cs
    unfolding search
    step_begin e m h found = ground arith

  -- A well nested body is passed over, and its middle parts are collected.
  search_body :
      (body : Body)
      → IsNested d b body
      → (line e diff : ℕ) (mids : List ℕ) (tail : List CommandPrototype) → line + size body ≡ e
      → search d b true line 0 diff mids (flatten body ++ tail)
        ≡ search d b true e 0 diff (mids ++ middles line body) tail
  search_body done h line e diff mids tail p = let q : line ≡ e = omega arith in rw (q, append-nil)
  search_body (plain c rest) (hc, hr) line e diff mids tail p =
      step_plain line diff mids c (flatten rest ++ tail) hc
      ∙ search_body rest hr (suc line) e diff mids tail (omega arith)
  search_body (middle c rest) (hc, hr) line e diff mids tail p =
      step_middle line diff mids c (flatten rest ++ tail) hc
      ∙ search_body rest hr (suc line) e diff (mids ++ line ∷ []) tail (omega arith)
      ∙ rw append_assoc
  search_body (block o inner c rest) (ho, hi, hc, hr) line e diff mids tail p =
      let m = suc line + size inner in
      rw (append_assoc (flatten inner) (c ∷ flatten rest) tail) (
        step_open line diff mids o _ ho
        ∙ search_body inner hi (suc line) m (suc diff) mids (c ∷ (flatten rest ++ tail)) refl
        ∙ step_close m diff (mids ++ middles (suc line) inner) c (flatten rest ++ tail) hc
        ∙ search_body rest hr (suc m) e diff (mids ++ middles (suc line) inner) tail (omega arith)
        ∙ rw append_assoc)
  search_body (nested o inner c rest) (ho, hi, hc, hr) line e diff mids tail p =
      let m = suc line + size inner in
      let found =
        search_behind (suc line) (suc line) 0 [] (flatten inner ++ (c ∷ (flatten rest ++ tail)))
          (omega arith)
        ∙ search_body inner hi (suc line) m 0 [] (c ∷ (flatten rest ++ tail)) refl
        ∙ step_end m 0 (middles (suc line) inner) c (flatten rest ++ tail) hc in
      rw (append_assoc (flatten inner) (c ∷ flatten rest) tail) (
        step_begin line diff mids o _ m (middles (suc line) inner) ho found
        ∙ ap (search d b true (suc line) (suc m) diff mids)
            (sym (append_assoc (flatten inner) (c ∷ []) (flatten rest ++ tail)))
        ∙ search_ahead (suc line) (suc m) diff mids (flatten inner ++ c ∷ []) (flatten rest ++ tail)
            (omega (arith, length-append (flatten inner) (c ∷ []), length-flatten inner))
        ∙ search_body rest hr (suc m) e diff mids tail (omega arith))

-- Started below a prefix of the commands, above a well nested body, the search returns the line of the
-- command that closes the body, with the lines of the body's middle parts in order. Structures of the
-- searched kind inside the body keep their own ends and middle parts.
pub command_search-flatten :
    (d : Defs) (b : Blocks) (before : List CommandPrototype) (body : Body) (last : CommandPrototype)
    (after : List CommandPrototype)
    → is_empty d.begins ≡ false
    → is_empty d.ends ≡ false
    → IsNested d b body
    → Closes d b last
    → command_search d b (length before) true (before ++ (flatten body ++ (last ∷ after)))
      ≡ ok (some (length before + size body, middles (length before) body))
unfolding command_search
command_search-flatten d b before body last after hb he hn hl =
    let n = length before in
    rw (hb, he, drop-append n before (flatten body ++ (last ∷ after)) refl)
      (search_behind d b n n 0 [] (flatten body ++ (last ∷ after)) (omega arith)
        ∙ search_body d b body hn n (n + size body) 0 [] (last ∷ after) refl
        ∙ step_end d b (n + size body) 0 (middles n body) last after hl)
