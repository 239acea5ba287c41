-- ===== src/Query/Pack/Mapped.antt =====
-- What the mappings of a query pick from the selected entities.
use outcome.Prelude.{
  ℕ, String, Bool, true, false, ◌&&◌, ◌||◌, List, [], ◌∷◌, Option, none, some, string_eq, nat_eq,
  pair_eq, pair_beq, pair_beq_iff, ◌==◌, ◌≡◌, refl, sym, ap, ◌∙◌, contains, if◌then◌else◌, arith,
  Bool-cases, inl, inr, eqb_iff, eq_self,
}
use mathlib.Core.Path.{subst}
use outcome.Prelude.Assoc
use outcome.Prelude.Assoc.{Assoc, keys, get-insert}
use outcome.Prelude.Result.{ok}
use outcome.Data.{Var, StorageIndex}
use outcome.Std.{Std}
use outcome.Storage.{Storage}
use outcome.Var.{get_type}
use outcome.Entity.{Entity}
use outcome.Query
use outcome.Query.{
  Native, native_eq, native_beq_iff, type_eq, QueryProduct, Description, Layout, Filter, Trigger,
}
use outcome.Query.Select.{apply_filters}
use outcome.Query.Pack.{
  map_vars, map_entity, map_components, apply_mappings, map_selected, pack, process,
}

-- A variable that passes the test is picked, whatever was picked before.
abbrev pub pick :
    (String → String → Var → Bool) → String → String → Option Var → Option Var → Option Var
pick p c n none before = before
pick p c n (some v) before = if p c n v then some v else before

-- No key stands twice.
abbrev pub UniqueKeys : Storage → Type 0
UniqueKeys [] = Unit
UniqueKeys ((k, v) ∷ s) = (Assoc.get k s ≡ none) × UniqueKeys s

-- The variable of an entity that may not be there.
abbrev pub var_of : Option Entity → String → String → Option Var
var_of none c n = none
var_of (some ent) c n = Assoc.get (c, n) ent.storage

-- The variables found once an entry was looked at.
abbrev looked_at :
    (String → String → Var → Bool) → ℕ → String → String → Var → Assoc Native Var → Assoc Native Var
looked_at p id d m v found = if p d m v then Assoc.insert (id, d, m) v found else found

get-looked_at_other :
    (p : String → String → Var → Bool) (id j : ℕ) (c n d m : String) (v : Var)
    (found : Assoc Native Var)
    → pair_beq (d, m) (c, n) ≡ false
    → Assoc.get (j, c, n) (looked_at p id d m v found) ≡ Assoc.get (j, c, n) found
get-looked_at_other p id j c n d m v found h =
    ground (arith, get-insert (id, d, m) (j, c, n) v found)

get-looked_at_same :
    (p : String → String → Var → Bool) (id j : ℕ) (c n : String) (v : Var)
    (found : Assoc Native Var)
    → Assoc.get (j, c, n) (looked_at p id c n v found) ≡ (
        if id == j
        then (if p c n v then some v else Assoc.get (j, c, n) found)
        else Assoc.get (j, c, n) found)
get-looked_at_same p id j c n v found =
    ground (arith, get-insert (id, c, n) (j, c, n) v found, eq_self c, eq_self n)

-- The first entry of a storage, and what is picked from the others.
abbrev FirstEntry :
    (String → String → Var → Bool)
    → ℕ
    → ℕ
    → String
    → String
    → Var
    → Option Var
    → Assoc Native Var
    → StorageIndex
    → Type 0
FirstEntry p id j c n v rest found (d, m) =
    (if id == j
      then pick p c n rest (Assoc.get (j, c, n) (looked_at p id d m v found))
      else Assoc.get (j, c, n) (looked_at p id d m v found))
    ≡ (if id == j
        then pick p c n (if pair_beq (d, m) (c, n) then some v else rest)
            (Assoc.get (j, c, n) found)
        else Assoc.get (j, c, n) found)

first_entry :
    (p : String → String → Var → Bool) (id j : ℕ) (c n d m : String) (v : Var) (rest : Option Var)
    (found : Assoc Native Var)
    → (pair_beq (d, m) (c, n) ≡ true → rest ≡ none)
    → FirstEntry p id j c n v rest found (d, m)
first_entry p id j c n d m v rest found fresh = elim (Bool-cases (pair_beq (d, m) (c, n))) [
  | inl e ↦
      subst (λ k. FirstEntry p id j c n v rest found k) (sym ((pair_beq_iff (d, m) (c, n)).0 e))
        (rw (fresh e, get-looked_at_same p id j c n v found, (pair_beq_iff (c, n) (c, n)).1 refl)
          (ground arith))
  | inr e ↦ rw (get-looked_at_other p id j c n d m v found e, e) refl
]

get-map_vars :
    (p : String → String → Var → Bool) (id j : ℕ) (c n : String) (s : Storage)
    (found : Assoc Native Var)
    → UniqueKeys s
    → Assoc.get (j, c, n) (map_vars p id s found) ≡ (
        if id == j
        then pick p c n (Assoc.get (c, n) s) (Assoc.get (j, c, n) found)
        else Assoc.get (j, c, n) found)
unfolding map_vars Assoc.get
get-map_vars p id j c n [] found u = ground arith
get-map_vars p id j c n (((d, m), v) ∷ s) found (fresh, u) =
    get-map_vars p id j c n s (looked_at p id d m v found) u
    ∙ first_entry p id j c n d m v (Assoc.get (c, n) s) found
        (λ e. ap (λ k. Assoc.get k s) (sym ((pair_beq_iff (d, m) (c, n)).0 e)) ∙ fresh)

-- The entity, where it is there, has no variable twice.
abbrev pub HasUniqueKeys : Option Entity → Type 0
HasUniqueKeys none = Unit
HasUniqueKeys (some ent) = UniqueKeys ent.storage

-- The variables found for an entity: those that pass the test are picked.
abbrev Picks :
    (String → String → Var → Bool)
    → ℕ
    → Option Entity
    → Assoc Native Var
    → Assoc Native Var
    → Type 0
Picks p id ent found found' =
    (j : ℕ) (c n : String)
    → Assoc.get (j, c, n) found' ≡ (
        if id == j
        then pick p c n (var_of ent c n) (Assoc.get (j, c, n) found)
        else Assoc.get (j, c, n) found)

map_entity-Picks :
    (p : String → String → Var → Bool) (id : ℕ) (ent : Option Entity) (found : Assoc Native Var)
    → HasUniqueKeys ent
    → Picks p id ent found (map_entity p id ent found)
unfolding map_entity
map_entity-Picks p id none found u = λ j c n. ground arith
map_entity-Picks p id (some ent) found u = λ j c n. get-map_vars p id j c n ent.storage found u

pick_none : (c n : String) (o before : Option Var) → pick (λ c n v. false) c n o before ≡ before
pick_none c n none before = refl
pick_none c n (some v) before = refl

pick_or :
    (p q : String → String → Var → Bool) (c n : String) (o before : Option Var)
    → pick q c n o (pick p c n o before) ≡ pick (λ c n v. p c n v || q c n v) c n o before
pick_or p q c n none before = refl
pick_or p q c n (some v) before = ground arith

Picks-none :
    (id : ℕ) (ent : Option Entity) (found : Assoc Native Var)
    → Picks (λ c n v. false) id ent found found
Picks-none id ent found j c n =
    ground (arith, pick_none c n (var_of ent c n) (Assoc.get (j, c, n) found))

-- One test after another picks what passes either.
Picks-or :
    (p q : String → String → Var → Bool) (id : ℕ) (ent : Option Entity)
    (found found' found'' : Assoc Native Var)
    → Picks p id ent found found'
    → Picks q id ent found' found''
    → Picks (λ c n v. p c n v || q c n v) id ent found found''
Picks-or p q id ent found found' found'' hp hq j c n = hq j c n ∙ elim (Bool-cases (id == j)) [
  | inl e ↦ rw (e, hp j c n, e) (pick_or p q c n (var_of ent c n) (Assoc.get (j, c, n) found))
  | inr e ↦ rw (e, hp j c n, e) refl
]

-- Is the component one of these?
abbrev pub is_listed : List String → String → Bool
is_listed [] c = false
is_listed (d ∷ cs) c = (c == d) || is_listed cs c

map_components-Picks :
    (cs : List String) (id : ℕ) (ent : Option Entity) (found : Assoc Native Var)
    → HasUniqueKeys ent
    → Picks (λ c n v. is_listed cs c) id ent found (map_components cs id ent found)
unfolding map_components
map_components-Picks [] id ent found u = Picks-none id ent found
map_components-Picks (d ∷ cs) id ent found u =
    let found' = map_entity (λ c n v. c == d) id ent found in
    Picks-or (λ c n v. c == d) (λ c n v. is_listed cs c) id ent found found'
      (map_components cs id ent found') (map_entity-Picks (λ c n v. c == d) id ent found u)
      (map_components-Picks cs id ent found' u)

-- The variables that one of the mappings asks for.
abbrev pub wants : List Query.Map → String → String → Var → Bool
wants [] c n v = false
wants (Query.Map.all ∷ ms) c n v = true
wants (Query.Map.var t m ∷ ms) c n v = ((get_type v == t) && (n == m)) || wants ms c n v
wants (Query.Map.var_name m ∷ ms) c n v = (n == m) || wants ms c n v
wants (Query.Map.components cs ∷ ms) c n v = is_listed cs c || wants ms c n v
wants (Query.Map.select_addr ∷ ms) c n v = wants ms c n v
wants (Query.Map.var_type ∷ ms) c n v = wants ms c n v

-- No mapping that is not implemented stands in front of an `All`.
abbrev pub Supported : List Query.Map → Type 0
Supported [] = Unit
Supported (Query.Map.all ∷ ms) = Unit
Supported (Query.Map.var t m ∷ ms) = Supported ms
Supported (Query.Map.var_name m ∷ ms) = Supported ms
Supported (Query.Map.components cs ∷ ms) = Supported ms
Supported (Query.Map.select_addr ∷ ms) = ⊥
Supported (Query.Map.var_type ∷ ms) = ⊥

abbrev Applied : List Query.Map → ℕ → Option Entity → Assoc Native Var → Type 0
Applied ms id ent found =
    (found' : Assoc Native Var) × (apply_mappings ms id ent found ≡ ok found')
    × Picks (wants ms) id ent found found'

-- A mapping that is implemented, and the ones after it.
then_apply :
    (p : String → String → Var → Bool) (ms : List Query.Map) (id : ℕ) (ent : Option Entity)
    (found found' : Assoc Native Var)
    → Picks p id ent found found'
    → Applied ms id ent found'
    → (found'' : Assoc Native Var) × (apply_mappings ms id ent found' ≡ ok found'')
      × Picks (λ c n v. p c n v || wants ms c n v) id ent found found''
then_apply p ms id ent found found' picked (found'', done, rest) =
    (found'', done, Picks-or p (wants ms) id ent found found' found'' picked rest)

applied :
    (ms : List Query.Map) (id : ℕ) (ent : Option Entity) (found : Assoc Native Var)
    → Supported ms
    → HasUniqueKeys ent
    → Applied ms id ent found
unfolding apply_mappings
applied [] id ent found s u = (found, refl, Picks-none id ent found)
applied (Query.Map.all ∷ ms) id ent found s u =
    (map_entity (λ c n v. true) id ent found, refl, map_entity-Picks (λ c n v. true) id ent found u)
applied (Query.Map.var t m ∷ ms) id ent found s u =
    let p = λ (c n : String) (v : Var). (get_type v == t) && (n == m) in
    then_apply p ms id ent found (map_entity p id ent found) (map_entity-Picks p id ent found u)
      (applied ms id ent (map_entity p id ent found) s u)
applied (Query.Map.var_name m ∷ ms) id ent found s u =
    let p = λ (c n : String) (v : Var). n == m in
    then_apply p ms id ent found (map_entity p id ent found) (map_entity-Picks p id ent found u)
      (applied ms id ent (map_entity p id ent found) s u)
applied (Query.Map.components cs ∷ ms) id ent found s u =
    then_apply (λ c n v. is_listed cs c) ms id ent found (map_components cs id ent found)
      (map_components-Picks cs id ent found u)
      (applied ms id ent (map_components cs id ent found) s u)
applied (Query.Map.select_addr ∷ ms) id ent found s u = absurd s
applied (Query.Map.var_type ∷ ms) id ent found s u = absurd s

pick_again :
    (p : String → String → Var → Bool) (c n : String) (o before : Option Var)
    → pick p c n o (pick p c n o before) ≡ pick p c n o before
pick_again p c n none before = refl
pick_again p c n (some v) before = ground arith

module _ (entities : Assoc ℕ Entity) (ms : List Query.Map) (supported : Supported ms)
    (unique : (id : ℕ) → HasUniqueKeys (Assoc.get id entities)) where
  -- What is picked for a variable of one entity.
  abbrev picked : ℕ → String → String → Option Var → Option Var
  picked j c n before = pick (wants ms) c n (var_of (Assoc.get j entities) c n) before

  -- What is found once the selected entities were gone through.
  abbrev Selects : List ℕ → Assoc Native Var → Assoc Native Var → Type 0
  Selects ids found found' =
      (j : ℕ) (c n : String)
      → Assoc.get (j, c, n) found' ≡ (
          if contains ids j
          then picked j c n (Assoc.get (j, c, n) found)
          else Assoc.get (j, c, n) found)

  picked_first :
      (id j : ℕ) (c n : String) (ids : List ℕ) (before between : Option Var)
      → between ≡ (if id == j then picked id c n before else before)
      → (if contains ids j then picked j c n between else between)
        ≡ (if contains (id ∷ ids) j then picked j c n before else before)
  picked_first id j c n ids before between h = elim (Bool-cases (id == j)) [
    | inr e ↦ rw (h, e) refl
    | inl e ↦
        rw (h, e, (eqb_iff id j).0 e)
          (elim (Bool-cases (contains ids j)) [
            | inl there ↦
                rw there (pick_again (wants ms) c n (var_of (Assoc.get j entities) c n) before)
            | inr gone ↦ rw gone refl
          ])
  ]

  map_selected-Selects :
      (ids : List ℕ) (found : Assoc Native Var)
      → (found' : Assoc Native Var) × (map_selected entities ms ids found ≡ ok found')
        × Selects ids found found'
  unfolding map_selected
  map_selected-Selects [] found = (found, refl, λ j c n. refl)
  map_selected-Selects (id ∷ ids) found =
      let (found', done, one) = applied ms id (Assoc.get id entities) found supported (unique id) in
      let (found'', rest, others) = map_selected-Selects ids found' in
      (
        found'',
        rw done rest,
        λ j c n.
            others j c n
            ∙ picked_first id j c n ids (Assoc.get (j, c, n) found) (Assoc.get (j, c, n) found')
                (one j c n),
      )

  -- A query for variables described by their place gives, for each place, the variable that stands there, if
  -- its entity was selected and one of the mappings asks for it, and nothing else. It is supposed that the
  -- filters select, that the mappings are implemented, and that no variable stands twice in an entity.
  pub get-process :
      ⦃std : Std⦄ (trigger : Trigger) (fs : List Filter) (names : Assoc String ℕ)
      (selected : List ℕ)
      → apply_filters entities names fs (keys entities) ≡ ok selected
      → (found : Assoc Native Var) × (process
            (record {
              trigger = trigger;
              description = Description.native_described;
              layout = Layout.var;
              filters = fs;
              mappings = ms;
            })
            entities
            names
          ≡ ok (QueryProduct.native_addressed_var found))
        × ((j : ℕ) (c n : String)
            → Assoc.get (j, c, n) found ≡ (
                if contains selected j
                then pick (wants ms) c n (var_of (Assoc.get j entities) c n) none
                else none))
  unfolding process pack Assoc.get
  get-process trigger fs names selected h =
      let (found, done, all) = map_selected-Selects selected [] in (found, rw (h, done) refl, all)
