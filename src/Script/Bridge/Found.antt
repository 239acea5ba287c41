-- ===== src/Script/Bridge/Found.antt =====
-- What of a block command does not depend on where it stands, and what moves with it.
use mathlib.Core.Option
use outcome.Prelude.{
  ℕ, ◌+◌, ◌≡◌, refl, ap, ◌∙◌, String, true, List, ◌++◌, Option, none, some, length, arith,
}
use outcome.Prelude.Result.{Result, ok, err, panic, ◌>>=◌, value?}
use outcome.Address.Short
use outcome.Data.{Error, ShortLocalAddress}
use outcome.Machine.{LocationInfo, CommandPrototype, MachineError, invalid_block, invalid_address}
use outcome.Machine.Search.{Defs, Found, command_search}
use outcome.Machine.Search.Offset.{shift_lines, shift, command_search-shift}
use outcome.Machine.Flow.Blocks.{find_block, fail, end_names, address_at}

-- The same location, with another line of the commands.
abbrev pub with_line : LocationInfo → ℕ → LocationInfo
with_line location n = record {
  root = location.root;
  source = location.source;
  source_line = location.source_line;
  line = some n;
  tag = location.tag;
  comp_name = location.comp_name;
}

abbrev block_found : LocationInfo → String → Found → Result MachineError (ℕ × List ℕ)
block_found location not_found (ok (some positions)) = ok positions
block_found location not_found (ok none) = fail location not_found
block_found location not_found (err failure) =
    err (record { location = location; kind = invalid_block failure })
block_found location not_found panic = panic

pub value?->>= {ℓ κ μ ν} :
    {E : Type ℓ} {A : Type κ} {B : Type μ} {C : Type ν} (f : A → A) (g g' : B → C)
    (m m' : Result E A) (k k' : A → Result E B)
    → value? m' ≡ Option.map f (value? m)
    → ((a : A) → Option.map g' (value? (k' (f a))) ≡ Option.map g (value? (k a)))
    → Option.map g' (value? (m' >>= k')) ≡ Option.map g (value? (m >>= k))
value?->>= f g g' (ok a) (ok b) k k' e h = let same : b ≡ f a = ground (arith) in rw (same) (h a)
value?->>= f g g' (ok a) (err x) k k' e h = absurd (ground arith)
value?->>= f g g' (ok a) panic k k' e h = absurd (ground arith)
value?->>= f g g' (err x) (ok b) k k' e h = absurd (ground arith)
value?->>= f g g' (err x) (err y) k k' e h = refl
value?->>= f g g' (err x) panic k k' e h = refl
value?->>= f g g' panic (ok b) k k' e h = absurd (ground arith)
value?->>= f g g' panic (err y) k k' e h = refl
value?->>= f g g' panic panic k k' e h = refl

abbrev pub moved : ℕ → ℕ × List ℕ → ℕ × List ℕ
moved o (e, m) = (e + o, shift_lines o m)

-- What `find_block` makes of the answer of the search.
answered :
    (location location' : LocationInfo) (not_found : String) (o : ℕ) (r r' : Found)
    → r' ≡ shift o r
    → value? (block_found location' not_found r')
      ≡ Option.map (moved o) (value? (block_found location not_found r))
answered location location' not_found o (ok none) r' e = rw (e) refl
answered location location' not_found o (ok (some p)) r' e = rw (e) refl
answered location location' not_found o (err f) r' e = rw (e) refl
answered location location' not_found o panic r' e = rw (e) refl

pub find_block-moved :
    (location location' : LocationInfo) (pre commands : List CommandPrototype) (line : ℕ)
    (defs : Defs) (opens : List String) (not_found : String)
    → value? (find_block location' (pre ++ commands) (line + length pre) defs opens not_found)
      ≡ Option.map
          (moved (length pre))
          (value? (find_block location commands line defs opens not_found))
unfolding find_block
find_block-moved location location' pre commands line defs opens not_found =
    answered location location' not_found (length pre)
      (command_search defs (record { opens = opens; closes = end_names }) (line + 1) true commands)
      _
      (ap
          (λ from.
            command_search defs (record { opens = opens; closes = end_names }) from true
              (pre ++ commands))
          (omega arith)
        ∙ command_search-shift defs (record { opens = opens; closes = end_names }) (line + 1) true
            pre commands)

pub same_value {ℓ κ} :
    {E : Type ℓ} {A : Type κ} (m : Result E A) → value? m ≡ Option.map (λ a. a) (value? m)
same_value (ok a) = refl
same_value (err e) = refl
same_value panic = refl

abbrev address_or :
    LocationInfo → Result Error ShortLocalAddress → Result MachineError ShortLocalAddress
address_or location (ok a) = ok a
address_or location (err e) = err (record { location = location; kind = invalid_address e })
address_or location panic = panic

address_value :
    (location location' : LocationInfo) (r : Result Error ShortLocalAddress)
    → value? (address_or location' r) ≡ Option.map (λ a. a) (value? (address_or location r))
address_value location location' (ok a) = refl
address_value location location' (err e) = refl
address_value location location' panic = refl

-- An argument that is an address, or an error.
pub argument_value :
    (location location' : LocationInfo) (argument : Option String)
    (missing missing' : Result MachineError ShortLocalAddress)
    → value? missing ≡ none
    → value? missing' ≡ none
    → value? (elim argument [ some arg ↦ address_at location' arg | none ↦ missing' ])
      ≡ Option.map
          (λ a. a)
          (value? (elim argument [ some arg ↦ address_at location arg | none ↦ missing ]))
argument_value location location' (some arg) missing missing' e e' =
    address_value location location' (Short.from_str arg)
argument_value location location' none missing missing' e e' = rw (e, e') refl

pub no_value :
    (location : LocationInfo) (r : Result MachineError String)
    → value? (r >>= λ text. fail {A = ShortLocalAddress} location text) ≡ none
no_value location (ok text) = refl
no_value location (err e) = refl
no_value location panic = refl
