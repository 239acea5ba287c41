-- ===== src/Query/Select/Deciding.antt =====
-- The tests of the filters, and what they decide.
use outcome.Prelude.{
  ℕ, String, Bool, true, false, not, ◌&&◌, ◌⊎◌, inl, inr, List, [], ◌∷◌, Option, none, some,
  string_eq, nat_eq, ◌≡◌, refl, contains, arith, All, Bool-cases, if◌then◌else◌,
}
use outcome.Prelude.Assoc
use outcome.Prelude.Assoc.{Assoc}
use outcome.Prelude.Result.{Result, ok, err, panic}
use outcome.Data.{Error, Float, Var}
use outcome.Std.{Std}
use outcome.Storage
use outcome.Storage.{Storage}
use outcome.Var.Convert.{to_float}
use outcome.Entity.{Entity}
use outcome.Query.{Point}
use outcome.Query.Select.{keep, has_all, with_components, is_far, is_near}
use outcome.Query.Select.Passing.{
  having, around, Has, Selects, none_left, taken, passed_over, Within, Passes,
}

-- The test tells whether it is so.
abbrev pub Decides : Type 0 → Bool → Type 0
Decides P b = ((b ≡ true) × P) ⊎ ((b ≡ false) × ¬ P)

pub Decides-self : (b : Bool) → Decides (b ≡ true) b
Decides-self b = elim (Bool-cases b) [ inl e ↦ inl (e, e) | inr e ↦ inr (e, λ h. ground arith) ]

Decides-and : (P Q : Type 0) (a b : Bool) → Decides P a → Decides Q b → Decides (P × Q) (a && b)
Decides-and P Q a b (inl (ea, p)) (inl (eb, q)) = inl (ground arith, (p, q))
Decides-and P Q a b (inl (ea, p)) (inr (eb, q)) = inr (ground arith, λ both. q both.1)
Decides-and P Q a b (inr (ea, p)) d = inr (ground arith, λ both. p both.0)

-- A list that is filtered by a test which decides a predicate.
pub keep-Selects :
    (P : ℕ → Type 0) (test : ℕ → Bool)
    → ((id : ℕ) → Decides (P id) (test id))
    → (ids : List ℕ) → Selects P (keep test ids) ids
keep-Selects P test decides [] = none_left
keep-Selects P test decides (id ∷ ids) = elim (decides id) [
  | inl (e, p) ↦ rw (e) (taken p (keep-Selects P test decides ids))
  | inr (e, not_p) ↦ rw (e) (passed_over not_p (keep-Selects P test decides ids))
]

pub Selects-everything : (ids : List ℕ) → Selects (λ id. Unit) ids ids
Selects-everything [] = none_left
Selects-everything (id ∷ ids) = taken tt (Selects-everything ids)

-- One selection after another.
pub Selects-trans :
    (P Q : ℕ → Type 0) {zs ys xs : List ℕ}
    → Selects P ys xs
    → Selects Q zs ys
    → Selects (λ id. P id × Q id) zs xs
Selects-trans P Q none_left none_left = none_left
Selects-trans P Q (taken p h) (taken q k) = taken (p, q) (Selects-trans P Q h k)
Selects-trans P Q (taken p h) (passed_over not_q k) =
    passed_over (λ both. not_q both.1) (Selects-trans P Q h k)
Selects-trans P Q (passed_over not_p h) k =
    passed_over (λ both. not_p both.0) (Selects-trans P Q h k)

has_all-Decides :
    (components desired : List String)
    → Decides (All (λ c. contains components c ≡ true) desired) (has_all components desired)
unfolding has_all
has_all-Decides components [] = inl (refl, tt)
has_all-Decides components (c ∷ cs) =
    Decides-and (contains components c ≡ true) (All (λ c. contains components c ≡ true) cs)
      (contains components c) (has_all components cs) (Decides-self (contains components c))
      (has_all-Decides components cs)

Decides-not : (b : Bool) → Decides (b ≡ false) (not b)
Decides-not true = inr (refl, λ h. ground arith)
Decides-not false = inl (refl, refl)

-- The three tests of a distance, one after another.
Decides-nested :
    (P Q R : Type 0) (a b c : Bool)
    → Decides P (not a)
    → Decides Q (not b)
    → Decides R (not c)
    → Decides (P × (Q × R)) (if a then false else if b then false else not c)
Decides-nested P Q R true b c (inl (e, p)) q r = absurd (ground arith)
Decides-nested P Q R true b c (inr (e, not_p)) q r = inr (refl, λ all. not_p all.0)
Decides-nested P Q R false b c (inr (e, not_p)) q r = absurd (ground arith)
Decides-nested P Q R false true c (inl (e, p)) (inl (e', q)) r = absurd (ground arith)
Decides-nested P Q R false true c (inl (e, p)) (inr (e', not_q)) r =
    inr (refl, λ all. not_q all.1.0)
Decides-nested P Q R false false c (inl (e, p)) (inr (e', not_q)) r = absurd (ground arith)
Decides-nested P Q R false false c (inl (e, p)) (inl (e', q)) (inl (e'', r)) =
    inl (e'', (p, (q, r)))
Decides-nested P Q R false false c (inl (e, p)) (inl (e', q)) (inr (e'', not_r)) =
    inr (e'', λ all. not_r all.1.1)

Decides-Has :
    (P : Entity → Type 0) (test : Entity → Bool) (o : Option Entity)
    → ((ent : Entity) → Decides (P ent) (test ent))
    → Decides (Has P o) (elim o [ none ↦ false | some ent ↦ test ent ])
Decides-Has P test none h = inr (refl, λ impossible. impossible)
Decides-Has P test (some ent) h = h ent

module _ ⦃std : Std⦄ (entities : Assoc ℕ Entity) where
  pub with_components-Decides :
      (desired : List String) (id : ℕ)
      → Decides (Passes entities id (having desired)) (with_components entities desired id)
  unfolding with_components
  with_components-Decides desired id =
      Decides-Has (λ ent. All (λ c. contains ent.components c ≡ true) desired)
        (λ ent. has_all ent.components desired) (Assoc.get id entities)
        (λ ent. has_all-Decides ent.components desired)

  Within-Decides :
      (at most : Float) (r : Result Error Var)
      → Decides (Within at most r) (
          not (elim r [
            | ok v ↦ std.float_gt (std.float_abs (std.float_sub (to_float v) at)) most
            | err e ↦ false
            | panic ↦ false
          ]))
  Within-Decides at most (ok v) =
      Decides-not (std.float_gt (std.float_abs (std.float_sub (to_float v) at)) most)
  Within-Decides at most (err e) = inl (refl, tt)
  Within-Decides at most panic = inl (refl, tt)

  far-Decides :
      (s : Storage) (name : String) (at most : Float)
      → Decides
          (Within at most (Storage.get_var s ("transform", name)))
          (not (is_far s name at most))
  unfolding is_far
  far-Decides s name at most = Within-Decides at most (Storage.get_var s ("transform", name))

  pub near-Decides :
      (p : Point) (x y z : Float) (id : ℕ)
      → Decides
          (Passes entities id (around (x, y, z) (p.dx, p.dy, p.dz)))
          (is_near entities p (x, y, z) id)
  unfolding is_near
  near-Decides p x y z id = Decides-Has _ _ (Assoc.get id entities) (λ ent.
      Decides-nested _ _ _ _ _ _ (far-Decides ent.storage "pos_x" x p.dx)
        (far-Decides ent.storage "pos_y" y p.dy) (far-Decides ent.storage "pos_z" z p.dz))
