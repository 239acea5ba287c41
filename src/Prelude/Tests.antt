-- ===== src/Prelude/Tests.antt =====
-- Boolean tests, the conditional, and equality as an interface.
use Prim.Native.Nat.{ℕ, ◌≤◌, ◌<◌, compare, Ordering}
use Prim.Native.String.{String}
use mathlib.Core.Path.{◌≡◌, refl}
use mathlib.Core.Logic.{◌↔◌, ◌⊎◌, inl, inr}
use mathlib.Core.Bool.{Bool, true, false, ◌&&◌, ◌||◌}
use mathlib.Core.List.{List, [], ◌∷◌}
use mathlib.Core.Option.{Option, none, some}
use native.Mathlib.Omega.{arith}
use text.Mathlib.Text.{◌==◌ as text_beq}
use text.Mathlib.TextEquality.{eq_iff}

abbrev pub ltb : ℕ → ℕ → Bool
ltb a b = elim (compare a b) [ Ordering.lt ↦ true | _ ↦ false ]

abbrev pub leb : ℕ → ℕ → Bool
leb a b = elim (compare a b) [ Ordering.gt ↦ false | _ ↦ true ]

abbrev pub eqb : ℕ → ℕ → Bool
eqb a b = elim (compare a b) [ Ordering.eq ↦ true | _ ↦ false ]

infix 1 if◌then◌else◌
abbrev pub if◌then◌else◌ {ℓ} : {A : Type ℓ} → Bool → A → A → A
if true then x else y = x
if false then x else y = y

pub ltb→lt : (a b : ℕ) → ltb a b ≡ true → a < b
ltb→lt a b h = ground arith

pub lt→ltb : (a b : ℕ) → a < b → ltb a b ≡ true
lt→ltb a b h = ground arith

pub le→not_ltb : (a b : ℕ) → b ≤ a → ltb a b ≡ false
le→not_ltb a b h = ground arith

pub eqb_iff : (a b : ℕ) → (eqb a b ≡ true) ↔ (a ≡ b)
eqb_iff a b = ground arith

-- To split on a computed value and keep the equation.
pub Bool-cases : (b : Bool) → (b ≡ true) ⊎ (b ≡ false)
Bool-cases true = inl refl
Bool-cases false = inr refl

pub Option-cases {ℓ} : {A : Type ℓ} (o : Option A) → (o ≡ none) ⊎ ((a : A) × (o ≡ some a))
Option-cases none = inl refl
Option-cases (some a) = inr (a, refl)

-- Rust's `PartialEq` on keys and names.
pub record PartialEq {ℓ} (T : Type ℓ) : Type ℓ where
  pub test : T → T → Bool
  pub agrees : (x y : T) → (test x y ≡ true) ↔ (x ≡ y)

infix 50 ◌==◌
module _ {ℓ} {T : Type ℓ} where
  abbrev pub ◌==◌ : ⦃same : PartialEq T⦄ → T → T → Bool
  ◌==◌ ⦃same⦄ = same.test

pub eq_self {ℓ} : {A : Type ℓ} ⦃e : PartialEq A⦄ (a : A) → (a == a) ≡ true
eq_self ⦃e⦄ a = (e.agrees a a).1 refl

instance abbrev pub nat_eq : PartialEq ℕ
nat_eq = record { test = eqb; agrees = eqb_iff }

instance abbrev pub string_eq : PartialEq String
string_eq = record { test = text_beq; agrees = eq_iff }

abbrev pub pair_beq : String × String → String × String → Bool
pair_beq (a, b) (c, d) = text_beq a c && text_beq b d

pub pair_beq_iff : (p q : String × String) → (pair_beq p q ≡ true) ↔ (p ≡ q)
pair_beq_iff (a, b) (c, d) =
    (λ h. ground (arith, eq_iff a c, eq_iff b d), λ h. ground (arith, eq_iff a c, eq_iff b d))

instance abbrev pub pair_eq : PartialEq (String × String)
pair_eq = record { test = pair_beq; agrees = pair_beq_iff }

-- `Vec::contains`
abbrev pub contains {ℓ} : {A : Type ℓ} ⦃e : PartialEq A⦄ → List A → A → Bool
contains [] a = false
contains ⦃e⦄ (x ∷ xs) a = (x == a) || contains ⦃e = e⦄ xs a
