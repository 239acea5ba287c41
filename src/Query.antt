-- ===== src/Query.antt =====
-- Queries over the entities of a simulation: outcome-core/src/query.rs, its data here.
pub mod Select
pub mod Pack
use outcome.Prelude.{
  ℕ, String, Bool, true, false, ◌&&◌, ◌≡◌, ◌↔◌, refl, ap, List, Option, string_eq, nat_eq, ◌==◌,
  PartialEq, arith, eq_iff, eqb_iff,
}
use outcome.Prelude.Assoc.{Assoc}
use outcome.Prelude.Int.{ℤ}
use outcome.Data.{VarType, Var, Float, Address}

pub data Trigger : Type 0 where
  immediate : Trigger
  event : String → Trigger
  mutation : Address → Trigger

-- The addresses of x, y and z, and the greatest distances on each axis.
pub record Point : Type 0 where
  pub x_addr : Address
  pub y_addr : Address
  pub z_addr : Address
  pub dx : Float
  pub dy : Float
  pub dz : Float

-- The filters that `process` does not implement are without what they carry.
pub data Filter : Type 0 where
  all_components : List String → Filter
  name : List String → Filter
  id : List ℕ → Filter
  distance : Point → Filter
  distance_multi_point : List Point → Filter
  some_components var_range attr_range node : Filter

-- So are the mappings.
pub data Map : Type 0 where
  all : Map
  components : List String → Map
  var : VarType → String → Map
  var_name : String → Map
  select_addr var_type : Map

pub data Description : Type 0 where
  native_described addressed string_addressed ordered none : Description

pub data Layout : Type 0 where
  var typed : Layout

pub record Query : Type 0 where
  pub trigger : Trigger
  pub description : Description
  pub layout : Layout
  pub filters : List Filter
  pub mappings : List Map

-- A variable by its entity, component and name.
abbrev pub Native : Type 0
Native = ℕ × String × String

pub record AddressedTypedMap : Type 0 where
  pub strings : Assoc Address String
  pub ints : Assoc Address ℤ
  pub floats : Assoc Address Float
  pub bools : Assoc Address Bool

pub data QueryProduct : Type 0 where
  native_addressed_var : Assoc Native Var → QueryProduct
  addressed_var : Assoc Address Var → QueryProduct
  addressed_typed : AddressedTypedMap → QueryProduct
  ordered_var : ℕ → List Var → QueryProduct
  var : List Var → QueryProduct
  empty : QueryProduct

abbrev pub native_beq : Native → Native → Bool
native_beq (i, c, n) (j, d, m) = (i == j) && ((c == d) && (n == m))

pub native_beq_iff : (p q : Native) → (native_beq p q ≡ true) ↔ (p ≡ q)
native_beq_iff (i, c, n) (j, d, m) = (
  λ h. ground (arith, eqb_iff i j, eq_iff c d, eq_iff n m),
  λ h. ground (arith, eqb_iff i j, eq_iff c d, eq_iff n m),
)

instance abbrev pub native_eq : PartialEq Native
native_eq = record { test = native_beq; agrees = native_beq_iff }

unfoldable pub VarType-discrete : Discrete VarType
VarType-discrete = hlevel

abbrev is_yes {ℓ} : {P : Type ℓ} → Dec P → Bool
is_yes (yes p) = true
is_yes (no p) = false

is_yes_iff {ℓ} : {P : Type ℓ} (d : Dec P) → (is_yes d ≡ true) ↔ P
is_yes_iff (yes p) = (λ h. p, λ q. refl)
is_yes_iff (no p) = (λ h. cc, λ q. absurd (p q))

unfoldable pub type_beq : VarType → VarType → Bool
unfolding VarType-discrete
type_beq a b = is_yes (VarType-discrete a b)

pub type_beq_iff : (a b : VarType) → (type_beq a b ≡ true) ↔ (a ≡ b)
unfolding type_beq
type_beq_iff a b = is_yes_iff (VarType-discrete a b)

instance abbrev pub type_eq : PartialEq VarType
type_eq = record { test = type_beq; agrees = type_beq_iff }

abbrev pub address_beq : Address → Address → Bool
address_beq a b =
    (a.entity == b.entity)
    && ((a.component == b.component) && ((a.var_type == b.var_type) && (a.var_name == b.var_name)))

pub address_beq_iff : (a b : Address) → (address_beq a b ≡ true) ↔ (a ≡ b)
address_beq_iff a b = (
  λ h. ground (
    arith,
    eq_iff a.entity b.entity,
    eq_iff a.component b.component,
    type_beq_iff a.var_type b.var_type,
    eq_iff a.var_name b.var_name,
  ),
  λ h. ground (
    arith,
    eq_iff a.entity b.entity,
    eq_iff a.component b.component,
    type_beq_iff a.var_type b.var_type,
    eq_iff a.var_name b.var_name,
  ),
)

instance abbrev pub address_eq : PartialEq Address
address_eq = record { test = address_beq; agrees = address_beq_iff }
