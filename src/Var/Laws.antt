-- ===== src/Var/Laws.antt =====
-- Values and their texts, types and conversions.
use outcome.Prelude.{◌≤◌, ◌≡◌, refl, Bool, true, false, some, arith, if◌then◌else◌}
use outcome.Prelude.Int.{IsI32}
use outcome.Prelude.Decimal.{parse_unsigned-show_ℕ, parse_i32-show_ℤ}
use outcome.Prelude.Result.{ok}
use outcome.Data.{VarType, Var, nil, cons, no_rows, row}
use outcome.Std.{Std}
use outcome.Var.{default_value, new, get_type}
use outcome.Var.Convert.{to_string, coerce, set_coerce}
use outcome.Var.Parse.{from_str}

-- The values of types that have an exact text: no floats and no containers.
abbrev pub IsExact : Var → Type 0
IsExact (Var.string s) = Unit
IsExact (Var.int i) = IsI32 i
IsExact (Var.bool b) = Unit
IsExact (Var.byte n) = n ≤ 255
IsExact _ = ⊥

module _ ⦃std : Std⦄ where
  -- The text of a string, a boolean, a 32-bit integer or a byte is read back, at the type of the value,
  -- as that value.
  pub from_str-to_string : (v : Var) → IsExact v → from_str (to_string v) (some (get_type v)) ≡ ok v
  from_str-to_string (Var.string s) h = unfold from_str to_string get_type in refl
  from_str-to_string (Var.int i) h = unfold from_str to_string get_type in rw (parse_i32-show_ℤ i h)
  from_str-to_string (Var.bool true) h = unfold from_str to_string get_type in refl
  from_str-to_string (Var.bool false) h = unfold from_str to_string get_type in refl
  from_str-to_string (Var.byte n) h =
      unfold from_str to_string get_type in rw (parse_unsigned-show_ℕ 255 n h)
  from_str-to_string (Var.float f) h = absurd h
  from_str-to_string (Var.vec2 x y) h = absurd h
  from_str-to_string (Var.vec3 x y z) h = absurd h
  from_str-to_string (Var.list vs) h = absurd h
  from_str-to_string (Var.grid rs) h = absurd h
  from_str-to_string (Var.map es) h = absurd h

  -- `v.set_coerce(other)` comes to the same as `other.coerce` at the type of `v`.
  pub set_coerce-coerce : (v other : Var) → set_coerce v other ≡ coerce other (get_type v)
  unfolding set_coerce coerce get_type
  set_coerce-coerce (Var.list nil) other = refl
  set_coerce-coerce (Var.list (cons v vs)) other = ground arith
  set_coerce-coerce (Var.grid no_rows) other = refl
  set_coerce-coerce (Var.grid (row nil rs)) other = refl
  set_coerce-coerce (Var.grid (row (cons v vs) rs)) other = ground arith
  set_coerce-coerce _ other = refl

  -- What a coercion returns has the type that was asked for.
  pub get_type-coerce : (v w : Var) (t : VarType) → coerce v t ≡ ok w → get_type w ≡ t
  unfolding coerce get_type
  get_type-coerce v w VarType.string h = ground arith
  get_type-coerce v w _ h = ground arith

abbrev pub is_grid : VarType → Bool
is_grid VarType.string_grid = true
is_grid VarType.int_grid = true
is_grid VarType.float_grid = true
is_grid VarType.bool_grid = true
is_grid VarType.byte_grid = true
is_grid VarType.vec2_grid = true
is_grid VarType.vec3_grid = true
is_grid VarType.var_grid = true
is_grid _ = false

-- The two ways to make the default value of a type agree at every type but the grids: there
-- `Var::new` makes an empty grid and `VarType::default_value` an empty list.
pub new-default_value :
    (t : VarType)
    → (new t ≡ (if is_grid t then Var.grid no_rows else default_value t))
      × ((if is_grid t then default_value t else Var.list nil) ≡ Var.list nil)
unfolding new default_value
new-default_value VarType.string = ground arith
new-default_value _ = ground arith
