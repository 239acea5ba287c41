-- ===== src/Var/Convert.antt =====
-- The conversions between values: `to_int`, `to_float`, `to_bool`, `to_string`, `coerce` and `set_coerce`.
-- Sums of `i32` wrap, as in a release build.
use Prim.Native.String
use outcome.Prelude.{ℕ, ◌+◌, ◌-◌, ◌%◌, ◌^◌, String, Bool, ◌&&◌, ltb, if◌then◌else◌}
use outcome.Prelude.Int.{ℤ, pos, negsuc, as_i32, is_positive}
use outcome.Prelude.Text.{◌⧺◌}
use outcome.Prelude.Decimal.{show_ℕ, show_ℤ}
use outcome.Prelude.Result.{Result, ok, panic}
use outcome.Data.{Float, VarType, Var, Error}
use outcome.Std.{Std, zero_float, one_float, gt_zero}
use outcome.Var.{vars_length, rows_length, entries_length}

-- An `i32` as its residue, and the wrapping sum.
residue : ℤ → ℕ
residue (pos n) = n % 2 ^ 32
residue (negsuc n) = 2 ^ 32 - 1 - n % 2 ^ 32

unfoldable pub add_i32 : ℤ → ℤ → ℤ
unfolding residue as_i32
add_i32 a b = as_i32 (residue a + residue b)

module _ ⦃std : Std⦄ where
  unfoldable pub to_int : Var → ℤ
  unfolding add_i32 as_i32
  to_int (Var.string s) = as_i32 (String.len s)
  to_int (Var.int i) = i
  to_int (Var.float f) = std.float_to_int f
  to_int (Var.bool b) = if b then pos 1 else pos 0
  to_int (Var.byte n) = pos n
  to_int (Var.vec2 x y) = add_i32 (std.float_to_int x) (std.float_to_int y)
  to_int (Var.vec3 x y z) =
      add_i32 (add_i32 (std.float_to_int x) (std.float_to_int y)) (std.float_to_int z)
  to_int (Var.list vs) = as_i32 (vars_length vs)
  to_int (Var.grid rs) = as_i32 (rows_length rs)
  to_int (Var.map es) = as_i32 (entries_length es)

  unfoldable pub to_float : Var → Float
  to_float (Var.string s) = std.float_of_size (String.len s)
  to_float (Var.int i) = std.float_of_int i
  to_float (Var.float f) = f
  to_float (Var.bool b) = if b then one_float else zero_float
  to_float (Var.byte n) = std.float_of_size n
  to_float (Var.vec2 x y) = std.float_add x y
  to_float (Var.vec3 x y z) = std.float_add (std.float_add x y) z
  to_float (Var.list vs) = std.float_of_size (vars_length vs)
  to_float (Var.grid rs) = std.float_of_size (rows_length rs)
  to_float (Var.map es) = std.float_of_size (entries_length es)

  unfoldable pub to_string : Var → String
  unfolding show_ℕ show_ℤ
  to_string (Var.string s) = s
  to_string (Var.int i) = show_ℤ i
  to_string (Var.float f) = std.show_float f
  to_string (Var.bool b) = if b then "true" else "false"
  to_string (Var.byte n) = show_ℕ n
  to_string (Var.vec2 x y) = "x: " ⧺ std.show_float x ⧺ ", y: " ⧺ std.show_float y
  to_string (Var.vec3 x y z) =
      "x: " ⧺ std.show_float x ⧺ ", y: " ⧺ std.show_float y ⧺ ", z: " ⧺ std.show_float z
  to_string v = std.debug v

unfoldable pub to_bool : Var → Bool
to_bool (Var.string s) = ltb 0 (String.len s)
to_bool (Var.int i) = is_positive i
to_bool (Var.float f) = gt_zero f
to_bool (Var.bool b) = b
to_bool (Var.byte n) = ltb 0 n
to_bool (Var.vec2 x y) = gt_zero x && gt_zero y
to_bool (Var.vec3 x y z) = gt_zero x && gt_zero y && gt_zero z
to_bool (Var.list vs) = ltb 0 (vars_length vs)
to_bool (Var.grid rs) = ltb 0 (rows_length rs)
to_bool (Var.map es) = ltb 0 (entries_length es)

module _ ⦃std : Std⦄ where
  -- The other target types are `unimplemented!`.
  unfoldable pub coerce : Var → VarType → Result Error Var
  unfolding to_string to_int to_float to_bool
  coerce v VarType.string = ok (Var.string (to_string v))
  coerce v VarType.int = ok (Var.int (to_int v))
  coerce v VarType.float = ok (Var.float (to_float v))
  coerce v VarType.bool = ok (Var.bool (to_bool v))
  coerce v _ = panic

  -- `v.set_coerce(other)`: the new value of `v`.
  unfoldable pub set_coerce : Var → Var → Result Error Var
  unfolding to_string to_int to_float to_bool
  set_coerce (Var.string _) other = ok (Var.string (to_string other))
  set_coerce (Var.int _) other = ok (Var.int (to_int other))
  set_coerce (Var.float _) other = ok (Var.float (to_float other))
  set_coerce (Var.bool _) other = ok (Var.bool (to_bool other))
  set_coerce _ other = panic
