-- ===== src/Std.antt =====
-- What the program takes from Rust's standard library and the models do not compute: `f32` arithmetic
-- and texts, and the derived `Debug` text of a container. Its instances are parameters.
use outcome.Prelude.{ℕ, String, Bool, ◌&&◌, Option, ltb, leb}
use outcome.Prelude.Int.{ℤ}
use outcome.Data.{Float, bits, Var}

pub record Std : Type 0 where
  -- `i as f32`, `n as f32` for a `usize` or a `u8`, `f as i32` and `f as usize`
  pub float_of_int : ℤ → Float
  pub float_of_size : ℕ → Float
  pub float_to_int : Float → ℤ
  pub float_to_size : Float → ℕ
  pub float_add : Float → Float → Float
  pub float_sub : Float → Float → Float
  pub float_abs : Float → Float
  pub float_gt : Float → Float → Bool
  -- `parse::<f32>` and `format!("{}", f)`
  pub parse_float : String → Option Float
  pub show_float : Float → String
  -- `chars().all(char::is_numeric)`
  pub all_numeric : String → Bool
  -- `format!("{:?}", v)` of a list, a grid or a map
  pub debug : Var → String

-- `0.` and `1.0`
abbrev pub zero_float : Float
zero_float = bits 0

abbrev pub one_float : Float
one_float = bits 0x3f800000

-- `f > 0.`: the sign bit is clear, and the value is neither zero nor a NaN.
abbrev pub gt_zero : Float → Bool
gt_zero (bits b) = ltb 0 b && leb b 0x7f800000
