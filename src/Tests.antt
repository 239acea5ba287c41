-- ===== src/Tests.antt =====
-- Concrete inputs: the theorems of the other modules at values that the program meets.
pub mod Text
pub mod Search
pub mod Server
pub mod Exec
pub mod Sim
pub mod Script
pub mod Distr
pub mod Query
use outcome.Prelude.{ℕ, ◌-◌, ltb, String, none, true}
use outcome.Prelude.Int.{ℤ, pos, negsuc}
use outcome.Data.{Float, bits, Var}
use outcome.Std.{Std}
use outcome.Machine.{LocationInfo}

abbrev size_bits : Float → ℕ
size_bits (bits n) = n

abbrev int_bits : ℤ → Float
int_bits (pos n) = bits n
int_bits (negsuc n) = bits n

-- Operations on floats that stand for those of the machine.
abbrev pub test_std : Std
test_std = record {
  float_of_int = int_bits;
  float_of_size = bits;
  float_to_int = λ f. pos (size_bits f);
  float_to_size = size_bits;
  float_add = λ f g. f;
  float_sub = λ f g. bits (size_bits f - size_bits g);
  float_abs = λ f. f;
  float_gt = λ f g. ltb (size_bits g) (size_bits f);
  parse_float = λ s. none;
  show_float = λ f. "0.5";
  all_numeric = λ s. true;
  debug = λ v. "[]";
}
