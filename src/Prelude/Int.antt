-- ===== src/Prelude/Int.antt =====
-- `Int`, which is `i32` without the feature `big_nums`: integers, with their range written out, and
-- the casts between machine words.
use outcome.Prelude.{ℕ, ◌-◌, ◌%◌, ◌^◌, ◌<◌, ◌≡◌, Bool, false, arith, ltb, if◌then◌else◌}

-- `negsuc n` is -(n + 1).
pub data ℤ : Type 0 where
  pos : ℕ → ℤ
  negsuc : ℕ → ℤ

abbrev pub IsI32 : ℤ → Type 0
IsI32 (pos n) = n < 2 ^ 31
IsI32 (negsuc n) = n < 2 ^ 31

-- `n as i32` for a `usize`
unfoldable pub as_i32 : ℕ → ℤ
as_i32 n = let r = n % 2 ^ 32 in if ltb r (2 ^ 31) then pos r else negsuc (2 ^ 32 - 1 - r)

-- `i as usize` for an `i32`, on a 64-bit machine
unfoldable pub as_usize : ℤ → ℕ
as_usize (pos n) = n
as_usize (negsuc n) = 2 ^ 64 - 1 - n

abbrev pub is_positive : ℤ → Bool
is_positive (pos n) = ltb 0 n
is_positive (negsuc n) = false

pub as_i32-IsI32 : (n : ℕ) → IsI32 (as_i32 n)
unfolding as_i32
as_i32-IsI32 n = ground arith

-- A small size keeps its value as an `i32` and back.
pub as_usize-as_i32 : (n : ℕ) → n < 2 ^ 31 → as_usize (as_i32 n) ≡ n
unfolding as_i32 as_usize
as_usize-as_i32 n h = ground arith
