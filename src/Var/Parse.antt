-- ===== src/Var/Parse.antt =====
-- `Var::from_str`: a value from a text, with or without a target type.
use Prim.Native.Char.{code}
use outcome.Prelude.{
  ℕ, String, Bool, true, false, List, [], ◌∷◌, Option, none, some, ◌==◌, string_eq, eqb,
  if◌then◌else◌,
}
use outcome.Prelude.Text.{split}
use outcome.Prelude.Decimal.{parse_unsigned, parse_i32}
use outcome.Prelude.Result.{Result, ok, err, panic, ◌>>=◌, ok_or}
use outcome.Data.{
  VarType, Var, Error, parse_int_error, parse_float_error, parse_bool_error, failed_creating_var,
  other, other_parse_int,
}
use outcome.Std.{Std}
use outcome.Var.{of_list}

-- `parse::<bool>`
unfoldable pub parse_bool : String → Option Bool
parse_bool s = if s == "true" then some true else if s == "false" then some false else none

abbrev starts_with_char : ℕ → String → Bool
starts_with_char k String.[] = false
starts_with_char k (String.◌∷◌ c s) = eqb (code c) k

abbrev ends_with_char : ℕ → String → Bool
ends_with_char k String.[] = false
ends_with_char k (String.◌∷◌ c String.[]) = eqb (code c) k
ends_with_char k (String.◌∷◌ c (String.◌∷◌ d s)) = ends_with_char k (String.◌∷◌ d s)

module _ ⦃std : Std⦄ where
  -- One element of a list by the list's type; lists of vectors and of values are `unimplemented!`.
  element : VarType → String → Result Error Var
  unfolding parse_bool parse_i32 parse_unsigned
  element VarType.string_list s = ok (Var.string s)
  element VarType.int_list s = do i ← ok_or parse_int_error (parse_i32 s); ok (Var.int i)
  element VarType.float_list s = do
    f ← ok_or parse_float_error (std.parse_float s)
    ok (Var.float f)
  element VarType.bool_list s = do b ← ok_or parse_bool_error (parse_bool s); ok (Var.bool b)
  element VarType.byte_list s = do n ← ok_or parse_int_error (parse_unsigned 255 s); ok (Var.byte n)
  element _ s = panic

  elements : VarType → List String → Result Error (List Var)
  unfolding element
  elements t [] = ok []
  elements t (s ∷ ss) = do v ← element t s; vs ← elements t ss; ok (v ∷ vs)

  unfoldable pub list_from_str : String → VarType → Result Error Var
  unfolding elements split
  list_from_str s t = do vs ← elements t (split b',' s); ok (Var.list (of_list vs))

  vec2_from : String → List String → Result Error Var
  vec2_from s (x ∷ y ∷ []) = do
    a ← ok_or parse_float_error (std.parse_float x)
    b ← ok_or parse_float_error (std.parse_float y)
    ok (Var.vec2 a b)
  vec2_from s _ = err (failed_creating_var s)

  vec3_from : String → List String → Result Error Var
  vec3_from s (x ∷ y ∷ z ∷ []) = do
    a ← ok_or parse_float_error (std.parse_float x)
    b ← ok_or parse_float_error (std.parse_float y)
    c ← ok_or parse_float_error (std.parse_float z)
    ok (Var.vec3 a b c)
  vec3_from s _ = err (failed_creating_var s)

  -- With no target type: a quoted text keeps its quotes.
  guess : String → Result Error Var
  unfolding parse_i32
  guess s =
      if starts_with_char b'"' s
      then (if ends_with_char b'"' s then ok (Var.string s) else err (other ""))
      else if s == "true"
      then ok (Var.bool true)
      else if s == "false"
      then ok (Var.bool false)
      else do i ← ok_or other_parse_int (parse_i32 s); ok (Var.int i)

  unfoldable pub from_str : String → Option VarType → Result Error Var
  unfolding list_from_str vec2_from vec3_from guess parse_bool parse_i32 parse_unsigned split
  from_str s none = guess s
  from_str s (some VarType.string) = ok (Var.string s)
  from_str s (some VarType.int) = do i ← ok_or parse_int_error (parse_i32 s); ok (Var.int i)
  from_str s (some VarType.float) = do
    f ← ok_or parse_float_error (std.parse_float s)
    ok (Var.float f)
  from_str s (some VarType.bool) = do b ← ok_or parse_bool_error (parse_bool s); ok (Var.bool b)
  from_str s (some VarType.byte) = do
    n ← ok_or parse_int_error (parse_unsigned 255 s)
    ok (Var.byte n)
  from_str s (some VarType.vec2) = vec2_from s (split b',' s)
  from_str s (some VarType.vec3) = vec3_from s (split b',' s)
  from_str s (some VarType.string_list) = list_from_str s VarType.string_list
  from_str s (some VarType.int_list) = list_from_str s VarType.int_list
  from_str s (some VarType.float_list) = list_from_str s VarType.float_list
  from_str s (some VarType.bool_list) = list_from_str s VarType.bool_list
  from_str s (some VarType.byte_list) = list_from_str s VarType.byte_list
  from_str s (some VarType.vec2_list) = list_from_str s VarType.vec2_list
  from_str s (some VarType.vec3_list) = list_from_str s VarType.vec3_list
  from_str s (some VarType.var_list) = list_from_str s VarType.var_list
  from_str s (some _) = panic
