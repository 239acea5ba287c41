-- ===== src/Prelude/Decimal.antt =====
-- Decimal texts: `format!("{}", n)` and `str::parse` at the program's integer types.
use Prim.Native.Char.{Char, code}
use Prim.Native.String
use native.Mathlib.Numerals.{add-one}
use outcome.Prelude.{
  ℕ, zero, suc, ◌+◌, ◌-◌, ◌*◌, ◌/◌, ◌%◌, ◌^◌, ◌≤◌, ◌<◌, String, ◌≡◌, refl, true, false, ◌&&◌,
  Option, none, some, arith, ltb, leb, eqb, if◌then◌else◌, ◌∙◌,
}
use outcome.Prelude.Int.{ℤ, pos, negsuc, IsI32}

-- One decimal digit as a character.
digit_char : ℕ → Char
digit_char d = String.char_at "0123456789" d

code-digit_char : (d : ℕ) → d < 10 → code (digit_char d) ≡ 48 + d
unfolding digit_char
code-digit_char zero h = refl
code-digit_char (suc zero) h = refl
code-digit_char (suc (suc zero)) h = refl
code-digit_char (suc (suc (suc zero))) h = refl
code-digit_char (suc (suc (suc (suc zero)))) h = refl
code-digit_char (suc (suc (suc (suc (suc zero))))) h = refl
code-digit_char (suc (suc (suc (suc (suc (suc zero)))))) h = refl
code-digit_char (suc (suc (suc (suc (suc (suc (suc zero))))))) h = refl
code-digit_char (suc (suc (suc (suc (suc (suc (suc (suc zero)))))))) h = refl
code-digit_char (suc (suc (suc (suc (suc (suc (suc (suc (suc zero))))))))) h = refl
code-digit_char (suc (suc (suc (suc (suc (suc (suc (suc (suc (suc d)))))))))) h =
    absurd (omega arith)

-- The digits of `n` in front of a text. A number has fewer digits than `n + 1`.
show_digits : ℕ → ℕ → String → String
show_digits zero n out = out
show_digits (suc f) n out = elim (ltb n 10) [
  | true ↦ String.◌∷◌ (digit_char n) out
  | false ↦ show_digits f (n / 10) (String.◌∷◌ (digit_char (n % 10)) out)
]

unfoldable pub show_ℕ : ℕ → String
unfolding show_digits digit_char
show_ℕ n = show_digits (n + 1) n ""

unfoldable pub show_ℤ : ℤ → String
unfolding show_ℕ
show_ℤ (pos n) = show_ℕ n
show_ℤ (negsuc n) = String.◌∷◌ "-" (show_ℕ (n + 1))

-- The number that the rest of a text spells, if it is all digits.
parse_digits : ℕ → String → Option ℕ
parse_digits n String.[] = some n
parse_digits n (String.◌∷◌ c s) =
    let rest = parse_digits (n * 10 + (code c - 48)) s in
    if leb 48 (code c) && leb (code c) 57 then rest else none

-- At least one digit, and a value at most `top`.
bounded : ℕ → Option ℕ → Option ℕ
bounded top none = none
bounded top (some n) = if leb n top then some n else none

unsigned : ℕ → String → Option ℕ
unfolding parse_digits bounded
unsigned top String.[] = none
unsigned top (String.◌∷◌ c s) = bounded top (parse_digits 0 (String.◌∷◌ c s))

-- `parse` at an unsigned type with that largest value: a plus sign may stand in front.
unfoldable pub parse_unsigned : ℕ → String → Option ℕ
unfolding unsigned
parse_unsigned top String.[] = none
parse_unsigned top (String.◌∷◌ c s) =
    if eqb (code c) b'+' then unsigned top s else unsigned top (String.◌∷◌ c s)

negative : Option ℕ → Option ℤ
negative none = none
negative (some zero) = some (pos 0)
negative (some (suc n)) = some (negsuc n)

positive : Option ℕ → Option ℤ
positive none = none
positive (some n) = some (pos n)

-- `parse::<i32>`
unfoldable pub parse_i32 : String → Option ℤ
unfolding parse_unsigned unsigned negative positive
parse_i32 String.[] = none
parse_i32 (String.◌∷◌ c s) =
    if eqb (code c) b'-'
    then negative (unsigned (2 ^ 31) s)
    else positive (parse_unsigned (2 ^ 31 - 1) (String.◌∷◌ c s))

-- Reading the digits of `n` gives `n` and goes on with what follows.
parse_digits-show_digits :
    (f n : ℕ) (out : String) → n < f → parse_digits 0 (show_digits f n out) ≡ parse_digits n out
unfolding show_digits parse_digits
parse_digits-show_digits zero n out h = absurd (omega arith)
parse_digits-show_digits (suc f) n out h = ground (
  arith,
  code-digit_char n,
  code-digit_char (n % 10),
  parse_digits-show_digits f (n / 10) (String.◌∷◌ (digit_char (n % 10)) out),
)

-- The text begins with a digit.
abbrev StartsDigit : String → Type 0
StartsDigit String.[] = ⊥
StartsDigit (String.◌∷◌ c s) = (48 ≤ code c) × (code c ≤ 57)

show_digits-StartsDigit : (f n : ℕ) (out : String) → n < f → StartsDigit (show_digits f n out)
unfolding show_digits
show_digits-StartsDigit zero n out h = absurd (omega arith)
show_digits-StartsDigit (suc f) n out h =
    let ih = show_digits-StartsDigit f (n / 10) (String.◌∷◌ (digit_char (n % 10)) out) in
    elim (ltb n 10)
        as (λ b.
          ltb n 10 ≡ b
          → StartsDigit (elim b [
            | true ↦ String.◌∷◌ (digit_char n) out
            | false ↦ show_digits f (n / 10) (String.◌∷◌ (digit_char (n % 10)) out)
          ])) [ true ↦ λ e. ground (arith, code-digit_char n) | false ↦ λ e. ih (ground arith) ]
      refl

unsigned_of_digits :
    (top n : ℕ) (s : String)
    → StartsDigit s
    → parse_digits 0 s ≡ some n
    → n ≤ top
    → (unsigned top s ≡ some n) × (parse_unsigned top s ≡ some n)
unfolding parse_unsigned bounded
unsigned_of_digits top n String.[] d e h = absurd d
unsigned_of_digits top n (String.◌∷◌ c s) d e h = rw e (ground arith)

parse_digits-show_ℕ : (n : ℕ) → parse_digits 0 (show_ℕ n) ≡ some n
unfolding show_ℕ
parse_digits-show_ℕ n =
    parse_digits-show_digits (n + 1) n "" (omega arith) ∙ (unfold parse_digits in refl)

show_ℕ-StartsDigit : (n : ℕ) → StartsDigit (show_ℕ n)
unfolding show_ℕ
show_ℕ-StartsDigit n = show_digits-StartsDigit (n + 1) n "" (omega arith)

pub parse_unsigned-show_ℕ : (top n : ℕ) → n ≤ top → parse_unsigned top (show_ℕ n) ≡ some n
parse_unsigned-show_ℕ top n h =
    (unsigned_of_digits top n (show_ℕ n) (show_ℕ-StartsDigit n) (parse_digits-show_ℕ n) h).1

-- A text that begins with a digit has no minus sign.
parse_i32_of_digits :
    (s : String) → StartsDigit s → parse_i32 s ≡ positive (parse_unsigned (2 ^ 31 - 1) s)
unfolding parse_i32
parse_i32_of_digits String.[] d = absurd d
parse_i32_of_digits (String.◌∷◌ c s) d = ground arith

pub parse_i32-show_ℤ : (i : ℤ) → IsI32 i → parse_i32 (show_ℤ i) ≡ some i
unfolding show_ℤ
parse_i32-show_ℤ (pos n) h =
    unfold positive in
    rw (
      parse_i32_of_digits (show_ℕ n) (show_ℕ-StartsDigit n),
      parse_unsigned-show_ℕ (2 ^ 31 - 1) n (omega arith),
    )
parse_i32-show_ℤ (negsuc n) h =
    let e =
      (unsigned_of_digits (2 ^ 31) (n + 1) (show_ℕ (n + 1)) (show_ℕ-StartsDigit (n + 1))
        (parse_digits-show_ℕ (n + 1)) (omega arith)).0 in
    unfold parse_i32 in rw e (ground (arith, add-one n))
