-- ===== src/Prelude/Text.antt =====
-- Rust's `str::split` on one character and `str::contains`, over the native texts.
use Prim.Native.Char.{Char, code}
use Prim.Native.String
use Prim.Native.String.append
use outcome.Prelude.{
  ℕ, String, ◌≡◌, refl, Bool, false, ◌||◌, List, [], ◌∷◌, arith, eqb, if◌then◌else◌,
}

-- Text put together; the library's `++` under a name that leaves `++` to lists.
infixr 65 ◌⧺◌
abbrev pub ◌⧺◌ : String → String → String
s ⧺ t = String.◌++◌ s t

-- A character in front of the first piece.
abbrev push_front : Char → List String → List String
push_front c [] = String.◌∷◌ c "" ∷ []
push_front c (p ∷ ps) = String.◌∷◌ c p ∷ ps

-- The pieces between the separators, empty ones too: there is always one.
unfoldable pub split : ℕ → String → List String
split sep String.[] = "" ∷ []
split sep (String.◌∷◌ c s) =
    let rest = split sep s in if eqb (code c) sep then "" ∷ rest else push_front c rest

unfoldable pub has_char : ℕ → String → Bool
has_char sep String.[] = false
has_char sep (String.◌∷◌ c s) = eqb (code c) sep || has_char sep s

-- A piece that holds no separator is cut off at the first one.
pub split-append :
    (sep : ℕ) (p : String) (c : Char) (s : String)
    → has_char sep p ≡ false
    → code c ≡ sep
    → split sep (p ⧺ String.◌∷◌ c s) ≡ p ∷ split sep s
unfolding split has_char
split-append sep String.[] c s h e = rw append.nil (ground arith)
split-append sep (String.◌∷◌ d p) c s h e =
    rw append.cons (ground (arith, split-append sep p c s (ground arith) e))

-- A text that holds no separator is its own one piece.
pub split_whole : (sep : ℕ) (p : String) → has_char sep p ≡ false → split sep p ≡ p ∷ []
unfolding split has_char
split_whole sep String.[] h = refl
split_whole sep (String.◌∷◌ d p) h = ground (arith, split_whole sep p (ground arith))
