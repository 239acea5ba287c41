-- ===== src/Address/RoundTrip.antt =====
-- Which texts are read back as the address that was printed.

use Prim.Native.String.append
use outcome.Prelude.{
  ap, ◌∙◌, String, ◌≡◌, refl, false, arith, List, [], ◌∷◌, Option, none, some, if◌then◌else◌,
}
use outcome.Prelude.Text.{◌⧺◌, split, has_char, split-append, split_whole}
use mathlib.Core.Option
use outcome.Prelude.Result.{ok, panic, value?}
use outcome.Data.{VarType, ShortLocalAddress, Address}
use outcome.VarType
use outcome.VarType.Names.{is_generic, from_str-to_str, has_char-to_str}
use outcome.Address
use outcome.Address.Short
use outcome.Address.Local

-- No part holds the separator.
abbrev Plain : String → Type 0
Plain s = has_char b':' s ≡ false

-- The first part is cut off.
split_part : (a s : String) → Plain a → split b':' (a ⧺ ":" ⧺ s) ≡ a ∷ split b':' s
split_part a s h =
    ap (λ (x : String). split b':' (a ⧺ x))
      (append.cons ":" "" s ∙ ap (String.◌∷◌ ":") (append.nil s))
    ∙ split-append b':' a ":" s h refl

split_two : (a b : String) → Plain a → Plain b → split b':' (a ⧺ ":" ⧺ b) ≡ a ∷ b ∷ []
split_two a b ha hb = split_part a b ha ∙ ap (λ (x : List String). a ∷ x) (split_whole b':' b hb)

split_three :
    (a b c : String)
    → Plain a
    → Plain b
    → Plain c
    → split b':' (a ⧺ ":" ⧺ b ⧺ ":" ⧺ c) ≡ a ∷ b ∷ c ∷ []
split_three a b c ha hb hc =
    split_part a (b ⧺ ":" ⧺ c) ha ∙ ap (λ (x : List String). a ∷ x) (split_two b c hb hc)

split_four :
    (a b c d : String)
    → Plain a
    → Plain b
    → Plain c
    → Plain d
    → split b':' (a ⧺ ":" ⧺ b ⧺ ":" ⧺ c ⧺ ":" ⧺ d) ≡ a ∷ b ∷ c ∷ d ∷ []
split_four a b c d ha hb hc hd =
    split_part a (b ⧺ ":" ⧺ c ⧺ ":" ⧺ d) ha
    ∙ ap (λ (x : List String). a ∷ x) (split_three b c d hb hc hd)

-- An address whose names hold no colon is read back from its text, if its type is not one of the
-- generic containers; the text of such an address panics.
pub from_str-to_string_address :
    (a : Address)
    → Plain a.entity
    → Plain a.component
    → Plain a.var_name
    → Address.from_str (Address.to_string a) ≡ (if is_generic a.var_type then panic else ok a)
unfolding Address.from_str Address.to_string Address.address_of
from_str-to_string_address a he hc hn =
    rw
      (
        split_four a.entity a.component (VarType.to_str a.var_type) a.var_name he hc
            (has_char-to_str a.var_type) hn,
        from_str-to_str,
      )
      (ground arith)

abbrev PlainComp : Option String → Type 0
PlainComp none = Unit
PlainComp (some c) = Plain c

short_parts :
    (c : Option String) (t : VarType) (n : String)
    → PlainComp c
    → Plain n
    → let a : ShortLocalAddress = record { comp = c; var_type = t; var_name = n } in
      Short.from_str (Short.to_string a) ≡ (if is_generic t then panic else ok a)
unfolding Short.from_str Short.to_string
short_parts none t n hc hn =
    rw (split_two (VarType.to_str t) n (has_char-to_str t) hn, from_str-to_str) (ground arith)
short_parts (some c) t n hc hn =
    rw (split_three c (VarType.to_str t) n hc (has_char-to_str t) hn, from_str-to_str)
      (ground arith)

-- An address within an entity is read back from its text, with or without a component, if its names
-- hold no colon and its type is not one of the generic containers; the text of such an address panics.
pub from_str-to_string_short :
    (a : ShortLocalAddress)
    → PlainComp a.comp
    → Plain a.var_name
    → Short.from_str (Short.to_string a) ≡ (if is_generic a.var_type then panic else ok a)
from_str-to_string_short a hc hn = short_parts a.comp a.var_type a.var_name hc hn

-- A local address is read from a text of three parts with the name of its type as the name of the
-- variable, whatever the third part is, if the type is not one of the generic containers.
pub var_name-from_str_local :
    (c n : String) (t : VarType)
    → Plain c
    → Plain n
    → is_generic t ≡ false
    → Local.from_str (c ⧺ ":" ⧺ VarType.to_str t ⧺ ":" ⧺ n)
      ≡ ok (record { comp = c; var_type = t; var_name = VarType.to_str t })
unfolding Local.from_str
var_name-from_str_local c n t hc hn ht =
    rw (split_three c (VarType.to_str t) n hc (has_char-to_str t) hn, from_str-to_str, ht)

-- The place in the storage that a short address gives is that of the local address which it can be
-- made into, and there is none exactly when it cannot be made into one.
storage_index-into_local_address :
    (a : ShortLocalAddress) (comp : Option String)
    → value? (Short.storage_index a comp)
      ≡ Option.map Local.storage_index (value? (Short.into_local_address a comp))
unfolding Short.into_local_address Short.storage_index
storage_index-into_local_address a comp = ground arith
