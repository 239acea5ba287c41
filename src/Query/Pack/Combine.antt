-- ===== src/Query/Pack/Combine.antt =====
-- What the combination of several products holds.
use outcome.Prelude.{
  List, [], ◌∷◌, Option, none, some, ◌==◌, ◌≡◌, refl, sym, ap, ◌∙◌, if◌then◌else◌, Bool-cases,
  Option-cases, inl, inr,
}
use mathlib.Core.Path.{ap₂}
use outcome.Prelude.Assoc
use outcome.Prelude.Assoc.{Assoc, get-insert}
use outcome.Data.{Var, Address}
use outcome.Query.{address_eq, address_beq_iff, QueryProduct}
use outcome.Query.Pack.{add_missing, combine_two, combine_all, combine, last, but_last}

abbrev pub or_else : Option Var → Option Var → Option Var
or_else none b = b
or_else (some v) b = some v

-- The variable in the first of the maps that has one for the address.
abbrev pub first_of : Address → List (Assoc Address Var) → Option Var
first_of k [] = none
first_of k (m ∷ ms) = or_else (Assoc.get k m) (first_of k ms)

abbrev pub products : List (Assoc Address Var) → List QueryProduct
products [] = []
products (m ∷ ms) = QueryProduct.addressed_var m ∷ products ms

or_else-none : (o : Option Var) → or_else o none ≡ o
or_else-none none = refl
or_else-none (some v) = refl

or_else_assoc : (a b c : Option Var) → or_else (or_else a b) c ≡ or_else a (or_else b c)
or_else_assoc none b c = refl
or_else_assoc (some v) b c = refl

module _ (k j : Address) (v : Var) (rest : Option Var) (out : Assoc Address Var) where
  get-insert_missing :
      Assoc.get j out ≡ none
      → or_else (Assoc.get k (Assoc.insert j v out)) rest
        ≡ or_else (Assoc.get k out) (if j == k then some v else rest)
  get-insert_missing h = elim (Bool-cases (j == k)) [
    | inl e ↦
        rw (get-insert j k v out, e, sym (ap (λ i. Assoc.get i out) ((address_beq_iff j k).0 e)), h)
          refl
    | inr e ↦ rw (get-insert j k v out, e) refl
  ]

  get_present :
      (w : Var)
      → Assoc.get j out ≡ some w
      → or_else (Assoc.get k out) rest ≡ or_else (Assoc.get k out) (if j == k then some v else rest)
  get_present w h = elim (Bool-cases (j == k)) [
    | inl e ↦ rw (sym (ap (λ i. Assoc.get i out) ((address_beq_iff j k).0 e)), h) refl
    | inr e ↦ rw e refl
  ]

get-add_missing :
    (k : Address) (m out : Assoc Address Var)
    → Assoc.get k (add_missing m out) ≡ or_else (Assoc.get k out) (Assoc.get k m)
unfolding add_missing Assoc.get
get-add_missing k [] out = sym (or_else-none (Assoc.get k out))
get-add_missing k ((j, v) ∷ m) out = elim (Option-cases (Assoc.get j out)) [
  | inl h ↦
      rw (h, add_missing)
        (get-add_missing k m (Assoc.insert j v out)
          ∙ get-insert_missing k j v (Assoc.get k m) out h)
  | inr (w, h) ↦
      rw (h, add_missing) (get-add_missing k m out ∙ get_present k j v (Assoc.get k m) out w h)
]

-- The map that the products are gathered in.
abbrev Combined : QueryProduct → (Address → Option Var) → Type 0
Combined p f =
    (out : Assoc Address Var) × (p ≡ QueryProduct.addressed_var out)
    × ((k : Address) → Assoc.get k out ≡ f k)

combine_all-first_of :
    (ms : List (Assoc Address Var)) (final : Assoc Address Var)
    → Combined
        (combine_all (products ms) (QueryProduct.addressed_var final))
        (λ k. or_else (Assoc.get k final) (first_of k ms))
unfolding combine_all combine_two
combine_all-first_of [] final = (final, refl, λ k. sym (or_else-none (Assoc.get k final)))
combine_all-first_of (m ∷ ms) final =
    let (out, done, holds) = combine_all-first_of ms (add_missing m final) in
    (
      out,
      done,
      λ k.
          holds k
          ∙ ap (λ o. or_else o (first_of k ms)) (get-add_missing k m final)
          ∙ or_else_assoc (Assoc.get k final) (Assoc.get k m) (first_of k ms),
    )

last-products :
    (m : Assoc Address Var) (ms : List (Assoc Address Var))
    → (last (QueryProduct.addressed_var m) (products ms) ≡ QueryProduct.addressed_var (last m ms))
      × (but_last (QueryProduct.addressed_var m) (products ms) ≡ products (but_last m ms))
last-products m [] = (refl, refl)
last-products m (n ∷ ms) =
    let (e, h) = last-products n ms in (e, ap (λ ps. QueryProduct.addressed_var m ∷ ps) h)

-- The combination of products with addresses has a variable for an address where one of them has: that of the
-- last product, or else that of the first of the others that has one.
pub get-combine :
    (m : Assoc Address Var) (ms : List (Assoc Address Var))
    → (out : Assoc Address Var) × (combine (products (m ∷ ms)) ≡ QueryProduct.addressed_var out)
      × ((k : Address) → Assoc.get k out ≡ first_of k (last m ms ∷ but_last m ms))
unfolding combine
get-combine m ms =
    let (e, h) = last-products m ms in
    let (out, done, holds) = combine_all-first_of (but_last m ms) (last m ms) in
    (out, ap₂ combine_all h e ∙ done, holds)
