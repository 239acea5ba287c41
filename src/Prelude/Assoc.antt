-- ===== src/Prelude/Assoc.antt =====
-- The hash maps of the program, as association lists: the key that is found first counts.
-- The order in which a hash map is iterated is the order of the list.
use outcome.Prelude.{
  ◌≡◌, refl, Option, none, some, List, [], ◌∷◌, arith, PartialEq, ◌==◌, if◌then◌else◌, eq_self,
}

abbrev pub Assoc {ℓ κ} : Type ℓ → Type κ → Type (ℓ ⊔ κ)
Assoc K V = List (K × V)

abbrev pub keys {ℓ κ} : {K : Type ℓ} {V : Type κ} → Assoc K V → List K
keys [] = []
keys ((k, v) ∷ m) = k ∷ keys m

module _ {ℓ κ} {K : Type ℓ} {V : Type κ} ⦃e : PartialEq K⦄ where
  unfoldable pub get : K → Assoc K V → Option V
  get k [] = none
  get k ((j, v) ∷ m) = if j == k then some v else get k m

  unfoldable pub insert : K → V → Assoc K V → Assoc K V
  insert key new [] = (key, new) ∷ []
  insert key new ((k, old) ∷ m) =
      let rest = insert key new m in if k == key then (key, new) ∷ m else (k, old) ∷ rest

  unfoldable pub remove : K → Assoc K V → Assoc K V
  remove k [] = []
  remove k ((j, w) ∷ m) = let rest = remove k m in if j == k then rest else (j, w) ∷ rest

  pub get-insert :
      (k j : K) (v : V) (m : Assoc K V)
      → get j (insert k v m) ≡ (if k == j then some v else get j m)
  unfolding get insert
  get-insert k j v [] = refl
  get-insert k j v ((i, w) ∷ m) =
      ground (arith, e.agrees k j, e.agrees i k, e.agrees i j, get-insert k j v m)

  pub get-remove :
      (k j : K) (m : Assoc K V) → get j (remove k m) ≡ (if k == j then none else get j m)
  unfolding get remove
  get-remove k j [] = ground arith
  get-remove k j ((i, w) ∷ m) =
      ground (arith, e.agrees k j, e.agrees i k, e.agrees i j, get-remove k j m)

  pub get-insert_self : (k : K) (v : V) (m : Assoc K V) → get k (insert k v m) ≡ some v
  get-insert_self k v m = rw (get-insert, eq_self)

pub ruleset assoc_laws = (get-insert, get-remove)
