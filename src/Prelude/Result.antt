-- ===== src/Prelude/Result.antt =====
-- What a fallible piece of the program returns: a value, an error, or a panic (`unwrap` of nothing,
-- `unimplemented!`, an index out of bounds), which ends the program.
use outcome.Prelude.{◌≡◌, refl, ap, Option, none, some, Bool, true, false, if◌then◌else◌}

pub data Result {ℓ κ} (E : Type ℓ) (A : Type κ) : Type (ℓ ⊔ κ) where
  ok : A → Result E A
  err : E → Result E A
  panic : Result E A

infixl 5 ◌>>=◌ ◌>>◌
abbrev pub ◌>>=◌ {ℓ κ μ} :
    {E : Type ℓ} {A : Type κ} {B : Type μ} → Result E A → (A → Result E B) → Result E B
ok a >>= f = f a
err e >>= f = err e
panic >>= f = panic

abbrev pub ◌>>◌ {ℓ κ μ} :
    {E : Type ℓ} {A : Type κ} {B : Type μ} → Result E A → Result E B → Result E B
m >> k = m >>= λ _. k

module _ {ℓ κ} {E : Type ℓ} {A : Type κ} where
  -- `Option::unwrap`
  abbrev pub unwrap : Option A → Result E A
  unwrap none = panic
  unwrap (some a) = ok a

  -- `Option::ok_or`
  abbrev pub ok_or : E → Option A → Result E A
  ok_or e none = err e
  ok_or e (some a) = ok a

  -- `Result::unwrap`
  abbrev pub unwrap_ok : Result E A → Result E A
  unwrap_ok (err _) = panic
  unwrap_ok r = r

  -- `Result::map_err`
  abbrev pub map_err {μ} : {E' : Type μ} → (E → E') → Result E A → Result E' A
  map_err f (ok a) = ok a
  map_err f (err e) = err (f e)
  map_err f panic = panic

  abbrev pub value? : Result E A → Option A
  value? (ok a) = some a
  value? (err e) = none
  value? panic = none

abbrev value_or {ℓ κ} : {E : Type ℓ} {A : Type κ} → A → Result E A → A
value_or d (ok a) = a
value_or d (err e) = d
value_or d panic = d

pub ok_injective {ℓ κ} :
    {E : Type ℓ} {A : Type κ} (a b : A) → ◌≡◌ {A = Result E A} (ok a) (ok b) → a ≡ b
ok_injective a b h = ap (value_or a) h

-- A chain that succeeds has a first part that does.
pub >>=-inv {ℓ κ μ} :
    {E : Type ℓ} {A : Type κ} {B : Type μ} (m : Result E A) (f : A → Result E B) {b : B}
    → (m >>= f) ≡ ok b
    → (a : A) × (m ≡ ok a) × (f a ≡ ok b)
>>=-inv (ok a) f h = (a, refl, h)
>>=-inv (err e) f h = cc
>>=-inv panic f h = cc

-- `Result::unwrap` where the error has another type
abbrev pub must {ℓ κ μ} : {E : Type ℓ} {E' : Type κ} {A : Type μ} → Result E A → Result E' A
must (ok a) = ok a
must (err _) = panic
must panic = panic

-- The value, where there is one, satisfies the predicate.
abbrev pub Ensures {ℓ κ μ} : {E : Type ℓ} {A : Type κ} → (A → Type μ) → Result E A → Type μ
Ensures P (ok a) = P a
Ensures P (err e) = Unit
Ensures P panic = Unit

pub Ensures-any {ℓ κ} : {E : Type ℓ} {A : Type κ} (m : Result E A) → Ensures (λ a. Unit {0}) m
Ensures-any (ok a) = tt
Ensures-any (err e) = tt
Ensures-any panic = tt

pub Ensures->>= {ℓ κ μ ν} :
    {E : Type ℓ} {A : Type κ} {B : Type μ} (P : B → Type ν) (m : Result E A) (k : A → Result E B)
    → ((a : A) → Ensures P (k a))
    → Ensures P (m >>= k)
Ensures->>= P (ok a) k h = h a
Ensures->>= P (err e) k h = tt
Ensures->>= P panic k h = tt

pub Ensures-if {ℓ κ ν} :
    {E : Type ℓ} {A : Type κ} (P : A → Type ν) (b : Bool) (x y : Result E A)
    → Ensures P x
    → Ensures P y
    → Ensures P (if b then x else y)
Ensures-if P true x y hx hy = hx
Ensures-if P false x y hx hy = hy

pub Ensures-Option {ℓ κ μ ν} :
    {E : Type ℓ} {A : Type κ} {B : Type μ} (P : B → Type ν) (o : Option A) (x : Result E B)
    (k : A → Result E B)
    → Ensures P x
    → ((a : A) → Ensures P (k a))
    → Ensures P (elim o [ none ↦ x | some a ↦ k a ])
Ensures-Option P none x k hx hk = hx
Ensures-Option P (some a) x k hx hk = hk a

pub Ensures-Result {ℓ κ μ ν ξ} :
    {E : Type ℓ} {E' : Type ξ} {A : Type κ} {B : Type μ} (P : B → Type ν) (r : Result E' A)
    (k : A → Result E B) (f : E' → Result E B)
    → ((a : A) → Ensures P (k a))
    → ((e : E') → Ensures P (f e))
    → Ensures P (elim r [ ok a ↦ k a | err e ↦ f e | panic ↦ panic ])
Ensures-Result P (ok a) k f hk hf = hk a
Ensures-Result P (err e) k f hk hf = hf e
Ensures-Result P panic k f hk hf = tt

pub >>=-cong {ℓ κ μ} :
    {E : Type ℓ} {A : Type κ} {B : Type μ} (m : Result E A) (f g : A → Result E B)
    → ((a : A) → f a ≡ g a)
    → (m >>= f) ≡ (m >>= g)
>>=-cong (ok a) f g h = h a
>>=-cong (err e) f g h = refl
>>=-cong panic f g h = refl

pub Ensures-then {ℓ κ μ ν ξ} :
    {E : Type ℓ} {A : Type κ} {B : Type μ} (Q : A → Type ξ) (P : B → Type ν) (m : Result E A)
    (k : A → Result E B)
    → Ensures Q m
    → ((a : A) → Q a → Ensures P (k a))
    → Ensures P (m >>= k)
Ensures-then Q P (ok a) k hm hk = hk a hm
Ensures-then Q P (err e) k hm hk = tt
Ensures-then Q P panic k hm hk = tt
