-- ===== src/Base/Results.antt =====
-- What a kernel function does: it returns, it calls `panic`, or it does what C leaves undefined.

use mathlib.Core.Path.{◌≡◌, refl}
use mathlib.Core.Logic.{◌≢◌, ◌⊎◌, inl, inr}
use mathlib.Core.Option.{Option, none, some}
use Prim.Native.String.{String}

pub data Result {ℓ} (A : Type ℓ) : Type ℓ where
  ok : A → Result A
  panic : String → Result A
  -- a read or write outside an array, or through a null pointer
  fault : Result A

infixl 5 ◌>>=◌ ◌>>◌
abbrev pub ◌>>=◌ {ℓ κ} : {A : Type ℓ} {B : Type κ} → Result A → (A → Result B) → Result B
ok a >>= f = f a
panic m >>= f = panic m
fault >>= f = fault

abbrev pub ◌>>◌ {ℓ} : {B : Type ℓ} → Result (Unit {0}) → Result B → Result B
m >> k = m >>= λ _. k

-- Access through an index or a pointer that has to be good.
abbrev pub deref {ℓ} : {A : Type ℓ} → Option A → Result A
deref none = fault
deref (some a) = ok a

-- How a chain returns: its first step did, and then the rest.
abbrev pub Returned {ℓ κ} : {B : Type κ} {A : Type ℓ} → (A → Result B) → B → Result A → Type (ℓ ⊔ κ)
Returned next out step = (x : _) × (step ≡ ok x) × (next x ≡ ok out)

pub >>=-Returned {ℓ κ} :
    {B : Type κ} {A : Type ℓ} (step : Result A) (next : A → Result B) {out : B}
    → (step >>= next) ≡ ok out
    → Returned next out step
>>=-Returned fault next e = cc
>>=-Returned (panic why) next e = cc
>>=-Returned (ok x) next e = (x, refl, e)

pub deref-eq-ok {ℓ} : {A : Type ℓ} (o : Option A) {a : A} → deref o ≡ ok a → o ≡ some a
deref-eq-ok none h = cc
deref-eq-ok (some a) h = cc

pub Result-cases {ℓ} :
    {A : Type ℓ} (step : Result A) → ((x : A) × (step ≡ ok x)) ⊎ ((x : A) → step ≢ ok x)
Result-cases (ok x) = inl (x, refl)
Result-cases (panic why) = inr (λ x e. cc)
Result-cases fault = inr (λ x e. cc)
