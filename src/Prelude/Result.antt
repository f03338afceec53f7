-- ===== src/Prelude/Result.antt =====
-- Exceptions as values: a statement returns a value or raises an error of the module's own.
use mathlib.Core.Path.{◌≡◌, refl}
use mathlib.Core.Bool.{Bool, true, false}

pub data Result {ℓ κ} (E : Type κ) (A : Type ℓ) : Type (ℓ ⊔ κ) where
  err : E → Result E A
  ok : A → Result E A

module _ {μ} {E : Type μ} where
  -- `if not test: raise e`
  abbrev pub require : Bool → E → Result E (Unit {0})
  require true e = ok tt
  require false e = err e

  -- The next statement runs with the value of this one, unless this one raised.
  infixl 5 ◌>>=◌ ◌>>◌
  abbrev pub ◌>>=◌ {κ ℓ} : {A : Type κ} {B : Type ℓ} → Result E A → (A → Result E B) → Result E B
  err raised >>= rest = err raised
  ok value >>= rest = rest value

  abbrev pub ◌>>◌ {ℓ} : {B : Type ℓ} → Result E (Unit {0}) → Result E B → Result E B
  first >> rest = first >>= λ _. rest

-- A statement that succeeds passed its test and went on.
pub require-eq-ok {ℓ μ} :
    {E : Type μ} {B : Type ℓ} (b : Bool) (e : E) (k : Result E B) {x : B}
    → (require b e >> k) ≡ ok x
    → (b ≡ true) × (k ≡ ok x)
require-eq-ok true e k h = (refl, h)
require-eq-ok false e k h = cc

-- A statement that succeeds got a value from its first part, and went on with it.
pub >>=-eq-ok {κ ℓ μ} :
    {E : Type μ} {A : Type κ} {B : Type ℓ} (first : Result E A) (rest : A → Result E B) {x : B}
    → (first >>= rest) ≡ ok x
    → (v : A) × (first ≡ ok v) × (rest v ≡ ok x)
>>=-eq-ok (err raised) rest done = cc
>>=-eq-ok (ok v) rest done = (v, refl, done)

pub ok-injective {ℓ μ} :
    {E : Type μ} {A : Type ℓ} {x y : A} → ◌≡◌ {A = Result E A} (ok x) (ok y) → x ≡ y
ok-injective h = cc
