-- ===== src/Common/Result.antt =====
-- Go's `(value, error)` pairs: a value or an error of the component's own error type.
use mathlib.Core.Path.{◌≡◌, refl}
use mathlib.Core.Bool.{Bool, true, false}
use mathlib.Core.Logic.{◌⊎◌, inl, inr}

pub data Result {ℓ κ} (E : Type ℓ) (A : Type κ) : Type (ℓ ⊔ κ) where
  ok : A → Result E A
  err : E → Result E A

module _ {ℓ κ} {E : Type ℓ} where
  infixl 5 ◌>>=◌ ◌>>◌
  abbrev pub ◌>>=◌ {μ} : {A : Type κ} {B : Type μ} → Result E A → (A → Result E B) → Result E B
  ok a >>= f = f a
  err e >>= f = err e

  abbrev pub ◌>>◌ : {B : Type κ} → Result E (Unit {0}) → Result E B → Result E B
  ok _ >> k = k
  err e >> k = err e

module _ {ℓ} {E : Type ℓ} where
  -- `if test { return error }`
  abbrev pub fail_if : Bool → E → Result E (Unit {0})
  fail_if true e = err e
  fail_if false e = ok tt

  abbrev pub is_ok {κ} : {A : Type κ} → Result E A → Bool
  is_ok (ok a) = true
  is_ok (err e) = false

pub Result-cases {ℓ κ} :
    {E : Type ℓ} {A : Type κ} (r : Result E A) → ((a : A) × (r ≡ ok a)) ⊎ ((e : E) × (r ≡ err e))
Result-cases (ok a) = inl (a, refl)
Result-cases (err e) = inr (e, refl)

-- what a chain of calls that succeeds went through
pub bind_inv {ℓ κ μ} :
    {E : Type ℓ} {A : Type κ} {B : Type μ} (m : Result E A) (f : A → Result E B) {b : B}
    → (m >>= f) ≡ ok b
    → (a : A) × (m ≡ ok a) × (f a ≡ ok b)
bind_inv (ok a) f h = (a, refl, h)
bind_inv (err e) f h = cc

pub passed_inv {ℓ μ} :
    {E : Type ℓ} {B : Type μ} (test : Bool) (e : E) (k : Result E B) {b : B}
    → (fail_if test e >> k) ≡ ok b
    → (test ≡ false) × (k ≡ ok b)
passed_inv true e k h = cc
passed_inv false e k h = (refl, h)
