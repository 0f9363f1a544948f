-- ===== src/Common/State.antt =====
-- A Go method that changes what it points to and may return an error: the new state comes back in
-- either case, since what was written before an early `return err` stays written.
use mathlib.Core.Path.{◌≡◌, refl, ap, ◌∙◌}
use mathlib.Core.Bool.{Bool, true, false}
use shadowd.Common.Result.{Result, ok, err}

abbrev pub Action {ℓ κ μ} : Type ℓ → Type κ → Type μ → Type (ℓ ⊔ κ ⊔ μ)
Action S E A = S → Result E A × S

module _ {ℓ κ μ} {S : Type ℓ} {E : Type κ} {A : Type μ} where
  abbrev pub pure : A → Action S E A
  pure a s = (ok a, s)

  abbrev pub raise : E → Action S E A
  raise e s = (err e, s)

  abbrev pub gets : (S → A) → Action S E A
  gets f s = (ok (f s), s)

  abbrev pub lift : Result E A → Action S E A
  lift r s = (r, s)

module _ {ℓ κ} {S : Type ℓ} {E : Type κ} where
  abbrev pub modify : (S → S) → Action S E (Unit {0})
  modify f s = (ok tt, f s)

  abbrev pub raise_if : Bool → E → Action S E (Unit {0})
  raise_if true e s = (err e, s)
  raise_if false e s = (ok tt, s)

infixl 5 ◌>>=◌ ◌>>◌
abbrev pub ◌>>=◌ {ℓ κ μ ν} :
    {S : Type ℓ} {E : Type κ} {A : Type μ} {B : Type ν}
    → Action S E A
    → (A → Action S E B)
    → Action S E B
◌>>=◌ m f s = let (r, s') = m s in elim r [ ok a ↦ f a s' | err e ↦ (err e, s') ]

abbrev pub ◌>>◌ {ℓ κ ν} :
    {S : Type ℓ} {E : Type κ} {B : Type ν} → Action S E (Unit {0}) → Action S E B → Action S E B
m >> k = m >>= λ _. k

-- what comes after a step that succeeded, and after one that failed
module _ {ℓ κ ν} {S : Type ℓ} {E : Type κ} {B : Type ν} where
  pub then-ok :
      (m : Action S E (Unit {0})) (k : Action S E B) (s : S)
      → (m s).0 ≡ ok tt
      → (m >> k) s ≡ k (m s).1
  then-ok m k s h = rw (h, ◌>>◌, ◌>>=◌) refl

  pub then-err :
      (m : Action S E (Unit {0})) (k : Action S E B) (s : S) {e : E}
      → (m s).0 ≡ err e
      → (m >> k) s ≡ (err e, (m s).1)
  then-err m k s h = rw (h, ◌>>◌, ◌>>=◌) refl

pub bind-ok {ℓ κ μ ν} :
    {S : Type ℓ} {E : Type κ} {A : Type μ} {B : Type ν} (m : Action S E A) (f : A → Action S E B)
    (s : S) {a : A}
    → (m s).0 ≡ ok a
    → (m >>= f) s ≡ f a (m s).1
bind-ok m f s h = rw (h, ◌>>=◌) refl

pub bind-err {ℓ κ μ ν} :
    {S : Type ℓ} {E : Type κ} {A : Type μ} {B : Type ν} (m : Action S E A) (f : A → Action S E B)
    (s : S) {e : E}
    → (m s).0 ≡ err e
    → (m >>= f) s ≡ (err e, (m s).1)
bind-err m f s h = rw (h, ◌>>=◌) refl

-- a step whose result and state are both known
pub bind-eq {ℓ κ μ ν} :
    {S : Type ℓ} {E : Type κ} {A : Type μ} {B : Type ν} (m : Action S E A) (f : A → Action S E B)
    (s : S) {a : A} {s' : S}
    → m s ≡ (ok a, s')
    → (m >>= f) s ≡ f a s'
bind-eq m f s {a} h = bind-ok m f s (ap (λ r. r.0) h) ∙ ap (λ r. f a r.1) h

pub passed {ℓ κ ν} :
    {S : Type ℓ} {E : Type κ} {B : Type ν} (b : Bool) (e : E) (k : Action S E B) (s : S)
    → b ≡ false
    → (raise_if b e >> k) s ≡ k s
passed b e k s h = rw h refl
