-- ===== src/Common/Dict.antt =====
-- A Go map as an association list, over any key that is compared by `==`.
use mathlib.Core.Path.{◌≡◌, refl}
use mathlib.Core.Logic.{◌≢◌}
use mathlib.Core.List.{List, [], ◌∷◌}
use mathlib.Core.Option.{Option, none, some}
use native.Mathlib.Omega.{arith}
use shadowd.Common.Tests.{if◌then◌else◌, Eq, ◌==◌}

abbrev pub Dict {ℓ κ} : Type ℓ → Type κ → Type (ℓ ⊔ κ)
Dict K V = List (K × V)

module _ {ℓ κ} {K : Type ℓ} {V : Type κ} ⦃e : Eq K⦄ where
  -- `m[k]`
  unfoldable pub lookup : K → Dict K V → Option V
  lookup k [] = none
  lookup k ((key, val) ∷ rest) = if key == k then some val else lookup k rest

  -- `m[k] = v`
  unfoldable pub insert : K → V → Dict K V → Dict K V
  insert k v [] = (k, v) ∷ []
  insert k v ((key, val) ∷ rest) = if key == k then (k, v) ∷ rest else (key, val) ∷ insert k v rest

  -- `delete(m, k)`
  unfoldable pub erase : K → Dict K V → Dict K V
  erase k [] = []
  erase k ((key, val) ∷ rest) = if key == k then erase k rest else (key, val) ∷ erase k rest

  pub lookup-insert :
      (k j : K) (v : V) (m : Dict K V)
      → lookup j (insert k v m) ≡ (if k == j then some v else lookup j m)
  unfolding lookup insert
  lookup-insert k j v [] = refl
  lookup-insert k j v ((key, val) ∷ rest) =
      ground (arith, lookup-insert k j v rest, e.beq_iff key k, e.beq_iff key j, e.beq_iff k j)

  pub lookup-erase :
      (k j : K) (m : Dict K V) → lookup j (erase k m) ≡ (if k == j then none else lookup j m)
  unfolding lookup erase
  lookup-erase k j [] = ground arith
  lookup-erase k j ((key, val) ∷ rest) =
      ground (arith, lookup-erase k j rest, e.beq_iff key k, e.beq_iff key j, e.beq_iff k j)

  pub lookup-insert_self : (k : K) (v : V) (m : Dict K V) → lookup k (insert k v m) ≡ some v
  lookup-insert_self k v m = rw (lookup-insert k k v m, (e.beq_iff k k).1 refl)

  pub lookup-insert_ne :
      (k j : K) (v : V) (m : Dict K V) → k ≢ j → lookup j (insert k v m) ≡ lookup j m
  lookup-insert_ne k j v m h = ground (arith, lookup-insert k j v m, e.beq_iff k j)
