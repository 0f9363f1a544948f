-- ===== src/Common/Word.antt =====
-- Go's uint64: a number below 2 ^ 64, with the wrap-around of each operation written out.
use Prim.Native.Nat.{ℕ, zero, suc, ◌+◌, ◌-◌, ◌*◌, ◌%◌, ◌^◌, ◌≤◌, ◌<◌}
use mathlib.Core.Path.{◌≡◌, sym, ap, ◌∙◌}
use mathlib.Core.Bool.{Bool, ◌&&◌}
use mathlib.Core.List.{List, [], ◌∷◌}
use native.Mathlib.Nat.{mod-eq_of_lt, pow-suc, one-le-pow}
use native.Mathlib.Omega.{arith}
use shadowd.Common.Tests.{ltb}
use shadowd.Common.Lists.{sum_by}

abbrev pub u64_mod : ℕ
u64_mod = 18446744073709551616

abbrev pub add64 : ℕ → ℕ → ℕ
add64 a b = (a + b) % u64_mod

abbrev pub sub64 : ℕ → ℕ → ℕ
sub64 a b = (a + u64_mod - b) % u64_mod

abbrev pub mul64 : ℕ → ℕ → ℕ
mul64 a b = a * b % u64_mod

-- An int64 is its bit pattern; this is the test `0 < t`.
abbrev pub is_positive : ℕ → Bool
is_positive t = ltb 0 t && ltb t 9223372036854775808

-- The loop `for i := uint8(0); i < d; i++ { x *= 10 }`.
unfoldable pub scale_up : ℕ → ℕ → ℕ
scale_up zero x = x
scale_up (suc d) x = scale_up d (mul64 x 10)

-- The loop `total += f(x)` over a slice, from `total`.
unfoldable pub sum64 {ℓ} : {A : Type ℓ} → (A → ℕ) → ℕ → List A → ℕ
sum64 f total [] = total
sum64 f total (x ∷ xs) = sum64 f (add64 total (f x)) xs

pow-step : (d x : ℕ) → x * 10 ^ suc d ≡ x * 10 * 10 ^ d
pow-step d x = omega (arith, ap (λ (t : ℕ). x * t) (pow-suc 10 d))

pub le_scaled : (d y : ℕ) → y ≤ y * 10 ^ d
le_scaled d y = grind (arith, one-le-pow d 10 (omega arith))

-- Below the modulus the loop multiplies by ten as often as it runs.
pub scale_up-eq : (d x : ℕ) → x * 10 ^ d < u64_mod → scale_up d x ≡ x * 10 ^ d
unfolding scale_up
scale_up-eq zero x h = omega arith
scale_up-eq (suc d) x h =
    let whole : x * 10 * 10 ^ d < u64_mod = rw (pow-step d x) at h in
    let small : x * 10 < u64_mod = omega (arith, le_scaled d (x * 10)) in
    rw (mod-eq_of_lt small) (scale_up-eq d (x * 10) whole ∙ sym (pow-step d x))

-- The wrapping loop computes the true sum modulo 2 ^ 64.
pub sum64-mod {ℓ} :
    {A : Type ℓ} (f : A → ℕ) (total : ℕ) (xs : List A)
    → total < u64_mod
    → sum64 f total xs ≡ (total + sum_by f xs) % u64_mod
unfolding sum64
sum64-mod f total [] h = omega arith
sum64-mod f total (x ∷ xs) h = sum64-mod f (add64 total (f x)) xs (omega arith) ∙ omega arith

-- Where the true sum fits, the loop computes it.
pub sum64-eq {ℓ} :
    {A : Type ℓ} (f : A → ℕ) (xs : List A) → sum_by f xs < u64_mod → sum64 f 0 xs ≡ sum_by f xs
sum64-eq f xs h = sum64-mod f 0 xs (omega arith) ∙ omega arith
