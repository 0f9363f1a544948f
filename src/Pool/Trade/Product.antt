-- ===== src/Pool/Trade/Product.antt =====
-- The product of the reserves under a swap.
use native.Mathlib.Nat.{
  mul-le-mul_right, mod-eq_of_lt, div-mul-le_self, div-lt_iff_lt-mul, mul_comm,
}
use mathlib.Core.Path.{ap₂, subst₂}
use shadowd.Common.{
  ℕ, ◌+◌, ◌-◌, ◌*◌, ◌/◌, ◌≤◌, ◌<◌, ◌≡◌, some, arith, nat_eq, ◌==◌, inl, inr, refl, sym, ◌∙◌,
  Bool-cases,
}
use shadowd.Common.Text.{Text, text_eq}
use shadowd.Common.Word.{u64_mod, add64, sub64, mul64}
use shadowd.Pool.{LiquidityPool}
use shadowd.Pool.Trade.{swap_amount_out, swap_a_for_b, swap_b_for_a, swap_sides, swapped}

-- The formula without the wrap: m is the fee multiplier, x and y are the reserves, q is what is
-- paid out and r what is left of y.
paid_le : (a m x q r : ℕ) → m ≤ 10000 → q * (x * 10000 + a * m) ≤ a * m * (q + r) → x * q ≤ a * r
paid_le a m x q r hm h =
    let p : m * (a * r) ≤ 10000 * (a * r) = mul-le-mul_right (a * r) hm in omega arith

product_le :
    (a m x q r : ℕ)
    → m ≤ 10000
    → q * (x * 10000 + a * m) ≤ a * m * (q + r)
    → x * (q + r) ≤ (x + a) * r
product_le a m x q r hm h = omega (arith, paid_le a m x q r hm h)

product_le_sub :
    (a m x y q : ℕ)
    → m ≤ 10000
    → q ≤ y
    → q * (x * 10000 + a * m) ≤ a * m * y
    → x * y ≤ (x + a) * (y - q)
product_le_sub a m x y q hm le h =
    let e : q + (y - q) ≡ y = omega arith in rw e at (product_le a m x q (y - q) hm (rw e h))

out_lt : (w x y : ℕ) → 0 < x → 0 < y → w * y / (x * 10000 + w) < y
out_lt w x y px py =
    (div-lt_iff_lt-mul {k = x * 10000 + w} (omega arith)).1
      (let p : 0 < x * y = grind arith in omega arith)

module _ (amount_in fee reserve_in reserve_out : ℕ) where
  abbrev multiplied : ℕ
  multiplied = amount_in * (10000 - fee)

  -- No product of the swap formula, nor the new reserve, reaches 2 ^ 64.
  abbrev pub SwapFits : Type 0
  SwapFits =
      (fee ≤ 10000)
      × (amount_in * (10000 - fee) * reserve_out < u64_mod)
      × (reserve_in * 10000 + amount_in * (10000 - fee) < u64_mod)
      × (reserve_in + amount_in < u64_mod)
      × (reserve_out < u64_mod)
      × (0 < reserve_in)
      × (0 < reserve_out)

  -- the true quotient
  abbrev true_out : ℕ
  true_out = multiplied * reserve_out / (reserve_in * 10000 + multiplied)

  swap_amount_out-true :
      SwapFits → swap_amount_out amount_in fee reserve_in reserve_out ≡ some true_out
  unfolding swap_amount_out
  swap_amount_out-true fits =
      let e1 : sub64 10000 fee ≡ 10000 - fee = omega arith in
      let e2 : mul64 amount_in (10000 - fee) ≡ multiplied = mod-eq_of_lt (omega arith) in
      let e3 : mul64 multiplied reserve_out ≡ multiplied * reserve_out = mod-eq_of_lt fits.1 in
      let e4 : mul64 reserve_in 10000 ≡ reserve_in * 10000 = mod-eq_of_lt (omega arith) in
      let e5 : add64 (reserve_in * 10000) multiplied ≡ reserve_in * 10000 + multiplied =
        mod-eq_of_lt fits.2 in
      rw (e1, e2, e3, e4, e5) (ground arith)

  true_out-lt : SwapFits → true_out < reserve_out
  true_out-lt fits = out_lt multiplied reserve_in reserve_out (omega arith) (omega arith)

  true_out-product :
      SwapFits → reserve_in * reserve_out ≤ (reserve_in + amount_in) * (reserve_out - true_out)
  true_out-product fits =
      let lt = true_out-lt fits in
      product_le_sub amount_in (10000 - fee) reserve_in reserve_out true_out (omega arith)
        (omega arith) (div-mul-le_self (multiplied * reserve_out) (reserve_in * 10000 + multiplied))

module _ (token token_out : Text) (n out ri ro : ℕ) (p : LiquidityPool) where
  -- The product of the reserves, before and after a swap, by the sides of the swap.
  swapped-sides :
      swap_sides token p ≡ some (token_out, ri, ro)
      → ri + n < u64_mod
      → ro < u64_mod
      → out ≤ ro
      → (p.reserve_a * p.reserve_b ≡ ri * ro)
        × ((swapped token n out p).reserve_a * (swapped token n out p).reserve_b
            ≡ (ri + n) * (ro - out))
  unfolding swap_sides swapped swap_a_for_b swap_b_for_a
  swapped-sides sides h1 h2 h3 = elim (Bool-cases (token == p.token_a)) [
    | inl a ↦
        let ea : p.reserve_a ≡ ri = ground arith in
        let eb : p.reserve_b ≡ ro = ground arith in
        let ea' : add64 p.reserve_a n ≡ ri + n = omega arith in
        let eb' : sub64 p.reserve_b out ≡ ro - out = omega arith in
        rw (a, swapped, ap₂ ◌*◌ ea eb) (refl, ap₂ ◌*◌ ea' eb')
    | inr b ↦
        let ea : p.reserve_a ≡ ro = ground arith in
        let eb : p.reserve_b ≡ ri = ground arith in
        let eb' : add64 p.reserve_b n ≡ ri + n = omega arith in
        let ea' : sub64 p.reserve_a out ≡ ro - out = omega arith in
        rw (b, swapped, ap₂ ◌*◌ ea eb)
          (mul_comm ro ri, ap₂ ◌*◌ ea' eb' ∙ mul_comm (ro - out) (ri + n))
  ]

-- A swap, in either direction, of a pool with both reserves above zero whose products fit in 64
-- bits pays out less than the whole reserve and does not lower the product of the reserves.
pub swapped-product :
    (token token_out : Text) (n ri ro : ℕ) (p : LiquidityPool)
    → swap_sides token p ≡ some (token_out, ri, ro)
    → SwapFits n p.fee_percent ri ro
    → (out : ℕ) × (swap_amount_out n p.fee_percent ri ro ≡ some out)
      × (out < ro)
      × (p.reserve_a * p.reserve_b
          ≤ (swapped token n out p).reserve_a * (swapped token n out p).reserve_b)
swapped-product token token_out n ri ro p sides fits =
    let out : ℕ = true_out n p.fee_percent ri ro in
    let lt = true_out-lt n p.fee_percent ri ro fits in
    let (before, after) =
      swapped-sides token token_out n out ri ro p sides (omega arith) (omega arith) (omega arith) in
    let kept = subst₂ ◌≤◌ (sym before) (sym after) (true_out-product n p.fee_percent ri ro fits) in
    (out, swap_amount_out-true n p.fee_percent ri ro fits, lt, kept)
