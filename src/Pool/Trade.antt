-- ===== src/Pool/Trade.antt =====
-- The constant product: what a swap, a deposit and a withdrawal do to a pool's reserves. These are
-- the computations of the pool cases of `ProcessTokenTransaction` in lib/utxo_store.go, each from
-- the numbers of the transaction and the pool to the new pool and what is paid out; `none` is Go's
-- division by zero.
pub mod Product
pub mod Shares
use shadowd.Common.{
  ℕ, ◌+◌, ◌*◌, ◌/◌, Bool, true, false, Option, none, some, ltb, ◌==◌, nat_eq, if◌then◌else◌,
}
use shadowd.Common.Text.{Text, text_eq}
use shadowd.Common.Word.{add64, sub64, mul64}
use shadowd.Pool.{LiquidityPool, calculate_k}

-- `a / b` on uint64, which panics at zero
abbrev pub div64 : ℕ → ℕ → Option ℕ
div64 a b = if b == 0 then none else some (a / b)

-- the quotient of `amountOut` in the swap case
unfoldable pub swap_amount_out : ℕ → ℕ → ℕ → ℕ → Option ℕ
swap_amount_out amount_in fee reserve_in reserve_out =
    let multiplier : ℕ = sub64 10000 fee in
    div64 (mul64 (mul64 amount_in multiplier) reserve_out)
      (add64 (mul64 reserve_in 10000) (mul64 amount_in multiplier))

-- the pool after a swap of token A for token B, and the other way round
unfoldable pub swap_a_for_b : ℕ → ℕ → LiquidityPool → LiquidityPool
swap_a_for_b amount_in amount_out p =
    let ra : ℕ = add64 p.reserve_a amount_in in
    let rb : ℕ = sub64 p.reserve_b amount_out in
    record p { reserve_a = ra; reserve_b = rb; k = calculate_k ra rb }

unfoldable pub swap_b_for_a : ℕ → ℕ → LiquidityPool → LiquidityPool
swap_b_for_a amount_in amount_out p =
    let rb : ℕ = add64 p.reserve_b amount_in in
    let ra : ℕ = sub64 p.reserve_a amount_out in
    record p { reserve_a = ra; reserve_b = rb; k = calculate_k ra rb }

-- the other token and the two reserves, by the token that comes in; `none` if the pool lacks it
unfoldable pub swap_sides : Text → LiquidityPool → Option (Text × ℕ × ℕ)
swap_sides token_in p =
    if token_in == p.token_a
    then some (p.token_b, p.reserve_a, p.reserve_b)
    else if token_in == p.token_b
    then some (p.token_a, p.reserve_b, p.reserve_a)
    else none

-- the second test of the token that comes in, which updates the reserves
unfoldable pub swapped : Text → ℕ → ℕ → LiquidityPool → LiquidityPool
swapped token_in amount_in amount_out p =
    if token_in == p.token_a
    then swap_a_for_b amount_in amount_out p
    else swap_b_for_a amount_in amount_out p

-- the smaller of the two ratios in the add-liquidity case
abbrev smaller : ℕ → ℕ → ℕ
smaller a b = if ltb a b then a else b

abbrev both : Option ℕ → Option ℕ → Option (ℕ × ℕ)
both (some a) (some b) = some (a, b)
both _ _ = none

unfoldable pub lp_to_mint : ℕ → ℕ → LiquidityPool → Option ℕ
lp_to_mint amount_a amount_b p =
    elim (both (div64 (mul64 amount_a p.lp_token_supply) p.reserve_a)
      (div64 (mul64 amount_b p.lp_token_supply) p.reserve_b)) [
        | none ↦ none
        | some (ra, rb) ↦ some (smaller ra rb)
      ]

unfoldable pub add_reserves : ℕ → ℕ → ℕ → LiquidityPool → LiquidityPool
add_reserves amount_a amount_b minted p =
    let ra : ℕ = add64 p.reserve_a amount_a in
    let rb : ℕ = add64 p.reserve_b amount_b in
    record p {
      reserve_a = ra;
      reserve_b = rb;
      lp_token_supply = add64 p.lp_token_supply minted;
      k = calculate_k ra rb;
    }

-- the amounts of both tokens in the remove-liquidity case
unfoldable pub amounts_to_return : ℕ → LiquidityPool → Option (ℕ × ℕ)
amounts_to_return burned p =
    both (div64 (mul64 burned p.reserve_a) p.lp_token_supply)
      (div64 (mul64 burned p.reserve_b) p.lp_token_supply)

unfoldable pub remove_reserves : ℕ → ℕ → ℕ → LiquidityPool → LiquidityPool
remove_reserves amount_a amount_b burned p =
    let ra : ℕ = sub64 p.reserve_a amount_a in
    let rb : ℕ = sub64 p.reserve_b amount_b in
    record p {
      reserve_a = ra;
      reserve_b = rb;
      lp_token_supply = sub64 p.lp_token_supply burned;
      k = calculate_k ra rb;
    }
