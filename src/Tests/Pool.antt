-- ===== src/Tests/Pool.antt =====
-- A sample pool, and trades with it.
use shadowd.Common.{ℕ, ◌+◌, ◌*◌, ◌≤◌, ◌<◌, ◌≡◌, refl, [], some, arith}
use shadowd.Common.Text.{bytes, text_beq, text_eq}
use shadowd.Common.Dict.{lookup, insert}
use shadowd.Common.Result.{ok}
use shadowd.Pool.{LiquidityPool, validate_fee}
use shadowd.Pool.Registry.{Pools, register_pool, AllListed}
use shadowd.Pool.Trade.{
  swap_amount_out, swap_sides, swapped, lp_to_mint, add_reserves, amounts_to_return,
  remove_reserves,
}
use shadowd.Pool.Trade.Product.{swapped-product}
use shadowd.Pool.Trade.Shares.{ShareFits, deposit_no_gain, withdrawal_keeps_share}

abbrev pool : LiquidityPool
pool = record {
  pool_id = bytes "pool";
  token_a = bytes "a";
  token_b = bytes "b";
  reserve_a = 1000;
  reserve_b = 4000;
  lp_token_id = bytes "pool";
  lp_token_supply = 2000;
  fee_percent = 30;
  k = 4000000;
  created_at = 1;
}

abbrev pools : Pools
pools = insert (bytes "pool") pool []

pool_registered : register_pool pool [] ≡ ok pools
unfolding register_pool validate_fee lookup insert text_beq
pool_registered = refl

empty_listed : AllListed []
unfolding lookup
empty_listed id p h = ground arith

a_sides : swap_sides (bytes "a") pool ≡ some (bytes "b", 1000, 4000)
unfolding swap_sides text_beq
a_sides = refl

swapped-product_example :
    (out : ℕ) × (swap_amount_out 100 30 1000 4000 ≡ some out)
    × (out < 4000)
    × (1000 * 4000
        ≤ (swapped (bytes "a") 100 out pool).reserve_a
          * (swapped (bytes "a") 100 out pool).reserve_b)
swapped-product_example =
    swapped-product (bytes "a") (bytes "b") 100 1000 4000 pool a_sides
      (omega arith, omega arith, omega arith, omega arith, omega arith, omega arith, omega arith)

share_fits : ShareFits 50 200 100 pool
share_fits = record {
  reserve_a_pos = omega arith;
  reserve_b_pos = omega arith;
  supply_pos = omega arith;
  ratio_a = omega arith;
  ratio_b = omega arith;
  sum_a = omega arith;
  sum_b = omega arith;
  sum_lp = omega arith;
  share_a = omega arith;
  share_b = omega arith;
}

minted : lp_to_mint 50 200 pool ≡ some 100
unfolding lp_to_mint
minted = refl

deposit_no_gain_example :
    (x : ℕ) × (y : ℕ) × (amounts_to_return 100 (add_reserves 50 200 100 pool) ≡ some (x, y))
    × (x ≤ 50)
    × (y ≤ 200)
    × (1000 * (2000 + 100) ≤ (1000 + 50) * 2000)
    × (4000 * (2000 + 100) ≤ (4000 + 200) * 2000)
deposit_no_gain_example = deposit_no_gain 50 200 100 pool share_fits minted

withdrawal_keeps_share_example :
    (x : ℕ) × (y : ℕ) × (amounts_to_return 500 pool ≡ some (x, y))
    × (x ≤ 1000)
    × (y ≤ 4000)
    × (1000 * (remove_reserves x y 500 pool).lp_token_supply
        ≤ (remove_reserves x y 500 pool).reserve_a * 2000)
    × (4000 * (remove_reserves x y 500 pool).lp_token_supply
        ≤ (remove_reserves x y 500 pool).reserve_b * 2000)
withdrawal_keeps_share_example =
    withdrawal_keeps_share 500 pool (omega arith) (omega arith) (omega arith) (omega arith)
      (omega arith) (omega arith) (omega arith)
