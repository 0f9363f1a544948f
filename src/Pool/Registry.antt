-- ===== src/Pool/Registry.antt =====
-- lib/pool_registry.go. The map holds pointers, as the token registry does.
use shadowd.Common.{
  ℕ, Bool, true, false, ◌||◌, ◌&&◌, Option, none, some, [], ◌∷◌, is_empty, length, ◌==◌, nat_eq,
  if◌then◌else◌, ◌≡◌, ◌≢◌, ◌↔◌, ◌≤◌, ◌<◌, arith,
}
use shadowd.Common.Text.{Text, text_eq, text_beq_iff}
use shadowd.Common.Dict.{Dict, lookup, insert, lookup-insert}
use shadowd.Common.Result.{Result, ok, err, ◌>>◌, fail_if}
use shadowd.Pool.{
  LiquidityPool, PoolError, pool_exists, empty_token, same_token, zero_reserve, pool_not_found,
  validate_fee, calculate_k,
}

abbrev pub Pools : Type 0
Pools = Dict Text LiquidityPool

abbrev has_pool : Option LiquidityPool → Bool
has_pool none = false
has_pool (some p) = true

-- `RegisterPool` up to its log line; the callers slice the identifiers of that line, and panic where one
-- is too short, behind the change
unfoldable pub register_pool : LiquidityPool → Pools → Result PoolError Pools
register_pool p pools = do
  fail_if (has_pool (lookup p.pool_id pools)) pool_exists
  fail_if (is_empty p.token_a || is_empty p.token_b) empty_token
  fail_if (p.token_a == p.token_b) same_token
  fail_if ((p.reserve_a == 0) || (p.reserve_b == 0)) zero_reserve
  validate_fee p.fee_percent
  ok (insert p.pool_id p pools)

-- `GetPool`
abbrev pub get_pool : Text → Pools → Option LiquidityPool
get_pool id pools = lookup id pools

-- `UpdatePool`
unfoldable pub update_pool : LiquidityPool → Pools → Result PoolError Pools
update_pool p pools =
    if has_pool (lookup p.pool_id pools) then ok (insert p.pool_id p pools) else err pool_not_found

-- `UpdatePoolReserves`
unfoldable pub update_pool_reserves : Text → ℕ → ℕ → ℕ → Pools → Result PoolError Pools
update_pool_reserves id ra rb supply pools = elim (lookup id pools) [
  | none ↦ err pool_not_found
  | some p ↦ ok (
      insert id
        (record p {
          reserve_a = ra;
          reserve_b = rb;
          lp_token_supply = supply;
          k = calculate_k ra rb;
        })
        pools)
]

-- `FindPoolByTokens`; Go's map order is the order of the list.
unfoldable pub find_pool_by_tokens : Text → Text → Pools → Option LiquidityPool
find_pool_by_tokens a b [] = none
find_pool_by_tokens a b ((_, p) ∷ pools) =
    if ((p.token_a == a) && (p.token_b == b)) || ((p.token_a == b) && (p.token_b == a))
    then some p
    else find_pool_by_tokens a b pools

-- `GetPoolCount`
unfoldable pub pool_count : Pools → ℕ
pool_count pools = length pools

-- What `RegisterPool` asks of a pool.
pub record IsListed (p : LiquidityPool) : Type 0 where
  pub named_a : p.token_a ≢ []
  pub named_b : p.token_b ≢ []
  pub distinct : p.token_a ≢ p.token_b
  pub reserve_a_pos : 0 < p.reserve_a
  pub reserve_b_pos : 0 < p.reserve_b
  pub fee_low : 10 ≤ p.fee_percent
  pub fee_high : p.fee_percent ≤ 1000

abbrev pub AllListed : Pools → Type 0
AllListed pools = (id : Text) (p : LiquidityPool) → lookup id pools ≡ some p → IsListed p

-- A pool is registered exactly when its identifier is new and it has two distinct named tokens, two
-- reserves above zero and a fee of 10 to 1000 basis points; then it alone is added.
pub register_pool_iff :
    (p : LiquidityPool) (pools : Pools) (pools' : Pools)
    → (register_pool p pools ≡ ok pools')
      ↔ ((lookup p.pool_id pools ≡ none) × IsListed p × (pools' ≡ insert p.pool_id p pools))
unfolding register_pool validate_fee
register_pool_iff p pools pools' = ground (arith, text_beq_iff p.token_a p.token_b)

-- If every pool of the registry has two distinct named tokens, two reserves above zero and a fee
-- of 10 to 1000 basis points, then this still holds after a successful `RegisterPool`.
pub register_pool-AllListed :
    (p : LiquidityPool) (pools : Pools) {pools' : Pools}
    → AllListed pools
    → register_pool p pools ≡ ok pools'
    → AllListed pools'
register_pool-AllListed p pools {pools'} all h id q found =
    let (absent, listed, e) = (register_pool_iff p pools pools').0 h in
    ground (arith, e, listed, lookup-insert p.pool_id id p pools, all id q)
