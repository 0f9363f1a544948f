-- ===== src/Pool.antt =====
-- lib/liquidity.go: the constant product pools and their arithmetic on uint64. `float64` is a
-- parameter: a type of numbers with the four operations that `CalculateLPTokens` uses.
pub mod Registry
pub mod Trade
use shadowd.Common.{
  ℕ, ◌+◌, ◌*◌, ◌-◌, ◌/◌, Bool, true, false, ◌||◌, List, [], ◌∷◌, ◌++◌, leb, ltb, ◌==◌, nat_eq,
  if◌then◌else◌, take,
}
use shadowd.Common.Text.{Text, bytes}
use shadowd.Common.Word.{u64_mod, add64, sub64, mul64}
use shadowd.Common.Result.{Result, ok, err, fail_if}
use shadowd.Tx.{Address}

pub record Float64 : Type 1 where
  pub F : Type 0
  pub of_u64 : ℕ → F
  pub mul : F → F → F
  pub sqrt : F → F
  pub to_u64 : F → ℕ

pub record LiquidityPool : Type 0 where
  pub pool_id : Text
  pub token_a : Text
  pub token_b : Text
  pub reserve_a : ℕ
  pub reserve_b : ℕ
  pub lp_token_id : Text
  pub lp_token_supply : ℕ
  pub fee_percent : ℕ
  pub k : ℕ
  pub created_at : ℕ

pub record CreatePoolData : Type 0 where
  pub token_a : Text
  pub token_b : Text
  pub amount_a : ℕ
  pub amount_b : ℕ
  pub fee_percent : ℕ
  pub pool_name : Text
  pub pool_address : Address

pub record AddLiquidityData : Type 0 where
  pub pool_id : Text
  pub amount_a : ℕ
  pub amount_b : ℕ
  pub min_lp_tokens : ℕ

pub record RemoveLiquidityData : Type 0 where
  pub pool_id : Text
  pub lp_tokens : ℕ
  pub min_amount_a : ℕ
  pub min_amount_b : ℕ

pub record SwapData : Type 0 where
  pub pool_id : Text
  pub token_in : Text
  pub amount_in : ℕ
  pub min_amount_out : ℕ

-- `CalculateLPTokens`
unfoldable pub lp_tokens : Float64 → ℕ → ℕ → ℕ
lp_tokens fl a b = fl.to_u64 (fl.sqrt (fl.mul (fl.of_u64 a) (fl.of_u64 b)))

-- `CalculateSwapOutput`
unfoldable pub swap_output : ℕ → ℕ → ℕ → ℕ → ℕ
swap_output amount_in reserve_in reserve_out fee =
    let with_fee : ℕ = mul64 amount_in (sub64 10000 fee) / 10000 in
    let denominator : ℕ = add64 reserve_in with_fee in
    if denominator == 0 then 0 else mul64 with_fee reserve_out / denominator

-- `CalculateProportionalAmount`
unfoldable pub proportional_amount : ℕ → ℕ → ℕ → ℕ
proportional_amount amount_a reserve_a reserve_b =
    if reserve_a == 0 then 0 else mul64 amount_a reserve_b / reserve_a

-- `int64(a) - int64(b)`, made positive and read as uint64 again
abbrev pub abs_diff : ℕ → ℕ → ℕ
abs_diff a b = let d : ℕ = sub64 a b in if ltb d 9223372036854775808 then d else sub64 0 d

-- `ValidatePoolRatio`
unfoldable pub validate_pool_ratio : ℕ → ℕ → ℕ → ℕ → ℕ → Bool
validate_pool_ratio amount_a amount_b reserve_a reserve_b tolerance =
    if (reserve_a == 0) || (reserve_b == 0)
    then false
    else let expected : ℕ = proportional_amount amount_a reserve_a reserve_b in
      leb (abs_diff amount_b expected) (mul64 expected tolerance / 100)

-- `CalculateK`
abbrev pub calculate_k : ℕ → ℕ → ℕ
calculate_k a b = mul64 a b

-- `GetLPTokenName`
unfoldable pub lp_token_name : Text → Text → Text → Text
lp_token_name a b id = a ++ (b ++ (bytes "LP" ++ take 8 id))

pub data PoolError : Type 0 where
  pool_exists empty_token same_token zero_reserve bad_fee pool_not_found : PoolError

-- `ValidateFeePercent`
unfoldable pub validate_fee : ℕ → Result PoolError (Unit {0})
validate_fee fee = fail_if (ltb fee 10 || ltb 1000 fee) bad_fee
