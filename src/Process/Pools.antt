-- ===== src/Process/Pools.antt =====
-- The pool cases of `ProcessTokenTransaction`. `GetPool` and `GetToken` return pointers into the
-- registries, so the changes to a pool or a token are there before `UpdatePool` and `UpdateToken`.
pub mod Swap
use shadowd.Common.{
  ℕ, ◌/◌, ◌+◌, false, Option, none, some, List, [], ◌∷◌, ◌++◌, length, ltb, ◌==◌, nat_eq,
  if◌then◌else◌,
}
use shadowd.Common.Text.{Text, bytes, text_eq}
use shadowd.Common.Word.{add64, sub64, scale_up}
use shadowd.Common.Dict.{lookup, insert}
use shadowd.Common.State.{gets, modify, raise_if, ◌>>=◌, ◌>>◌}
use shadowd.Common.Result.{ok}
use shadowd.Tx.{Address, TxOutput, Utxo}
use shadowd.Tx.Outputs.{token_output}
use shadowd.Token.{TokenInfo}
use shadowd.Token.Registry.{register_token, update_token}
use shadowd.Pool.{LiquidityPool, CreatePoolData, SwapData, lp_tokens, lp_token_name, calculate_k}
use shadowd.Pool.Registry.{register_pool, update_pool}
use shadowd.Pool.Trade.{
  swap_amount_out, swap_sides, swapped, lp_to_mint, add_reserves, amounts_to_return,
  remove_reserves,
}
use shadowd.Utxo.Store.{add_utxo}
use shadowd.Process.World.{
  Env, Step, panic, bad_data, no_token_a, no_token_b, zero_lp_tokens, no_pool, slippage,
  no_lp_token, no_provider, not_in_pool, slice, or_raise, on_store, on_tokens, on_pools,
}

-- an output that the transaction's processing creates
abbrev pub paid_utxo : Text → ℕ → TxOutput → Utxo
paid_utxo id i o = record {
  tx_id = id;
  output_index = i;
  output = o;
  is_spent = false;
  block_height = 0;
}

-- the supply of a new pool's token: whole units of 10 ^ 8, at least one
unfoldable pub lp_max_mint : ℕ → ℕ
lp_max_mint amount = let units : ℕ = amount / scale_up 8 1 in if units == 0 then 1 else units

unfoldable pub lp_token_info : Text → Text → Text → ℕ → Address → ℕ → TokenInfo
lp_token_info id ticker_a ticker_b max_mint creator height = record {
  token_id = id;
  ticker = lp_token_name ticker_a ticker_b id;
  desc = ticker_a ++ (ticker_b ++ bytes "LiquidityPool");
  max_mint = max_mint;
  max_decimals = 8;
  total_supply = scale_up 8 max_mint;
  locked_shadow = scale_up 8 max_mint;
  total_melted = 0;
  mint_version = 0;
  creator_address = creator;
  creation_time = height;
}

unfoldable pub new_pool : Text → CreatePoolData → ℕ → ℕ → LiquidityPool
new_pool id d supply height = record {
  pool_id = id;
  token_a = d.token_a;
  token_b = d.token_b;
  reserve_a = d.amount_a;
  reserve_b = d.amount_b;
  lp_token_id = id;
  lp_token_supply = supply;
  fee_percent = d.fee_percent;
  k = calculate_k d.amount_a d.amount_b;
  created_at = height;
}

abbrev pub provider : List TxOutput → Option Address
provider [] = none
provider (o ∷ os) = some o.address

module _ {env : Env} where
  -- `store.AddUTXO` of an output `offset` places behind those of the transaction
  abbrev pub pay : Text → ℕ → Address → ℕ → Text → Text → Step env (Unit {0})
  pay id offset to amount token kind = do
    t ← gets (λ w. w.tx)
    on_store (
        add_utxo env.kv
          (paid_utxo id (length t.outputs + offset) (token_output to amount token kind [])))

  -- the changes to a pool, through the pointer and by `UpdatePool`
  abbrev pub write_pool : Text → LiquidityPool → Step env (Unit {0})
  write_pool id p = do
    modify (λ w. record w { pools = insert id p w.pools })
    on_pools (update_pool p)

  -- `GetPool`, whose error message slices the identifier
  abbrev pub load_pool : Text → Step env LiquidityPool
  load_pool id w = elim (lookup id w.pools) [
    | none ↦ (slice 16 id >> or_raise none no_pool) w
    | some p ↦ (ok p, w)
  ]

  abbrev load_lp_token : Text → Step env TokenInfo
  load_lp_token id w = elim (lookup id w.tokens) [
    | none ↦ (slice 16 id >> or_raise none no_lp_token) w
    | some t ↦ (ok t, w)
  ]

  -- the change of the supply of a pool's token
  abbrev write_supply : (ℕ → ℕ) → Text → Step env (Unit {0})
  write_supply change id = do
    t ← load_lp_token id
    let t' = record t {
      total_supply = change t.total_supply;
      locked_shadow = change t.locked_shadow;
    }
    modify (λ w. record w { tokens = insert id t' w.tokens })
    on_tokens (update_token t')

  -- the slices of the log line of `RegisterPool`
  abbrev pub log_pool : LiquidityPool → Step env (Unit {0})
  log_pool p = do slice 16 p.pool_id; slice 8 p.token_a; slice 8 p.token_b

  -- `case TxTypeCreatePool`
  unfoldable pub process_create_pool : Text → ℕ → Step env (Unit {0})
  process_create_pool id height = do
    slice 16 id
    t ← gets (λ w. w.tx)
    d ← or_raise (env.codec.pool_data t.payload) bad_data
    found_a ← gets (λ w. lookup d.token_a w.tokens)
    a ← or_raise found_a no_token_a
    found_b ← gets (λ w. lookup d.token_b w.tokens)
    b ← or_raise found_b no_token_b
    let amount = lp_tokens env.float d.amount_a d.amount_b
    raise_if (amount == 0) zero_lp_tokens
    let max_mint = lp_max_mint amount
    let supply = scale_up 8 max_mint
    on_tokens
        (register_token env.ext (lp_token_info id a.ticker b.ticker max_mint d.pool_address height))
    let p = new_pool id d supply height
    on_pools (register_pool p)
    log_pool p
    pay id 0 d.pool_address supply id (bytes "liquidity_pool")

  -- `case TxTypeAddLiquidity`
  unfoldable pub process_add_liquidity : Text → Step env (Unit {0})
  process_add_liquidity id = do
    slice 16 id
    t ← gets (λ w. w.tx)
    d ← or_raise (env.codec.add_data t.payload) bad_data
    p ← load_pool d.pool_id
    minted ← or_raise (lp_to_mint d.amount_a d.amount_b p) panic
    raise_if (ltb minted d.min_lp_tokens) slippage
    write_pool d.pool_id (add_reserves d.amount_a d.amount_b minted p)
    write_supply (λ n. add64 n minted) p.lp_token_id
    to ← or_raise (provider t.outputs) no_provider
    pay id 0 to minted p.lp_token_id (bytes "liquidity_pool")
    slice 16 d.pool_id

  -- `case TxTypeRemoveLiquidity`
  unfoldable pub process_remove_liquidity : Text → Step env (Unit {0})
  process_remove_liquidity id = do
    slice 16 id
    t ← gets (λ w. w.tx)
    d ← or_raise (env.codec.remove_data t.payload) bad_data
    p ← load_pool d.pool_id
    amounts ← or_raise (amounts_to_return d.lp_tokens p) panic
    raise_if (ltb amounts.0 d.min_amount_a) slippage
    raise_if (ltb amounts.1 d.min_amount_b) slippage
    write_pool d.pool_id (remove_reserves amounts.0 amounts.1 d.lp_tokens p)
    write_supply (λ n. sub64 n d.lp_tokens) p.lp_token_id
    to ← or_raise (provider t.outputs) no_provider
    pay id 0 to amounts.0 p.token_a (bytes "liquidity_pool")
    pay id 1 to amounts.1 p.token_b (bytes "liquidity_pool")
    slice 16 d.pool_id

  -- the message for a token that the pool lacks slices its identifier
  abbrev pub choose_sides : Text → LiquidityPool → Step env (Text × ℕ × ℕ)
  choose_sides token_in p w = elim (swap_sides token_in p) [
    | none ↦ (slice 8 token_in >> or_raise none not_in_pool) w
    | some sides ↦ (ok sides, w)
  ]

  -- the rest of the swap case, from the update of the pool on
  unfoldable pub settle_swap :
      Text → List TxOutput → SwapData → LiquidityPool → Text → ℕ → Step env (Unit {0})
  settle_swap id outputs d p token_out out = do
    write_pool d.pool_id (swapped d.token_in d.amount_in out p)
    to ← or_raise (provider outputs) no_provider
    pay id 0 to out token_out (bytes "swap")
    slice 16 d.pool_id
    slice 8 d.token_in
    slice 8 token_out

  -- `case TxTypeSwap`
  unfoldable pub process_swap : Text → Step env (Unit {0})
  process_swap id = do
    slice 16 id
    t ← gets (λ w. w.tx)
    d ← or_raise (env.codec.swap_data t.payload) bad_data
    p ← load_pool d.pool_id
    (token_out, reserve_in, reserve_out) ← choose_sides d.token_in p
    out ← or_raise (swap_amount_out d.amount_in p.fee_percent reserve_in reserve_out) panic
    raise_if (ltb out d.min_amount_out) slippage
    settle_swap id t.outputs d p token_out out
