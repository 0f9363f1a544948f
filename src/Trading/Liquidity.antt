-- ===== src/Trading/Liquidity.antt =====
-- lib/liquidity_tx.go: the transactions that create a pool, add to it and take from it, and swap through
-- it, from the outputs of the wallet's address. The log lines of `CreatePoolTransaction` are left out.
use shadowd.Common.{
  ℕ, ◌+◌, Bool, not, ◌&&◌, ◌||◌, Option, List, [], ◌∷◌, length, keep, ltb, ◌==◌, nat_eq,
  if◌then◌else◌,
}
use shadowd.Common.Text.{Text, text_eq}
use shadowd.Common.Word.{add64, sub64}
use shadowd.Common.Result.{Result, ok, err, ◌>>=◌, ◌>>◌, fail_if}
use shadowd.Tx.{
  Address, TxType, create_pool, add_liquidity, remove_liquidity, swap, Transaction, Utxo,
}
use shadowd.Tx.External.{External}
use shadowd.Tx.Builder.{TxBuilder, new_tx_builder}
use shadowd.Pool.{
  LiquidityPool, PoolError, CreatePoolData, AddLiquidityData, RemoveLiquidityData, SwapData,
  validate_fee, validate_pool_ratio,
}
use shadowd.Trading.{
  NodeWallet, TradeError, few_tokens, few_shadow, same_tokens, both_shadow, ratio_mismatch,
  not_in_pool, trade_panic, fee_error, select, unspent_of, unspent_besides, estimated_fee,
  Selection, select_with_fee, add_inputs, add_change, finish_trade,
}

-- the outputs of the tokens of a pair and of SHADOW, their totals, and the fee
pub record PairSelection : Type 0 where
  pub coins_a : List Utxo
  pub total_a : ℕ
  pub coins_b : List Utxo
  pub total_b : ℕ
  pub shadow : List Utxo
  pub shadow_total : ℕ
  pub fee : ℕ

-- `xs[n:]`, where the list is long enough
unfoldable pub behind : List Utxo → List Utxo → List Utxo
behind [] us = us
behind (t ∷ ts) [] = []
behind (t ∷ ts) (u ∷ us) = behind ts us

-- the unspent outputs in a token that is neither of two others
abbrev pub unspent_beyond : Text → Text → Text → List Utxo → List Utxo
unspent_beyond other second token us =
    keep
      (λ u.
        not u.is_spent
        && (not (u.output.token_id == other)
            && (not (u.output.token_id == second) && (u.output.token_id == token))))
      us

abbrev pub or_fee_error : Result PoolError (Unit {0}) → Result TradeError (Unit {0})
or_fee_error (ok _) = ok tt
or_fee_error (err e) = err (fee_error e)

-- the first eight bytes of a token's identifier in the error messages of `CreatePoolTransaction`
abbrev pub sliced_error : Text → TradeError
sliced_error token = if ltb (length token) 8 then trade_panic else few_tokens

module _ (ext : External) where
  abbrev pub is_shadow : Text → Bool
  is_shadow token = token == ext.genesis_token_id

  -- the choice of outputs for the first token: in SHADOW, for the amount and the least fee
  unfoldable pub select_a : Text → ℕ → List Utxo → List Utxo × ℕ
  select_a a amount us =
      if is_shadow a
      then select (add64 amount 11500) (unspent_of ext.genesis_token_id us)
      else select amount (unspent_besides ext.genesis_token_id a us)

  abbrev pub needed_a : Text → ℕ → ℕ
  needed_a a amount = if is_shadow a then add64 amount 11500 else amount

  -- the choice for the second token, from the SHADOW outputs that the first left
  unfoldable pub select_b : Text → Text → ℕ → List Utxo → List Utxo → List Utxo × ℕ
  select_b a b amount coins_a us =
      if is_shadow b
      then if is_shadow a
        then select amount (behind coins_a (unspent_of ext.genesis_token_id us))
        else select (add64 amount 11500) (unspent_of ext.genesis_token_id us)
      else select amount (unspent_beyond ext.genesis_token_id a b us)

  abbrev pub needed_b : Text → Text → ℕ → ℕ
  needed_b a b amount = if is_shadow b && not (is_shadow a) then add64 amount 11500 else amount

  -- the choice of SHADOW for the fee, where neither token is SHADOW
  unfoldable pub select_fee : Text → Text → ℕ → List Utxo → List Utxo × ℕ
  select_fee a b fee us =
      if is_shadow a || is_shadow b
      then ([], 0)
      else select fee (unspent_of ext.genesis_token_id us)

  -- the selections of `CreatePoolTransaction` and `CreateAddLiquidityTransaction`, with the error for
  -- too little of a custom token
  unfoldable pub select_pair :
      (Text → TradeError) → Text → Text → ℕ → ℕ → List Utxo → Result TradeError PairSelection
  select_pair short a b amount_a amount_b us =
      let (as', total_a) = select_a a amount_a us in
      let (bs, total_b) = select_b a b amount_b as' us in
      let fee : ℕ = estimated_fee (length as' + length bs + 4) in
      let (ss, sum) = select_fee a b fee us in
      (do
        fail_if (ltb total_a (needed_a a amount_a)) (if is_shadow a then few_shadow else short a)
        fail_if (ltb total_b (needed_b a b amount_b)) (if is_shadow b then few_shadow else short b)
        fail_if (not (is_shadow a || is_shadow b) && ltb sum fee) few_shadow
        ok (record {
          coins_a = as';
          total_a = total_a;
          coins_b = bs;
          total_b = total_b;
          shadow = ss;
          shadow_total = sum;
          fee = fee;
        }))

  -- what goes back of a token of the pair: a token in SHADOW also pays the fee
  abbrev pub left_over : Text → ℕ → ℕ → ℕ → ℕ
  left_over token total amount fee =
      if is_shadow token then sub64 (sub64 total amount) fee else sub64 total amount

  abbrev pub pair_inputs : PairSelection → TxBuilder → TxBuilder
  pair_inputs s b = add_inputs s.shadow (add_inputs s.coins_b (add_inputs s.coins_a b))

  -- the change of the pair, and of SHADOW where neither token is SHADOW
  unfoldable pub pair_change : Address → Text → Text → ℕ → ℕ → PairSelection → TxBuilder → TxBuilder
  pair_change back a b amount_a amount_b s t =
      let t1 : TxBuilder = add_change ext back (left_over a s.total_a amount_a s.fee) a t in
      let t2 : TxBuilder = add_change ext back (left_over b s.total_b amount_b s.fee) b t1 in
      if is_shadow a || is_shadow b
      then t2
      else add_change ext back (sub64 s.shadow_total s.fee) ext.genesis_token_id t2

  -- from the selection on: the inputs, the change, the data and the signature
  unfoldable pub spend_pair :
      (Text → TradeError)
      → TxBuilder
      → NodeWallet
      → Text
      → Text
      → ℕ
      → ℕ
      → Option Text
      → List Utxo
      → Result TradeError Transaction
  spend_pair short start w a b amount_a amount_b payload us = do
    s ← select_pair short a b amount_a amount_b us
    fail_if (is_shadow a && is_shadow b) both_shadow
    finish_trade ext w payload (pair_change w.address a b amount_a amount_b s (pair_inputs s start))

  module _ (now : ℕ) (w : NodeWallet) where
    -- the checks of `CreatePoolTransaction` before it reads the outputs
    unfoldable pub check_pool : CreatePoolData → Result TradeError (Unit {0})
    check_pool d = do
      or_fee_error (validate_fee d.fee_percent)
      fail_if (d.token_a == d.token_b) same_tokens

    -- the rest of `CreatePoolTransaction`; the pool's address in the data is the wallet's
    unfoldable pub create_pool_from :
        (CreatePoolData → Option Text) → CreatePoolData → List Utxo → Result TradeError Transaction
    create_pool_from marshal d us =
        spend_pair sliced_error (new_tx_builder create_pool now) w d.token_a d.token_b d.amount_a
          d.amount_b (marshal (record d { pool_address = w.address })) us

    -- the check of `CreateAddLiquidityTransaction`
    unfoldable pub check_ratio : AddLiquidityData → LiquidityPool → Result TradeError (Unit {0})
    check_ratio d p =
        fail_if (not (validate_pool_ratio d.amount_a d.amount_b p.reserve_a p.reserve_b 1))
          ratio_mismatch

    -- the rest of `CreateAddLiquidityTransaction`
    unfoldable pub add_liquidity_from :
        (AddLiquidityData → Option Text)
        → AddLiquidityData
        → LiquidityPool
        → List Utxo
        → Result TradeError Transaction
    add_liquidity_from marshal d p us =
        spend_pair (λ token. few_tokens) (new_tx_builder add_liquidity now) w p.token_a p.token_b
          d.amount_a d.amount_b (marshal d) us

    -- inputs and change of a transaction that gives an amount of one token and pays the fee in SHADOW
    abbrev pub give_change : TxType → Text → ℕ → Selection → TxBuilder
    give_change ty token amount s =
        add_change ext w.address (sub64 s.shadow_total s.fee) ext.genesis_token_id (
          add_change ext w.address (sub64 s.token_total amount) token
            (add_inputs s.shadow (add_inputs s.tokens (new_tx_builder ty now))))

    abbrev pub give : TxType → Text → ℕ → Option Text → List Utxo → Result TradeError Transaction
    give ty token amount payload us = do
      s ←
          select_with_fee 4 amount (unspent_of token us)
            (unspent_besides token ext.genesis_token_id us)
      finish_trade ext w payload (give_change ty token amount s)

    -- `CreateRemoveLiquidityTransaction` with the pool and the outputs
    unfoldable pub remove_liquidity_from :
        (RemoveLiquidityData → Option Text)
        → RemoveLiquidityData
        → LiquidityPool
        → List Utxo
        → Result TradeError Transaction
    remove_liquidity_from marshal d p us =
        give remove_liquidity p.lp_token_id d.lp_tokens (marshal d) us

    -- the check of `CreateSwapTransaction`, whose error slices three identifiers
    unfoldable pub check_swap : SwapData → LiquidityPool → Result TradeError (Unit {0})
    check_swap d p = fail_if (not (d.token_in == p.token_a) && not (d.token_in == p.token_b)) (
        if ltb (length d.token_in) 8 || (ltb (length p.token_a) 8 || ltb (length p.token_b) 8)
        then trade_panic
        else not_in_pool)

    -- the rest of `CreateSwapTransaction`
    unfoldable pub swap_from :
        (SwapData → Option Text) → SwapData → List Utxo → Result TradeError Transaction
    swap_from marshal d us = give swap d.token_in d.amount_in (marshal d) us
