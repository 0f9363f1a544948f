-- ===== src/Trading.antt =====
-- What the builders of lib/swap.go and lib/liquidity_tx.go share: the choice of outputs of an address,
-- the fee, and the signing of a transaction by the node's wallet (lib/transaction.go, lib/wallet.go).
-- A run-time panic is the error `trade_panic`.
pub mod Offers
pub mod Liquidity
pub mod Stored
pub mod Send
pub mod Listing
pub mod Selected
pub mod Balance
pub mod Shadow
pub mod Wraps
use shadowd.Common.{
  ℕ, ◌+◌, Bool, true, false, not, ◌&&◌, Option, none, some, List, [], ◌∷◌, ◌++◌, length, keep,
  is_empty, leb, ltb, ◌==◌, if◌then◌else◌,
}
use shadowd.Common.Text.{Text, text_eq}
use shadowd.Common.Word.{add64, sub64, mul64}
use shadowd.Common.Result.{Result, ok, err, ◌>>=◌, ◌>>◌, fail_if}
use shadowd.Tx.{Address, TxType, Transaction, Utxo}
use shadowd.Tx.External.{External, tx_hash}
use shadowd.Tx.Builder.{TxBuilder, new_tx_builder, add_input, add_output, set_data, build}
use shadowd.Pool.{PoolError}
use shadowd.Utxo.Store.{StoreError}

-- `NodeWallet`: its address, and of its key pair the packed public key, or none where packing fails,
-- and `mldsa87.SignTo` with the private key
pub record NodeWallet : Type 0 where
  pub address : Address
  pub public_key : Option Text
  pub mldsa_sign : Text → Text

pub data TradeError : Type 0 where
  few_tokens few_shadow no_marshal no_hash empty_message no_public_key : TradeError
  not_an_offer bad_offer offer_expired not_cancellable same_tokens both_shadow : TradeError
  pool_missing ratio_mismatch not_in_pool trade_panic bad_address bad_memo refused : TradeError
  fee_error : PoolError → TradeError
  lookup_error : StoreError → TradeError

abbrev pub some_or_trade {κ} : {A : Type κ} → TradeError → Option A → Result TradeError A
some_or_trade e none = err e
some_or_trade e (some a) = ok a

-- `KeyPair.Sign`
unfoldable pub sign_message : NodeWallet → Text → Result TradeError Text
sign_message w m = do fail_if (is_empty m) empty_message; ok (w.mldsa_sign m)

-- `Transaction.Sign`, which `NodeWallet.SignTransaction` calls
unfoldable pub sign_transaction :
    External → NodeWallet → Transaction → Result TradeError Transaction
sign_transaction ext w t = do
  hash ← some_or_trade no_hash (tx_hash ext t)
  signature ← sign_message w hash
  key ← some_or_trade no_public_key w.public_key
  ok (record t { public_key = key; signature = signature })

-- the loop that takes outputs until they cover an amount, from the total so far
unfoldable pub select_from : ℕ → List Utxo → ℕ → List Utxo × ℕ
select_from needed [] total = ([], total)
select_from needed (u ∷ us) total =
    let total' : ℕ = add64 total u.output.amount in
    let (more, sum) = select_from needed us total' in
    if leb needed total' then (u ∷ [], total') else (u ∷ more, sum)

abbrev pub select : ℕ → List Utxo → List Utxo × ℕ
select needed us = select_from needed us 0

-- the unspent outputs in a token
abbrev pub unspent_of : Text → List Utxo → List Utxo
unspent_of token us = keep (λ u. not u.is_spent && (u.output.token_id == token)) us

-- those in a second token, behind the `else if` of the first
abbrev pub unspent_besides : Text → Text → List Utxo → List Utxo
unspent_besides other token us =
    keep (λ u. not u.is_spent && (not (u.output.token_id == other) && (u.output.token_id == token)))
      us

-- `uint64(n) * 1150`, at least 11500
unfoldable pub estimated_fee : ℕ → ℕ
estimated_fee n = let f : ℕ = mul64 n 1150 in if ltb f 11500 then 11500 else f

-- the selected outputs of a token and of SHADOW, their totals, and the fee
pub record Selection : Type 0 where
  pub tokens : List Utxo
  pub token_total : ℕ
  pub shadow : List Utxo
  pub shadow_total : ℕ
  pub fee : ℕ

-- the outputs for an amount of a token, and SHADOW for the fee of their number and `extra` more
unfoldable pub select_with_fee : ℕ → ℕ → List Utxo → List Utxo → Result TradeError Selection
select_with_fee extra amount tokens shadows =
    let (ts, total) = select amount tokens in
    let fee : ℕ = estimated_fee (length ts + extra) in
    let (ss, sum) = select fee shadows in
    (do
      fail_if (ltb total amount) few_tokens
      fail_if (ltb sum fee) few_shadow
      ok (record { tokens = ts; token_total = total; shadow = ss; shadow_total = sum; fee = fee }))

unfoldable pub add_inputs : List Utxo → TxBuilder → TxBuilder
add_inputs [] b = b
add_inputs (u ∷ us) b = add_inputs us (add_input u.tx_id u.output_index b)

module _ (ext : External) where
  -- an output back to the wallet, if there is something to return
  unfoldable pub add_change : Address → ℕ → Text → TxBuilder → TxBuilder
  add_change a n token b = if ltb 0 n then add_output ext a n token b else b

  -- the end of each builder: the data, `Build` and the signature
  unfoldable pub finish_trade : NodeWallet → Option Text → TxBuilder → Result TradeError Transaction
  finish_trade w payload b = do
    bs ← some_or_trade no_marshal payload
    sign_transaction ext w (build (set_data bs b))
