-- ===== src/Builders.antt =====
-- The transactions of lib/transaction_types.go other than the simple send: rewards, sends, mints, melts,
-- swap tokens and batch sends. The readings of the clock are arguments. A run-time panic is the error
-- `builder_panic`, and so is the call of `panic`.
pub mod Balance
pub mod Melts
pub mod Wallet
use shadowd.Common.{
  ℕ, ◌+◌, Bool, true, false, not, Option, none, some, List, [], ◌∷◌, ◌++◌, length, take, is_empty,
  ltb, ◌==◌, if◌then◌else◌,
}
use shadowd.Common.Text.{Text, bytes, text_eq}
use shadowd.Common.Word.{add64, sub64, sum64}
use shadowd.Common.Result.{Result, ok, err, ◌>>=◌, ◌>>◌, fail_if}
use shadowd.Tx.{
  Address, TxType, coinbase, send, mint_token, melt, TxInput, TxOutput, Transaction, Utxo,
}
use shadowd.Tx.External.{External}
use shadowd.Tx.Outputs.{be_bytes, token_output, tx_fee}
use shadowd.Tx.Builder.{
  TxBuilder, new_tx_builder, add_input, add_custom_output, add_output, set_data, set_timestamp,
  build,
}
use shadowd.Token.{TokenInfo, staking_requirement}
use shadowd.Chain.{decimal, signed_decimal}
use shadowd.Addresses.{string_with_type}

pub data BuilderError : Type 0 where
  mixed_melt few_to_melt few_to_send builder_panic : BuilderError

-- the loops that add inputs and outputs
unfoldable pub add_spent : List TxInput → TxBuilder → TxBuilder
add_spent [] b = b
add_spent (i ∷ is) b = add_spent is (add_input i.prev_tx_id i.output_index b)

unfoldable pub add_custom_outputs : List TxOutput → TxBuilder → TxBuilder
add_custom_outputs [] b = b
add_custom_outputs (o ∷ os) b = add_custom_outputs os (add_custom_output o b)

unfoldable pub add_utxos : List Utxo → TxBuilder → TxBuilder
add_utxos [] b = b
add_utxos (u ∷ us) b = add_utxos us (add_input u.tx_id u.output_index b)

-- `CreateSendTransaction`
unfoldable pub create_send : ℕ → List TxInput → List TxOutput → Transaction
create_send now ins outs = build (add_custom_outputs outs (add_spent ins (new_tx_builder send now)))

-- a mint of one output, with the data of the transaction
abbrev pub mint_of : ℕ → TxOutput → Text → Transaction
mint_of now o text = build (set_data text (add_custom_output o (new_tx_builder mint_token now)))

-- `CreateMintTokenTransaction`
unfoldable pub create_mint_token : ℕ → Text → Text → ℕ → Address → Text → Transaction
create_mint_token now id kind n to metadata =
    record (mint_of now (token_output to n id kind metadata)
      (bytes "token_mint_" ++ id ++ bytes "_" ++ decimal n)) { token_id = id }

-- `CreateMeltTransaction`
unfoldable pub create_melt : ℕ → List Utxo → Text → Transaction
create_melt now us reason =
    build (set_data (bytes "melt_reason_" ++ reason) (add_utxos us (new_tx_builder melt now)))

-- the builder, the total and the token of the loop of `CreatePartialMeltTransaction`
pub record MeltSum : Type 0 where
  pub builder : TxBuilder
  pub total : ℕ
  pub token : Text

abbrev pub melt_one : Utxo → MeltSum → MeltSum
melt_one u s = record {
  builder = add_input u.tx_id u.output_index s.builder;
  total = add64 s.total u.output.amount;
  token = if is_empty s.token then u.output.token_id else s.token;
}

-- that loop: an output of another token than the ones before it is an error
unfoldable pub melt_from : List Utxo → MeltSum → Result BuilderError MeltSum
melt_from [] s = ok s
melt_from (u ∷ us) s = do
  fail_if (if is_empty s.token then false else not (s.token == u.output.token_id)) mixed_melt
  melt_from us (melt_one u s)

abbrev pub melt_change : Address → ℕ → Text → TxBuilder → TxBuilder
melt_change back n token b =
    if ltb 0 n then add_custom_output (token_output back n token (bytes "custom") []) b else b

abbrev pub finish_partial : ℕ → Address → Text → MeltSum → Result BuilderError Transaction
finish_partial n back reason s = do
  fail_if (ltb s.total n) few_to_melt
  ok (
      build (
        set_data
          (bytes "melt_" ++ s.token ++ bytes "_amount_" ++ decimal n ++ bytes "_reason_" ++ reason)
          (melt_change back (sub64 s.total n) s.token s.builder)))

-- `CreatePartialMeltTransaction`
unfoldable pub create_partial_melt :
    ℕ → List Utxo → ℕ → Address → Text → Result BuilderError Transaction
create_partial_melt now us n back reason = do
  s ← melt_from us (record { builder = new_tx_builder melt now; total = 0; token = [] })
  finish_partial n back reason s

-- the identifier and the data of a swap token
unfoldable pub swap_offer_id : Text → ℕ → Text → ℕ → ℕ → Text
swap_offer_id offered n wanted m now =
    bytes "SWAP_"
    ++ offered
    ++ bytes "_"
    ++ decimal n
    ++ bytes "_FOR_"
    ++ wanted
    ++ bytes "_"
    ++ decimal m
    ++ bytes "_"
    ++ signed_decimal now

unfoldable pub swap_offer_data : Text → ℕ → Text → ℕ → Text
swap_offer_data offered n wanted m =
    bytes "offer:"
    ++ offered
    ++ bytes ":"
    ++ decimal n
    ++ bytes ":request:"
    ++ wanted
    ++ bytes ":"
    ++ decimal m

-- `CreateSwapOfferTransaction`, with the clock of the builder and of the identifier
unfoldable pub create_swap_offer : ℕ → ℕ → Address → Text → ℕ → Text → ℕ → Transaction
create_swap_offer now later a offered n wanted m =
    let id : Text = swap_offer_id offered n wanted m later in
    mint_of now (token_output a 1 id (bytes "swap_offer") (swap_offer_data offered n wanted m))
      (bytes "swap_offer_" ++ id)

-- `CreateRevokeSwapTransaction`
unfoldable pub create_revoke_swap : ℕ → Utxo → Result BuilderError Transaction
create_revoke_swap now u = do
  fail_if (not (u.output.token_type == bytes "swap_offer")) builder_panic
  ok (create_melt now (u ∷ []) (bytes "revoke_swap_offer"))

pub record TokenMint : Type 0 where
  pub token_id : Text
  pub token_type : Text
  pub amount : ℕ
  pub recipient_address : Address
  pub metadata : Text

unfoldable pub add_mints : List TokenMint → TxBuilder → TxBuilder
add_mints [] b = b
add_mints (m ∷ ms) b = add_mints ms (
    add_custom_output (token_output m.recipient_address m.amount m.token_id m.token_type m.metadata)
      b)

pub record SendRecipient : Type 0 where
  pub address : Address
  pub amount : ℕ

-- the loop of `CreateBatchSendTransaction` over the outputs to spend
unfoldable pub batch_inputs : List Utxo → TxBuilder → ℕ → TxBuilder × ℕ
batch_inputs [] b total = (b, total)
batch_inputs (u ∷ us) b total =
    let (rest, sum) =
      batch_inputs us (add_input u.tx_id u.output_index b) (add64 total u.output.amount) in
    let (others, other_sum) = batch_inputs us b total in
    if u.output.token_id == bytes "SHADOW" then (rest, sum) else (others, other_sum)

-- its fee, with an output for the change where more comes in than goes out
unfoldable pub batch_fee : ℕ → ℕ → ℕ → ℕ → ℕ
batch_fee ins outs total wanted = tx_fee send ins (if ltb wanted total then outs + 1 else outs) 0

module _ (ext : External) where
  -- `CreateCoinbaseTransaction`, which does not use the timestamp that it is given
  unfoldable pub create_coinbase : ℕ → Address → ℕ → ℕ → Transaction
  create_coinbase now miner height reward = build (
      set_data (bytes "block_height_" ++ decimal height) (
        add_output ext miner reward (bytes "SHADOW")
          (set_timestamp height (new_tx_builder coinbase now))))

  -- `CreateMintTokenTransactionFromTokenInfo`
  unfoldable pub create_mint_from_info : ℕ → TokenInfo → ℕ → Address → Transaction
  create_mint_from_info now t n to =
      record (mint_of now
        (token_output to n t.token_id (bytes "custom") (bytes "token:" ++ t.ticker))
        (bytes "token_mint_"
          ++ t.token_id
          ++ bytes "_"
          ++ decimal n
          ++ bytes "_stake_"
          ++ decimal (staking_requirement ext t))) { token_id = t.token_id }

  abbrev pub multi_mint_text : Option Text → Result BuilderError Text
  multi_mint_text none = err builder_panic
  multi_mint_text (some s) = ok (bytes "multi_token_mint_by_" ++ take 16 s)

  -- `CreateMultiTokenMintTransaction`; the text of an address is longer than 16 bytes
  unfoldable pub create_multi_mint : ℕ → List TokenMint → Address → Result BuilderError Transaction
  create_multi_mint now ms creator = do
    text ← multi_mint_text (string_with_type ext.blake2b b'S' (be_bytes 32 creator))
    ok (build (set_data text (add_mints ms (new_tx_builder mint_token now))))

  unfoldable pub batch_outputs : List SendRecipient → TxBuilder → TxBuilder
  batch_outputs [] b = b
  batch_outputs (r ∷ rs) b = batch_outputs rs (add_output ext r.address r.amount (bytes "SHADOW") b)

  abbrev pub batch_change : Address → ℕ → TxBuilder → TxBuilder
  batch_change back n b = if ltb 0 n then add_output ext back n (bytes "SHADOW") b else b

  abbrev pub finish_batch :
      List SendRecipient → Address → TxBuilder × ℕ → Result BuilderError Transaction
  finish_batch rs back (b, total) =
      let wanted : ℕ = sum64 (λ r. r.amount) 0 rs in
      let fee : ℕ = batch_fee (length b.inputs) (length rs) total wanted in
      (do
        fail_if (ltb total (add64 wanted fee)) few_to_send
        ok (build (batch_change back (sub64 (sub64 total wanted) fee) (batch_outputs rs b))))

  -- `CreateBatchSendTransaction`
  unfoldable pub create_batch_send :
      ℕ → List Utxo → List SendRecipient → Address → Result BuilderError Transaction
  create_batch_send now us rs back =
      finish_batch rs back (batch_inputs us (new_tx_builder send now) 0)
