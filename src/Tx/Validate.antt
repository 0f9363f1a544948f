-- ===== src/Tx/Validate.antt =====
-- The context-free validation of lib/transaction.go: `ValidateTransaction` and one validator for
-- each transaction type. A validator's error is named for the message that it returns.
pub mod Accepts
use shadowd.Common.{
  ℕ, Bool, true, false, not, List, [], ◌∷◌, any, length, is_empty, Option, none, some, ◌==◌, nat_eq,
}
use shadowd.Common.Text.{Text, text_eq}
use shadowd.Common.Result.{Result, ok, err, ◌>>=◌, ◌>>◌, fail_if}
use shadowd.Tx.{
  TxType, coinbase, send, mint_token, melt, register_validator, offer, accept_offer, cancel_offer,
  create_pool, add_liquidity, remove_liquidity, swap, unknown, TxOutput, Transaction,
}
use shadowd.Tx.External.{External, tx_hash, public_key_from_bytes, verify_signature}
use shadowd.Tx.Outputs.{is_token_output}

pub data TxError : Type 0 where
  invalid_type has_inputs has_outputs bad_registration no_inputs no_outputs not_shadow : TxError
  zero_amount no_public_key no_signature bad_public_key no_hash bad_signature no_payload : TxError
  no_custom_token : TxError

abbrev pub Check : Type 0
Check = Result TxError (Unit {0})

-- `validateRegisterValidatorTransaction`
pub validate_register_validator : Transaction → Check
validate_register_validator t = do
  fail_if (not (is_empty t.inputs)) has_inputs
  fail_if (not (is_empty t.outputs)) has_outputs
  fail_if (not (length t.payload == 52)) bad_registration

-- `validateMeltTransaction`
pub validate_melt : Transaction → Check
validate_melt t = do
  fail_if (is_empty t.inputs) no_inputs
  fail_if (is_empty t.signature) no_signature

module _ (ext : External) where
  -- the loop of `validateCoinbaseTransaction`
  pub coinbase_outputs : List TxOutput → Check
  coinbase_outputs [] = ok tt
  coinbase_outputs (o ∷ os) = do
    fail_if (is_token_output ext o) not_shadow
    fail_if (o.amount == 0) zero_amount
    coinbase_outputs os

  -- `validateCoinbaseTransaction`
  pub validate_coinbase : Transaction → Check
  validate_coinbase t = do
    fail_if (not (is_empty t.inputs)) has_inputs
    fail_if (is_empty t.outputs) no_outputs
    coinbase_outputs t.outputs

  check_hash : Transaction → Text → Option Text → Check
  check_hash t key none = err no_hash
  check_hash t key (some h) = fail_if (not (verify_signature ext h t.signature key)) bad_signature

  check_key : Transaction → Option Text → Check
  unfolding check_hash
  check_key t none = err bad_public_key
  check_key t (some key) = check_hash t key (tx_hash ext t)

  -- the three steps that verify a signature: the key, the hash, and the signature itself
  pub check_signature : Transaction → Check
  unfolding check_key
  check_signature t = check_key t (public_key_from_bytes ext t.public_key)

  -- `if len(tx.PublicKey) > 0 { … }`
  pub check_signature_if_key : Transaction → Check
  check_signature_if_key t = elim (is_empty t.public_key) [
    | true ↦ ok tt
    | false ↦ check_signature t
  ]

  -- `validateSendTransaction`
  pub validate_send : Transaction → Check
  validate_send t = do
    fail_if (is_empty t.inputs) no_inputs
    fail_if (is_empty t.outputs) no_outputs
    fail_if (is_empty t.public_key) no_public_key
    fail_if (is_empty t.signature) no_signature
    check_signature t

  -- `validateMintTokenTransaction`
  pub validate_mint_token : Transaction → Check
  validate_mint_token t = do
    fail_if (is_empty t.outputs) no_outputs
    fail_if (is_empty t.payload) no_payload
    fail_if (not (any (is_token_output ext) t.outputs)) no_custom_token
    fail_if (is_empty t.signature) no_signature

  -- `validateOfferTransaction`
  pub validate_offer : Transaction → Check
  validate_offer t = do
    fail_if (is_empty t.inputs) no_inputs
    fail_if (is_empty t.payload) no_payload
    fail_if (is_empty t.signature) no_signature
    check_signature_if_key t

  -- `validateAcceptOfferTransaction`
  pub validate_accept_offer : Transaction → Check
  validate_accept_offer t = do
    fail_if (is_empty t.inputs) no_inputs
    fail_if (is_empty t.outputs) no_outputs
    fail_if (is_empty t.payload) no_payload
    fail_if (is_empty t.signature) no_signature
    check_signature_if_key t

  -- `validateCancelOfferTransaction`
  pub validate_cancel_offer : Transaction → Check
  validate_cancel_offer t = do
    fail_if (is_empty t.inputs) no_inputs
    fail_if (is_empty t.outputs) no_outputs
    fail_if (is_empty t.payload) no_payload
    fail_if (is_empty t.signature) no_signature
    check_signature_if_key t

  -- `validateCreatePoolTransaction`
  pub validate_create_pool : Transaction → Check
  validate_create_pool t = do
    fail_if (is_empty t.inputs) no_inputs
    fail_if (is_empty t.payload) no_payload
    fail_if (is_empty t.signature) no_signature
    check_signature_if_key t

  -- `validateAddLiquidityTransaction`
  pub validate_add_liquidity : Transaction → Check
  validate_add_liquidity t = do
    fail_if (is_empty t.inputs) no_inputs
    fail_if (is_empty t.payload) no_payload
    fail_if (is_empty t.signature) no_signature
    check_signature_if_key t

  -- `validateRemoveLiquidityTransaction`
  pub validate_remove_liquidity : Transaction → Check
  validate_remove_liquidity t = do
    fail_if (is_empty t.inputs) no_inputs
    fail_if (is_empty t.payload) no_payload
    fail_if (is_empty t.signature) no_signature
    check_signature_if_key t

  -- `validateSwapTransaction`
  pub validate_swap : Transaction → Check
  validate_swap t = do
    fail_if (is_empty t.inputs) no_inputs
    fail_if (is_empty t.payload) no_payload
    fail_if (is_empty t.signature) no_signature
    check_signature_if_key t

  -- the `switch` of `ValidateTransaction`, behind its range check
  pub validate_as : TxType → Transaction → Check
  validate_as coinbase t = validate_coinbase t
  validate_as send t = validate_send t
  validate_as mint_token t = validate_mint_token t
  validate_as melt t = validate_melt t
  validate_as register_validator t = validate_register_validator t
  validate_as offer t = validate_offer t
  validate_as accept_offer t = validate_accept_offer t
  validate_as cancel_offer t = validate_cancel_offer t
  validate_as create_pool t = validate_create_pool t
  validate_as add_liquidity t = validate_add_liquidity t
  validate_as remove_liquidity t = validate_remove_liquidity t
  validate_as swap t = validate_swap t
  validate_as unknown t = err invalid_type

  -- `ValidateTransaction`
  pub validate_transaction : Transaction → Check
  validate_transaction t = validate_as t.tx_type t
