-- ===== src/Tx/Validate/Accepts.antt =====
-- What `ValidateTransaction` accepts, described without its code, for each transaction type.
use shadowd.Common.{
  ◌≡◌, ◌≢◌, ◌↔◌, ◌⊎◌, ◌<◌, true, false, List, [], ◌∷◌, any, All, length, some, arith,
}
use shadowd.Common.Text.{Text, text_beq_iff}
use shadowd.Common.Result.{ok}
use shadowd.Tx.{
  TxType, coinbase, send, mint_token, melt, register_validator, accept_offer, cancel_offer, unknown,
  TxOutput, Transaction,
}
use shadowd.Tx.External.{External, tx_hash, public_key_from_bytes, verify_signature}
use shadowd.Tx.Outputs.{is_token_output}
use shadowd.Tx.Validate.{
  validate_register_validator, validate_melt, coinbase_outputs, validate_coinbase, check_signature,
  check_signature_if_key, validate_send, validate_mint_token, validate_offer, validate_accept_offer,
  validate_cancel_offer, validate_create_pool, validate_add_liquidity, validate_remove_liquidity,
  validate_swap, validate_as, validate_transaction,
}

module _ (ext : External) where
  -- The signature over the transaction's hash verifies under the public key that it carries.
  abbrev pub IsAuthentic : Transaction → Type 0
  IsAuthentic t =
      (key : Text) × (h : Text) × (public_key_from_bytes ext t.public_key ≡ some key)
      × (tx_hash ext t ≡ some h)
      × (verify_signature ext h t.signature key ≡ true)

  abbrev pub IsShadow : TxOutput → Type 0
  IsShadow o = o.token_id ≡ ext.genesis_token_id

  abbrev pub IsReward : TxOutput → Type 0
  IsReward o = IsShadow o × (0 < o.amount)

  -- The exchange and pool types check the signature only if there is a public key.
  abbrev pub IsTrade : Transaction → Type 0
  IsTrade t =
      (t.inputs ≢ [])
      × (t.payload ≢ [])
      × (t.signature ≢ [])
      × ((t.public_key ≡ []) ⊎ IsAuthentic t)

  abbrev pub Accepts : TxType → Transaction → Type 0
  Accepts coinbase t = (t.inputs ≡ []) × (t.outputs ≢ []) × All IsReward t.outputs
  Accepts send t =
      (t.inputs ≢ []) × (t.outputs ≢ []) × (t.public_key ≢ []) × (t.signature ≢ []) × IsAuthentic t
  Accepts mint_token t =
      (t.outputs ≢ []) × (t.payload ≢ []) × (t.signature ≢ []) × (¬ All IsShadow t.outputs)
  Accepts melt t = (t.inputs ≢ []) × (t.signature ≢ [])
  Accepts register_validator t = (t.inputs ≡ []) × (t.outputs ≡ []) × (length t.payload ≡ 52)
  Accepts accept_offer t = (t.outputs ≢ []) × IsTrade t
  Accepts cancel_offer t = (t.outputs ≢ []) × IsTrade t
  Accepts unknown t = ⊥
  Accepts _ t = IsTrade t

  check_signature_iff : (t : Transaction) → (check_signature ext t ≡ ok tt) ↔ IsAuthentic t
  unfolding check_signature
  check_signature_iff t = ground arith

  coinbase_outputs_iff : (os : List TxOutput) → (coinbase_outputs ext os ≡ ok tt) ↔ All IsReward os
  unfolding coinbase_outputs is_token_output
  coinbase_outputs_iff [] = ground arith
  coinbase_outputs_iff (o ∷ os) =
      ground (arith, coinbase_outputs_iff os, text_beq_iff o.token_id ext.genesis_token_id)

  any_token_iff : (os : List TxOutput) → (any (is_token_output ext) os ≡ false) ↔ All IsShadow os
  unfolding is_token_output
  any_token_iff [] = ground arith
  any_token_iff (o ∷ os) =
      ground (arith, any_token_iff os, text_beq_iff o.token_id ext.genesis_token_id)

  check_signature_if_key_iff :
      (t : Transaction)
      → (check_signature_if_key ext t ≡ ok tt) ↔ ((t.public_key ≡ []) ⊎ IsAuthentic t)
  unfolding check_signature_if_key
  check_signature_if_key_iff t = ground (arith, check_signature_iff t)

  validate_as_iff : (ty : TxType) (t : Transaction) → (validate_as ext ty t ≡ ok tt) ↔ Accepts ty t
  unfolding validate_as validate_coinbase validate_send validate_mint_token validate_melt
      validate_register_validator validate_offer validate_accept_offer validate_cancel_offer
      validate_create_pool validate_add_liquidity validate_remove_liquidity validate_swap
  validate_as_iff coinbase t = ground (arith, coinbase_outputs_iff t.outputs)
  validate_as_iff send t = ground (arith, check_signature_iff t)
  validate_as_iff mint_token t = ground (arith, any_token_iff t.outputs)
  validate_as_iff melt t = ground arith
  validate_as_iff register_validator t = ground arith
  validate_as_iff accept_offer t = ground (arith, check_signature_if_key_iff t)
  validate_as_iff cancel_offer t = ground (arith, check_signature_if_key_iff t)
  validate_as_iff unknown t = ground arith
  validate_as_iff ty t = ground (arith, check_signature_if_key_iff t)

  -- A transaction passes context-free validation exactly when it meets the description of its
  -- type: rewards in SHADOW only, an authentic signature for a send, and for the exchange and pool
  -- types an authentic signature or no public key at all.
  pub validate_transaction_iff :
      (t : Transaction) → (validate_transaction ext t ≡ ok tt) ↔ Accepts t.tx_type t
  unfolding validate_transaction
  validate_transaction_iff t = validate_as_iff t.tx_type t
