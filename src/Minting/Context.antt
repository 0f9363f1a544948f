-- ===== src/Minting/Context.antt =====
-- `ValidateTokenMeltTransaction` of lib/token_transactions.go, and `ValidateTransactionWithContext` of
-- lib/transaction.go with a store and a registry. A read that fails or finds nothing is one error.
use shadowd.Common.{not, Option, none, some, List, [], ◌∷◌, ◌==◌, nat_eq}
use shadowd.Common.Text.{Text, text_eq}
use shadowd.Common.Result.{Result, ok, err}
use shadowd.Common.State.{Action, pure, raise, raise_if, lift, ◌>>=◌, ◌>>◌}
use shadowd.Tx.{TxType, mint_token, melt, TxInput, Transaction, Utxo, input_point}
use shadowd.Tx.External.{External}
use shadowd.Tx.Validate.{TxError, validate_transaction}
use shadowd.Token.Registry.{Registry}
use shadowd.Utxo.Database.{Database}
use shadowd.Utxo.Store.{Store, StoreError, get_utxo}
use shadowd.Process.World.{TokenMintData}
use shadowd.Minting.{
  MintingError, base_token, mixed_tokens, not_melt, no_inputs, not_found, tx_error, Totals,
  count_output, is_melt, validate_token_mint, nothing, melt_paid, check_proportions,
}

abbrev pub or_tx_error : Result TxError (Unit {0}) → Result MintingError (Unit {0})
or_tx_error (ok _) = ok tt
or_tx_error (err e) = err (tx_error e)

module _ {kv : Database} where
  abbrev pub must_find :
      Result StoreError (Option Utxo) × Store kv → Result MintingError Utxo × Store kv
  must_find (ok (some u), s) = (ok u, s)
  must_find (ok none, s) = (err not_found, s)
  must_find (err e, s) = (err not_found, s)

  -- `GetUTXO` of an input, and the test of what it returns
  unfoldable pub input_utxo : TxInput → Action (Store kv) MintingError Utxo
  input_utxo i s = must_find (get_utxo kv (input_point i) s)

  -- the loop of `ValidateTokenMeltTransaction` over the inputs
  unfoldable pub melt_held : Text → List TxInput → Totals → Action (Store kv) MintingError Totals
  melt_held token [] t = pure t
  melt_held token (i ∷ is) t = do
    u ← input_utxo i
    raise_if (not (u.output.token_id == token)) mixed_tokens
    melt_held token is (count_output u.output t)

  -- the part of `ValidateTokenMeltTransaction` that reads the outputs
  abbrev pub compare_totals :
      External → Transaction → Text → Totals → Action (Store kv) MintingError (Unit {0})
  compare_totals ext t token total = do
    paid ←
        lift
          (melt_paid ext.genesis_token_id token t.outputs (record { shadow = 0; kept = nothing }))
    lift (check_proportions total paid)

  -- the part behind the first input's output
  abbrev pub melt_one_token :
      External → Transaction → List TxInput → Utxo → Action (Store kv) MintingError (Unit {0})
  melt_one_token ext t is first = do
    raise_if (first.output.token_id == ext.genesis_token_id) base_token
    total ← melt_held first.output.token_id is nothing
    compare_totals ext t first.output.token_id total

  -- the part behind the test of the type
  unfoldable pub melt_inputs :
      External → Transaction → List TxInput → Action (Store kv) MintingError (Unit {0})
  melt_inputs ext t [] = raise no_inputs
  melt_inputs ext t (i ∷ is) = do first ← input_utxo i; melt_one_token ext t (i ∷ is) first

  -- `ValidateTokenMeltTransaction`
  unfoldable pub validate_token_melt :
      External → Transaction → Action (Store kv) MintingError (Unit {0})
  validate_token_melt ext t = do
    raise_if (not (is_melt t.tx_type)) not_melt
    melt_inputs ext t t.inputs

  -- the switch of `ValidateTransactionWithContext`
  unfoldable pub validate_context :
      External
      → (Text → Option TokenMintData)
      → Registry
      → TxType
      → Transaction
      → Action (Store kv) MintingError (Unit {0})
  validate_context ext unmarshal reg mint_token t = lift (validate_token_mint ext unmarshal t reg)
  validate_context ext unmarshal reg melt t = validate_token_melt ext t
  validate_context ext unmarshal reg _ t = pure tt

  -- `ValidateTransactionWithContext`
  unfoldable pub validate_with_context :
      External
      → (Text → Option TokenMintData)
      → Registry
      → Transaction
      → Action (Store kv) MintingError (Unit {0})
  validate_with_context ext unmarshal reg t = do
    lift (or_tx_error (validate_transaction ext t))
    validate_context ext unmarshal reg t.tx_type t
