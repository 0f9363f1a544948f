-- ===== src/Tx/Outputs.antt =====
-- lib/utxo.go and the queries of lib/transaction.go: outputs, inputs, fees and what a transaction
-- creates.
use shadowd.Common.{
  ℕ, ◌/◌, ◌%◌, Bool, true, false, not, List, [], ◌∷◌, ◌++◌, any, keep, length, ◌==◌, nat_eq, ◌&&◌,
  ◌||◌, if◌then◌else◌, is_empty, zero, suc,
}
use shadowd.Common.Text.{Text, bytes, text_eq}
use shadowd.Common.Word.{add64, mul64, sum64}
use shadowd.Tx.{TxType, coinbase, send, mint_token, melt, Address, TxInput, TxOutput, Transaction}
use shadowd.Tx.External.{External}

-- The `n` low bytes of a number, the highest first: the bytes of an address.
unfoldable pub be_bytes : ℕ → ℕ → Text
be_bytes zero a = []
be_bytes (suc n) a = be_bytes n (a / 256) ++ (a % 256 ∷ [])

-- `CreateP2PKHScript`
unfoldable pub p2pkh_script : Address → Text
unfolding be_bytes
p2pkh_script a = 0x76 ∷ be_bytes 32 a

-- `CreateTokenOutput`
unfoldable pub token_output : Address → ℕ → Text → Text → Text → TxOutput
token_output a n id kind payload = record {
  amount = n;
  address = a;
  token_id = id;
  token_type = kind;
  locked_shadow = 0;
  script_pub_key = p2pkh_script a;
  payload = payload;
}

-- `NewTxInput`
unfoldable pub new_input : Text → ℕ → TxInput
new_input id i = record {
  prev_tx_id = id;
  output_index = i;
  script_sig = [];
  sequence = 0xffff_ffff;
}

-- `CalculateTxFee`; the counts are Go ints, converted to uint64.
unfoldable pub tx_fee : TxType → ℕ → ℕ → ℕ → ℕ
tx_fee coinbase ins outs size = 0
tx_fee send ins outs size = add64 (add64 1000 (mul64 ins 500)) (mul64 outs 250)
tx_fee mint_token ins outs size = add64 10000 (mul64 size 10)
tx_fee melt ins outs size = add64 1000 (mul64 ins 250)
tx_fee _ ins outs size = 1000

-- `Transaction.CalculateFee`
unfoldable pub calculate_fee : Transaction → ℕ
calculate_fee t = tx_fee t.tx_type (length t.inputs) (length t.outputs) (length t.payload)

-- `GetOutputsForAddress`
unfoldable pub outputs_for_address : Transaction → Address → List TxOutput
outputs_for_address t a = keep (λ o. o.address == a) t.outputs

-- The loop of `VerifyOwnership`, over two slices of one length.
same_bytes : Text → Text → Bool
same_bytes (x ∷ xs) (y ∷ ys) = (x == y) && same_bytes xs ys
same_bytes _ _ = true

-- `VerifyOwnership`
unfoldable pub verify_ownership : Transaction → Text → Bool
unfolding same_bytes
verify_ownership t key =
    if is_empty t.public_key || is_empty key
    then false
    else if not (length t.public_key == length key)
    then false
    else same_bytes t.public_key key

module _ (ext : External) where
  -- `CreateShadowOutput`
  unfoldable pub shadow_output : Address → ℕ → TxOutput
  shadow_output a n = token_output a n ext.genesis_token_id (bytes "native") []

  -- `IsTokenOutput`
  unfoldable pub is_token_output : TxOutput → Bool
  is_token_output o = not (o.token_id == ext.genesis_token_id)

  -- `HasTokenOutputs`
  unfoldable pub has_token_outputs : Transaction → Bool
  has_token_outputs t = any is_token_output t.outputs

  -- `GetTotalOutputAmount`
  unfoldable pub total_output_amount : Transaction → ℕ
  total_output_amount t =
      sum64 (λ o. o.amount) 0 (keep (λ o. o.token_id == ext.genesis_token_id) t.outputs)

  -- `TxBuilder.AddOutput`: the output that it appends.
  unfoldable pub built_output : Address → ℕ → Text → TxOutput
  built_output a n id =
      if is_empty id || (id == bytes "SHADOW") || (id == ext.genesis_token_id)
      then shadow_output a n
      else token_output a n id (bytes "custom") []
