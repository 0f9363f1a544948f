-- ===== src/Tx/Builder.antt =====
-- `TxBuilder` of lib/transaction.go, and transactions that lib/transaction_types.go builds with it;
-- the time that `NewTxBuilder` reads is an argument.
pub mod Balance
use shadowd.Common.{
  ℕ, ◌+◌, Bool, true, false, not, List, [], ◌∷◌, ◌++◌, length, leb, ltb, none, ◌==◌, if◌then◌else◌,
}
use shadowd.Common.Text.{Text, text_eq}
use shadowd.Common.Word.{add64, sub64}
use shadowd.Common.Result.{Result, ok, err, ◌>>◌, fail_if}
use shadowd.Tx.{Address, TxType, send, TxInput, TxOutput, Transaction, Utxo}
use shadowd.Tx.External.{External}
use shadowd.Tx.Outputs.{new_input, tx_fee, built_output}

pub record TxBuilder : Type 0 where
  pub tx_type : TxType
  pub version : ℕ
  pub timestamp : ℕ
  pub lock_time : ℕ
  pub inputs : List TxInput
  pub outputs : List TxOutput
  pub payload : Text

-- `NewTxBuilder`
abbrev pub new_tx_builder : TxType → ℕ → TxBuilder
new_tx_builder ty now = record {
  tx_type = ty;
  version = 1;
  timestamp = now;
  lock_time = 0;
  inputs = [];
  outputs = [];
  payload = [];
}

-- `AddInput`, `AddCustomOutput`, `SetData`, `SetTimestamp` and `SetLockTime`
abbrev pub add_input : Text → ℕ → TxBuilder → TxBuilder
add_input id i b = record b { inputs = b.inputs ++ (new_input id i ∷ []) }

abbrev pub add_custom_output : TxOutput → TxBuilder → TxBuilder
add_custom_output o b = record b { outputs = b.outputs ++ (o ∷ []) }

abbrev pub set_data : Text → TxBuilder → TxBuilder
set_data bs b = record b { payload = bs }

abbrev pub set_timestamp : ℕ → TxBuilder → TxBuilder
set_timestamp time b = record b { timestamp = time }

abbrev pub set_lock_time : ℕ → TxBuilder → TxBuilder
set_lock_time time b = record b { lock_time = time }

-- `Build`
abbrev pub build : TxBuilder → Transaction
build b = record {
  tx_type = b.tx_type;
  version = b.version;
  timestamp = b.timestamp;
  lock_time = b.lock_time;
  mempool_ttl = 0;
  token_id = [];
  inputs = b.inputs;
  outputs = b.outputs;
  payload = b.payload;
  public_key = [];
  signature = [];
  from_address = none;
  to_address = none;
  amount = none;
  fee = none;
  nonce = none;
}

pub data BuildError : Type 0 where
  no_utxos insufficient_funds : BuildError

-- the loop that adds inputs of one token until they cover the amount and the estimated fee
unfoldable pub select_inputs : Text → ℕ → List Utxo → TxBuilder → ℕ → TxBuilder × ℕ
select_inputs token amount [] b total = (b, total)
select_inputs token amount (u ∷ us) b total = elim (u.output.token_id == token) [
  | false ↦ select_inputs token amount us b total
  | true ↦
      let b' : TxBuilder = add_input u.tx_id u.output_index b in
      let total' : ℕ = add64 total u.output.amount in
      let fee : ℕ = tx_fee send (length b'.inputs + 1) 2 0 in
      elim (leb (add64 amount fee) total') [
        | true ↦ (b', total')
        | false ↦ select_inputs token amount us b' total'
      ]
]

module _ (ext : External) where
  -- `AddOutput`
  abbrev pub add_output : Address → ℕ → Text → TxBuilder → TxBuilder
  add_output a n id b = add_custom_output (built_output ext a n id) b

  -- the end of `CreateSimpleSendTransaction`: the recipient's output and the change
  abbrev pub pay_and_change : Address → ℕ → Address → Text → ℕ → ℕ → TxBuilder → TxBuilder
  pay_and_change to amount back token total fee b =
      let b' : TxBuilder = add_output to amount token b in
      let change : ℕ = sub64 (sub64 total amount) fee in
      if ltb 0 change then add_output back change token b' else b'

  abbrev pub finish_send :
      Address → ℕ → Address → Text → TxBuilder × ℕ → Result BuildError Transaction
  finish_send to amount back token (b, total) =
      let fee : ℕ = tx_fee send (length b.inputs) 2 0 in
      (do
        fail_if (ltb total (add64 amount fee)) insufficient_funds
        ok (build (pay_and_change to amount back token total fee b)))

  -- `CreateSimpleSendTransaction`
  unfoldable pub create_simple_send :
      ℕ → List Utxo → Address → ℕ → Address → Result BuildError Transaction
  create_simple_send now [] to amount back = err no_utxos
  create_simple_send now (u ∷ us) to amount back =
      let token : Text = u.output.token_id in
      finish_send to amount back token
        (select_inputs token amount (u ∷ us) (new_tx_builder send now) 0)
