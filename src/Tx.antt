-- ===== src/Tx.antt =====
-- The data of lib/transaction.go and lib/utxo.go: transactions, their inputs and outputs, and the
-- unspent outputs. An `Address` is its 32 bytes as one number; a field `Data` is called `payload`.
pub mod External
pub mod Outputs
pub mod Validate
pub mod Builder
use shadowd.Common.{
  ℕ, ◌≡◌, ◌↔◌, Bool, true, not, ◌&&◌, Option, none, List, [], arith, ◌==◌, Eq, nat_eq,
}
use shadowd.Common.Text.{Text, text_beq, text_beq_iff}

-- `TxType`; `unknown` is every int outside 0..11.
pub data TxType : Type 0 where
  coinbase send mint_token melt register_validator offer accept_offer cancel_offer : TxType
  create_pool add_liquidity remove_liquidity swap unknown : TxType

abbrev pub Address : Type 0
Address = ℕ

pub record TxInput : Type 0 where
  pub prev_tx_id : Text
  pub output_index : ℕ
  pub script_sig : Text
  pub sequence : ℕ

pub record TxOutput : Type 0 where
  pub amount : ℕ
  pub address : Address
  pub token_id : Text
  pub token_type : Text
  pub locked_shadow : ℕ
  pub script_pub_key : Text
  pub payload : Text

pub record Transaction : Type 0 where
  pub tx_type : TxType
  pub version : ℕ
  pub timestamp : ℕ
  pub lock_time : ℕ
  pub mempool_ttl : ℕ
  pub token_id : Text
  pub inputs : List TxInput
  pub outputs : List TxOutput
  pub payload : Text
  pub public_key : Text
  pub signature : Text
  pub from_address : Option Address
  pub to_address : Option Address
  pub amount : Option ℕ
  pub fee : Option ℕ
  pub nonce : Option ℕ

pub record Utxo : Type 0 where
  pub tx_id : Text
  pub output_index : ℕ
  pub output : TxOutput
  pub block_height : ℕ
  pub is_spent : Bool

pub record OutPoint : Type 0 where
  pub tx_id : Text
  pub index : ℕ

unfoldable pub out_point_beq : OutPoint → OutPoint → Bool
out_point_beq a b = text_beq a.tx_id b.tx_id && (a.index == b.index)

pub out_point_beq_iff : (a b : OutPoint) → (out_point_beq a b ≡ true) ↔ (a ≡ b)
unfolding out_point_beq
out_point_beq_iff a b = ground (arith, text_beq_iff a.tx_id b.tx_id)

instance abbrev pub out_point_eq : Eq OutPoint
out_point_eq = record { beq = out_point_beq; beq_iff = out_point_beq_iff }

-- `UTXO.GetOutPoint` and `TxInput.GetOutPoint`
abbrev pub utxo_point : Utxo → OutPoint
utxo_point u = record { tx_id = u.tx_id; index = u.output_index }

abbrev pub input_point : TxInput → OutPoint
input_point i = record { tx_id = i.prev_tx_id; index = i.output_index }

-- `UTXO.IsSpendableBy`
pub is_spendable_by : Utxo → Address → Bool
is_spendable_by u a = not u.is_spent && (u.output.address == a)

-- The copy without signature and legacy fields that `Transaction.Hash` marshals.
unfoldable pub unsigned : Transaction → Transaction
unsigned t = record {
  tx_type = t.tx_type;
  version = t.version;
  timestamp = t.timestamp;
  lock_time = t.lock_time;
  mempool_ttl = 0;
  token_id = [];
  inputs = t.inputs;
  outputs = t.outputs;
  payload = t.payload;
  public_key = [];
  signature = [];
  from_address = none;
  to_address = none;
  amount = none;
  fee = none;
  nonce = none;
}
