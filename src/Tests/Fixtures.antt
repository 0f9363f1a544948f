-- ===== src/Tests/Fixtures.antt =====
-- Sample parameters: toy cryptography and floating point, a database in memory, and one whose
-- writes fail; sample transactions and outputs.
use shadowd.Common.{ℕ, ◌≡◌, false, Option, none, some, [], ◌∷◌, ◌++◌, Eq, arith, if◌then◌else◌}
use shadowd.Common.Text.{bytes, text_beq}
use shadowd.Common.Dict.{Dict, lookup, insert, lookup-insert}
use shadowd.Common.Result.{Result, ok, err}
use shadowd.Tx.{send, TxInput, TxOutput, Transaction, Utxo, OutPoint}
use shadowd.Tx.External.{External}
use shadowd.Utxo.Database.{Key, key_beq, key_beq_iff, Value, DbError, db_failure, Database}

abbrev pub toy_ext : External
toy_ext = record {
  genesis_token_id = bytes "SHDW";
  marshal_tx = λ t. some (1 ∷ t.payload);
  marshal_id = λ h sig. some (h ++ sig);
  blake2b = λ bs. bs;
  hex = λ bs. bytes "0123456789abcdef" ++ bs;
  public_key_size = 2;
  unmarshal_key = λ bs. some bs;
  mldsa_verify = λ key message sig. text_beq sig (key ++ message);
}

instance abbrev pub key_eq : Eq Key
key_eq = record { beq = key_beq; beq_iff = key_beq_iff }

abbrev pub Cells : Type 0
Cells = Dict Key Value

abbrev pub memory_get : Key → Cells → Result DbError (Option Value)
memory_get k d = ok (lookup k d)

abbrev pub memory_set : Key → Value → Cells → Result DbError Cells
memory_set k v d = ok (insert k v d)

abbrev pub refuse_set : Key → Value → Cells → Result DbError Cells
refuse_set k v d = err db_failure

pub memory_get-set :
    (k j : Key) (v : Value) (d : Cells) {d' : Cells}
    → memory_set k v d ≡ ok d'
    → memory_get j d' ≡ (if key_beq k j then ok (some v) else memory_get j d)
memory_get-set k j v d h = ground (arith, lookup-insert k j v d)

pub refuse_get-set :
    (k j : Key) (v : Value) (d : Cells) {d' : Cells}
    → refuse_set k v d ≡ ok d'
    → memory_get j d' ≡ (if key_beq k j then ok (some v) else memory_get j d)
refuse_get-set k j v d h = ground arith

abbrev pub memory : Database
memory = record { Db = Cells; get = memory_get; set = memory_set; get-set = memory_get-set }

abbrev pub read_only : Database
read_only = record { Db = Cells; get = memory_get; set = refuse_set; get-set = refuse_get-set }

abbrev pub shadow_out : ℕ → TxOutput
shadow_out n = record {
  amount = n;
  address = 7;
  token_id = bytes "SHDW";
  token_type = bytes "native";
  locked_shadow = 0;
  script_pub_key = [];
  payload = [];
}

abbrev pub point : ℕ → OutPoint
point i = record { tx_id = bytes "00112233445566778899"; index = i }

abbrev pub input : ℕ → TxInput
input i = record {
  prev_tx_id = bytes "00112233445566778899";
  output_index = i;
  script_sig = [];
  sequence = 0;
}

abbrev pub utxo : ℕ → ℕ → Utxo
utxo i n = record {
  tx_id = bytes "00112233445566778899";
  output_index = i;
  output = shadow_out n;
  block_height = 3;
  is_spent = false;
}

-- a send of one output, signed by the toy scheme
abbrev pub transfer : ℕ → ℕ → Transaction
transfer i n = record {
  tx_type = send;
  version = 1;
  timestamp = 5;
  lock_time = 0;
  mempool_ttl = 0;
  token_id = [];
  inputs = input i ∷ [];
  outputs = shadow_out n ∷ [];
  payload = bytes "pay";
  public_key = 8 ∷ 9 ∷ [];
  signature = 8 ∷ 9 ∷ 1 ∷ bytes "pay";
  from_address = none;
  to_address = none;
  amount = none;
  fee = none;
  nonce = none;
}
