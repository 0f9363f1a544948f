-- ===== src/Utxo/Database.antt =====
-- The keys and values of the database, and what the program relies on of BoltDB and encoding/json.
use shadowd.Common.{
  ℕ, ◌≡◌, ◌↔◌, Bool, true, false, ◌&&◌, Option, some, arith, ◌==◌, nat_eq, if◌then◌else◌,
}
use shadowd.Common.Text.{Text, text_beq, text_beq_iff}
use shadowd.Common.Result.{Result, ok}
use shadowd.Tx.{Address, Transaction, Utxo, OutPoint, out_point_beq, out_point_beq_iff}

-- `UTXOPrefix`, `AddressPrefix`, `HeightPrefix`, `SpentPrefix`, `TxPrefix`, `AddrTxPrefix` (whose
-- middle part is 999999999999999999 less the height) and `ValidatorPrefix`.
pub data Key : Type 0 where
  utxo_key : OutPoint → Key
  addr_key : Address → OutPoint → Key
  height_key : ℕ → OutPoint → Key
  spent_key : OutPoint → Key
  tx_key : Text → Key
  addr_tx_key : Address → ℕ → Text → Key
  validator_key : Text → Key

pub data Value : Type 0 where
  utxo_value : Utxo → Value
  tx_value : Transaction → Value
  wallet_value : Address → Value
  blank : Value

unfoldable pub key_beq : Key → Key → Bool
key_beq (utxo_key p) (utxo_key q) = out_point_beq p q
key_beq (addr_key a p) (addr_key b q) = (a == b) && out_point_beq p q
key_beq (height_key a p) (height_key b q) = (a == b) && out_point_beq p q
key_beq (spent_key p) (spent_key q) = out_point_beq p q
key_beq (tx_key s) (tx_key t) = text_beq s t
key_beq (addr_tx_key a h s) (addr_tx_key b i t) = (a == b) && ((h == i) && text_beq s t)
key_beq (validator_key s) (validator_key t) = text_beq s t
key_beq _ _ = false

pub key_beq_iff : (k j : Key) → (key_beq k j ≡ true) ↔ (k ≡ j)
unfolding key_beq
key_beq_iff (utxo_key p) (utxo_key q) = ground (arith, out_point_beq_iff p q)
key_beq_iff (addr_key a p) (addr_key b q) = ground (arith, out_point_beq_iff p q)
key_beq_iff (height_key a p) (height_key b q) = ground (arith, out_point_beq_iff p q)
key_beq_iff (spent_key p) (spent_key q) = ground (arith, out_point_beq_iff p q)
key_beq_iff (tx_key s) (tx_key t) = ground (arith, text_beq_iff s t)
key_beq_iff (addr_tx_key a h s) (addr_tx_key b i t) = ground (arith, text_beq_iff s t)
key_beq_iff (validator_key s) (validator_key t) = ground (arith, text_beq_iff s t)
key_beq_iff _ _ = ground arith

pub data DbError : Type 0 where
  db_failure : DbError

-- A read of a key that was written gives the value back, and a write changes no other key. Any
-- call may fail.
pub record Database : Type 1 where
  pub Db : Type 0
  pub get : Key → Db → Result DbError (Option Value)
  pub set : Key → Value → Db → Result DbError Db
  pub get-set :
      (k j : Key) (v : Value) (d : Db) {d' : Db}
      → set k v d ≡ ok d'
      → get j d' ≡ (if key_beq k j then ok (some v) else get j d)
