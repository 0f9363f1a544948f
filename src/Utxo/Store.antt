-- ===== src/Utxo/Store.antt =====
-- The UTXO store: the database and a cache of decoded outputs. The cache holds pointers, so what
-- `SpendUTXO` sets in an output it also sets in the cached one.
pub mod Coherent
pub mod Spend
pub mod Funds
use shadowd.Common.{
  ℕ, ◌-◌, Bool, true, false, not, Option, none, some, List, [], ◌∷◌, leb, ltb, ◌==◌, ◌&&◌, map,
  if◌then◌else◌,
}
use shadowd.Common.Text.{Text, text_beq}
use shadowd.Common.Word.{add64, sum64}
use shadowd.Common.Dict.{Dict, lookup, insert, erase}
use shadowd.Common.Result.{Result, ok, err}
use shadowd.Common.State.{Action, pure, raise, gets, modify, raise_if, ◌>>=◌, ◌>>◌}
use shadowd.Tx.{
  Address, TxInput, TxOutput, TxType, coinbase, Transaction, Utxo, OutPoint, out_point_eq,
  utxo_point, input_point,
}
use shadowd.Utxo.Database.{
  Key, utxo_key, addr_key, height_key, spent_key, tx_key, addr_tx_key, validator_key, Value,
  utxo_value, tx_value, wallet_value, blank, DbError, Database,
}

pub data StoreError : Type 0 where
  database malformed utxo_not_found already_spent insufficient_funds no_tx_id : StoreError

pub record Store (kv : Database) : Type 0 where
  pub db : kv.Db
  pub cache : Dict OutPoint Utxo

abbrev pub Op : Database → Type 0 → Type 0
Op kv A = Action (Store kv) StoreError A

-- what a read of the key of an output decodes to
abbrev pub decode_utxo : Result DbError (Option Value) → Result StoreError (Option Utxo)
decode_utxo (err e) = err database
decode_utxo (ok none) = ok none
decode_utxo (ok (some (utxo_value u))) = ok (some u)
decode_utxo (ok (some _)) = err malformed

abbrev pub spent : Utxo → Utxo
spent u = record u { is_spent = true }

module _ (kv : Database) where
  -- `db.Set`, its error passed on
  unfoldable pub put : Key → Value → Op kv (Unit {0})
  put k v s = elim (kv.set k v s.db) [
    | ok d ↦ (ok tt, record s { db = d })
    | err e ↦ (err database, s)
  ]

  -- what the database holds under an output's key
  unfoldable pub stored : OutPoint → Store kv → Result StoreError (Option Utxo)
  stored p s = decode_utxo (kv.get (utxo_key p) s.db)

  abbrev pub cache_utxo : OutPoint → Utxo → Store kv → Store kv
  cache_utxo p u s = record s { cache = insert p u s.cache }

  -- the part of `GetUTXO` behind a miss of the cache
  abbrev pub get_uncached :
      OutPoint
      → Store kv
      → Result StoreError (Option Utxo)
      → Result StoreError (Option Utxo) × Store kv
  get_uncached p s (ok (some u)) = (ok (some u), cache_utxo p u s)
  get_uncached p s r = (r, s)

  -- `GetUTXO`
  unfoldable pub get_utxo : OutPoint → Op kv (Option Utxo)
  get_utxo p s = elim (lookup p s.cache) [
    | some u ↦ (ok (some u), s)
    | none ↦ get_uncached p s (stored p s)
  ]

  -- `AddUTXO`
  unfoldable pub add_utxo : Utxo → Op kv (Unit {0})
  add_utxo u = do
    put (utxo_key (utxo_point u)) (utxo_value u)
    put (addr_key u.output.address (utxo_point u)) blank
    put (height_key u.block_height (utxo_point u)) blank
    modify (cache_utxo (utxo_point u) u)

  -- the first part of `SpendUTXO`: the output, cached, or the error that it is not there
  abbrev pub must_exist : Option Utxo → Op kv Utxo
  must_exist none = raise utxo_not_found
  must_exist (some u) = pure u

  -- `SpendUTXO` from its test of `IsSpent` on; it marks the output, which is the cached one, before
  -- it writes.
  unfoldable pub spend_loaded : OutPoint → Utxo → Op kv (Unit {0})
  spend_loaded p u = do
    raise_if u.is_spent already_spent
    modify (cache_utxo p (spent u))
    put (utxo_key p) (utxo_value (spent u))
    put (spent_key p) blank
    modify (λ s. record s { cache = erase p s.cache })

  -- `SpendUTXO`
  unfoldable pub spend_utxo : OutPoint → Op kv (Unit {0})
  spend_utxo p = do found ← get_utxo p; u ← must_exist found; spend_loaded p u

  -- the loop of `ValidateTransaction` over the inputs, from the total so far
  unfoldable pub input_total : List TxInput → ℕ → Op kv ℕ
  input_total [] total = pure total
  input_total (i ∷ is) total = do
    found ← get_utxo (input_point i)
    u ← must_exist found
    raise_if u.is_spent already_spent
    input_total is (add64 total u.output.amount)

  -- `UTXOStore.ValidateTransaction` of a transaction that is no coinbase
  unfoldable pub validate_spend : Transaction → Op kv (Unit {0})
  validate_spend t = do
    ins ← input_total t.inputs 0
    raise_if (ltb ins (sum64 (λ (o : TxOutput). o.amount) 0 t.outputs)) insufficient_funds

  -- `UTXOStore.ValidateTransaction`
  unfoldable pub validate_in_store : TxType → Transaction → Op kv (Unit {0})
  validate_in_store coinbase t = pure tt
  validate_in_store _ t = validate_spend t

  -- `ClearCache`
  unfoldable pub clear_cache : Store kv → Store kv
  clear_cache s = record s { cache = [] }

  -- `RegisterValidator` and `GetValidatorWallet`
  unfoldable pub register_validator : Text → Address → Op kv (Unit {0})
  register_validator proposer wallet = put (validator_key proposer) (wallet_value wallet)

  abbrev pub decode_wallet : Result DbError (Option Value) → Result StoreError (Option Address)
  decode_wallet (err e) = err database
  decode_wallet (ok none) = ok none
  decode_wallet (ok (some (wallet_value a))) = ok (some a)
  decode_wallet (ok (some _)) = err malformed

  unfoldable pub validator_wallet : Text → Store kv → Result StoreError (Option Address)
  validator_wallet proposer s = decode_wallet (kv.get (validator_key proposer) s.db)

  abbrev pub decode_tx : Result DbError (Option Value) → Result StoreError (Option Transaction)
  decode_tx (err e) = err database
  decode_tx (ok none) = ok none
  decode_tx (ok (some (tx_value t))) = ok (some t)
  decode_tx (ok (some _)) = err malformed

  -- `GetTransaction`
  unfoldable pub get_transaction : Text → Store kv → Result StoreError (Option Transaction)
  get_transaction id s = decode_tx (kv.get (tx_key id) s.db)
