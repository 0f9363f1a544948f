-- ===== src/Utxo/Scan.antt =====
-- The iterations of lib/utxo_store.go over the keys of its database: the outputs of an address, its
-- balance, its transactions page by page, and the migration of coinbase outputs.
pub mod Owned
pub mod Pages
use shadowd.Common.{
  ◌≡◌, refl, ℕ, ◌+◌, ◌-◌, Bool, true, false, not, ◌&&◌, ◌||◌, Option, none, some, List, [], ◌∷◌,
  ◌++◌, length, any, is_empty, leb, ltb, ◌==◌, nat_eq, if◌then◌else◌,
}
use shadowd.Common.Text.{Text, text_eq, text_beq}
use shadowd.Common.Word.{add64, sub64, is_positive}
use shadowd.Common.Dict.{Dict, lookup, insert}
use shadowd.Common.Result.{Result, ok, err}
use shadowd.Common.State.{pure, ◌>>=◌}
use shadowd.Tx.{Address, TxType, coinbase, TxOutput, Transaction, Utxo, OutPoint, utxo_point}
use shadowd.Utxo.Database.{
  Key, utxo_key, addr_key, tx_key, addr_tx_key, Value, utxo_value, tx_value, blank, Database,
  DbError,
}
use shadowd.Utxo.Store.{Store, StoreError, database, Op, put, get_utxo, get_transaction}

-- The iterator of the database: all its keys in the order of their bytes, and the lengths of the texts
-- that the formats print, of a key and of the prefix of an address's transactions.
pub record Cursor (kv : Database) : Type 0 where
  pub keys : kv.Db → Result DbError (List Key)
  pub text_length : Key → ℕ
  pub prefix_length : Address → ℕ

-- what a loop over an iterator keeps of the keys
abbrev pub pick_map {ℓ κ} : {A : Type ℓ} {B : Type κ} → (A → Option B) → List A → List B
pick_map f [] = []
pick_map f (x ∷ xs) = elim (f x) [ none ↦ pick_map f xs | some y ↦ y ∷ pick_map f xs ]

-- the outpoint in a key with the prefix `addr:{address}:`
unfoldable pub addr_point : Address → Key → Option OutPoint
addr_point a (addr_key b p) = if a == b then some p else none
addr_point a _ = none

-- the outpoint in a key with the prefix `utxo:`
unfoldable pub utxo_of_key : Key → Option OutPoint
utxo_of_key (utxo_key p) = some p
utxo_of_key _ = none

-- an entry of the index of an address's transactions: 999999999999999999 less the height, and the
-- transaction's identifier
pub record TxEntry : Type 0 where
  pub place : ℕ
  pub tx_id : Text

unfoldable pub addr_tx_entry : Address → Key → Option TxEntry
addr_tx_entry a (addr_tx_key b h id) =
    if a == b then some (record { place = h; tx_id = id }) else none
addr_tx_entry a _ = none

-- `bytes.HasPrefix` of two texts
unfoldable pub has_prefix : Text → Text → Bool
has_prefix s [] = true
has_prefix [] (c ∷ p) = false
has_prefix (b ∷ s) (c ∷ p) = (b == c) && has_prefix s p

abbrev pub keep_unspent : Result StoreError (Option Utxo) → List Utxo → List Utxo
keep_unspent (ok (some u)) us = if u.is_spent then us else u ∷ us
keep_unspent _ us = us

-- `balances[tokenID] += amount`
abbrev pub or_zero : Option ℕ → ℕ
or_zero none = 0
or_zero (some n) = n

abbrev pub add_balance : Utxo → Dict Text ℕ → Dict Text ℕ
add_balance u m =
    insert u.output.token_id (add64 (or_zero (lookup u.output.token_id m)) u.output.amount) m

-- the loop of `GetBalance`
unfoldable pub balances : List Utxo → Dict Text ℕ → Dict Text ℕ
balances [] m = m
balances (u ∷ us) m = balances us (add_balance u m)

-- the entries behind that of a transaction, if it is among them
unfoldable pub entries_behind : Text → List TxEntry → Option (List TxEntry)
entries_behind id [] = none
entries_behind id (e ∷ es) = if e.tx_id == id then some es else entries_behind id es

-- the transactions found, up to a number; a read that fails or finds nothing does not count
unfoldable pub collect_page :
    (Text → Result StoreError (Option Transaction)) → ℕ → List TxEntry → List Transaction
collect_page get n [] = []
collect_page get n (e ∷ es) = if n == 0 then [] else elim (get e.tx_id) [
  | ok (some t) ↦ t ∷ collect_page get (n - 1) es
  | _ ↦ collect_page get n es
]

-- the transaction that `MigrateCoinbaseTransactions` makes of an output
abbrev pub migrated_tx : Utxo → Transaction
migrated_tx u = record {
  tx_type = coinbase;
  version = 1;
  timestamp = 0;
  lock_time = 0;
  mempool_ttl = 0;
  token_id = u.output.token_id;
  inputs = [];
  outputs = u.output ∷ [];
  payload = [];
  public_key = [];
  signature = [];
  from_address = none;
  to_address = none;
  amount = none;
  fee = none;
  nonce = none;
}

-- whether a record stands under the identifier; an error of the read counts as none
abbrev pub holds_value : Result DbError (Option Value) → Bool
holds_value (ok (some v)) = true
holds_value _ = false

-- the outputs that the iterator decodes, as of its start
abbrev pub decoded : Result DbError (Option Value) → Option Utxo
decoded (ok (some (utxo_value u))) = some u
decoded _ = none

abbrev pub utxo_at : (Key → Result DbError (Option Value)) → Key → Option Utxo
utxo_at get (utxo_key p) = decoded (get (utxo_key p))
utxo_at get _ = none

module _ {kv : Database} where
  -- the loop of `GetUTXOsByAddress`; a read that fails is passed over
  unfoldable pub owned_from : List OutPoint → Store kv → List Utxo × Store kv
  owned_from [] s = ([], s)
  owned_from (p ∷ ps) s =
      let (r, s') = get_utxo kv p s in let (us, s'') = owned_from ps s' in (keep_unspent r us, s'')

  abbrev pub after_put : Result StoreError (Unit {0}) × Store kv → (Store kv → Store kv) → Store kv
  after_put (ok _, s) f = f s
  after_put (err e, s) f = s

  -- the writes of `MigrateCoinbaseTransactions` for an output; one that fails ends them
  unfoldable pub migrate_one : Utxo → Store kv → Store kv
  migrate_one u s = after_put (put kv (tx_key u.tx_id) (tx_value (migrated_tx u)) s) λ s'.
      (put kv (addr_tx_key u.output.address (sub64 999999999999999999 u.block_height) u.tx_id) blank
        s').1

  abbrev pub migrate_unless : Bool → Utxo → Store kv → Store kv
  migrate_unless true u s = s
  migrate_unless false u s = migrate_one u s

  -- the loop over the outputs, with the identifiers seen so far
  unfoldable pub migrate_all : List Utxo → List Text → Store kv → Store kv
  migrate_all [] seen s = s
  migrate_all (u ∷ us) seen s =
      if any (λ id. id == u.tx_id) seen
      then migrate_all us seen s
      else migrate_all us (u.tx_id ∷ seen)
          (migrate_unless (holds_value (kv.get (tx_key u.tx_id) s.db)) u s)

module _ {kv : Database} (cursor : Cursor kv) where
  -- the keys of the iterator, or the error that there is none
  abbrev pub with_keys : {A : Type 0} → (List Key → Store kv → A × Store kv) → Op kv A
  with_keys f s = elim (cursor.keys s.db) [
    | err e ↦ (err database, s)
    | ok ks ↦ let (a, s') = f ks s in (ok a, s')
  ]

  pub with_keys-ok :
      {A : Type 0} (f : List Key → Store kv → A × Store kv) (s : Store kv) (ks : List Key)
      → cursor.keys s.db ≡ ok ks
      → with_keys f s ≡ (ok (f ks s).0, (f ks s).1)
  with_keys-ok f s ks h = rw (with_keys, h) refl

  -- `GetUTXOsByAddress`
  unfoldable pub get_utxos_by_address : Address → Op kv (List Utxo)
  get_utxos_by_address a = with_keys λ ks. owned_from (pick_map (addr_point a) ks)

  -- `GetBalance`
  unfoldable pub get_balance : Address → Op kv (Dict Text ℕ)
  get_balance a = do us ← get_utxos_by_address a; pure (balances us [])

  -- `GetTotalUTXOs`
  unfoldable pub get_total_utxos : Op kv ℕ
  get_total_utxos = with_keys λ ks s. (length (pick_map utxo_of_key ks), s)

  -- The second loop of `GetTransactionsByAddress` from the first key of the database, where its start
  -- is nil: short keys are passed over, and the first other key ends it.
  unfoldable pub leading_entries : Address → List Key → List TxEntry
  leading_entries a [] = []
  leading_entries a (k ∷ ks) =
      let rest : List TxEntry = leading_entries a ks in
      if leb (cursor.text_length k) (cursor.prefix_length a)
      then rest
      else elim (addr_tx_entry a k) [ none ↦ [] | some e ↦ e ∷ rest ]

  -- The entries that the second loop visits when it starts behind a transaction: the iterator ends
  -- where a key does not start with the whole key that it was given.
  unfoldable pub entries_from : Address → List Key → List TxEntry → List TxEntry
  entries_from a ks [] = leading_entries a ks
  entries_from a ks (e ∷ es) =
      pick_map (λ x. if (x.place == e.place) && has_prefix x.tx_id e.tx_id then some x else none)
        (e ∷ es)

  abbrev pub page_entries : Address → List Key → Option (List TxEntry) → List TxEntry
  page_entries a ks none = []
  page_entries a ks (some es) = entries_from a ks es

  abbrev pub first_or_behind : Address → Text → List Key → List TxEntry
  first_or_behind a behind ks =
      if is_empty behind
      then pick_map (addr_tx_entry a) ks
      else page_entries a ks (entries_behind behind (pick_map (addr_tx_entry a) ks))

  abbrev pub page : Address → ℕ → Text → List Key → Store kv → List Transaction
  page a count behind ks s =
      collect_page (λ id. get_transaction kv id s) (if is_positive count then count else 32)
        (first_or_behind a behind ks)

  -- `GetTransactionsByAddress`; the count is a Go int, as its bit pattern
  unfoldable pub get_transactions_by_address : Address → ℕ → Text → Op kv (List Transaction)
  get_transactions_by_address a count behind = with_keys λ ks s. (page a count behind ks s, s)

  -- `MigrateCoinbaseTransactions`
  unfoldable pub migrate_coinbase : Op kv (Unit {0})
  migrate_coinbase =
      with_keys λ ks s. (tt, migrate_all (pick_map (utxo_at (λ k. kv.get k s.db)) ks) [] s)
