-- ===== src/Utxo/Transactions.antt =====
-- `StoreTransaction` of lib/utxo_store.go: a transaction under its identifier, and an index entry for
-- each address that it involves.
use shadowd.Common.{
  ℕ, ◌≡◌, refl, ◌∙◌, ap, Bool, true, false, Option, none, some, Option-cases, inl, inr, List, [],
  ◌∷◌, any, ◌++◌, ◌==◌, nat_eq, if◌then◌else◌, arith,
}
use shadowd.Common.Text.{Text, text_beq_iff}
use shadowd.Common.Word.{sub64}
use shadowd.Common.Dict.{lookup}
use shadowd.Common.Result.{Result, ok, err}
use shadowd.Common.State.{pure, raise_if, ◌>>=◌, ◌>>◌}
use shadowd.Tx.{Address, TxInput, TxOutput, Transaction, Utxo, OutPoint, out_point_eq, input_point}
use shadowd.Tx.External.{External, tx_id}
use shadowd.Utxo.Database.{Key, tx_key, addr_tx_key, key_beq, Value, tx_value, blank, Database}
use shadowd.Utxo.Store.Coherent.{put-ok}
use shadowd.Utxo.Store.{
  StoreError, no_tx_id, malformed, Store, Op, put, stored, get_utxo, get_uncached, get_transaction,
}

-- `addressMap[address] = true`; the map is the list of its keys
unfoldable pub note_address : Address → List Address → List Address
note_address a as' = if any (λ b. b == a) as' then as' else as' ++ (a ∷ [])

unfoldable pub output_addresses : List TxOutput → List Address → List Address
output_addresses [] as' = as'
output_addresses (o ∷ os) as' = output_addresses os (note_address o.address as')

abbrev note_found : Result StoreError (Option Utxo) → List Address → List Address
note_found (ok (some u)) as' = note_address u.output.address as'
note_found _ as' = as'

abbrev is_none : Option Text → Bool
is_none none = true
is_none (some s) = false

module _ (kv : Database) where
  -- the loop over the inputs, which reads as `GetUTXO` does and passes over errors
  unfoldable pub input_addresses : List TxInput → List Address → Op kv (List Address)
  input_addresses [] as' s = (ok as', s)
  input_addresses (i ∷ is) as' s =
      let (r, s') = get_utxo kv (input_point i) s in input_addresses is (note_found r as') s'

  unfoldable pub index_addresses : Text → ℕ → List Address → Op kv (Unit {0})
  index_addresses id place [] = pure tt
  index_addresses id place (a ∷ as') = do
    put kv (addr_tx_key a place id) blank
    index_addresses id place as'

  module _ (ext : External) where
    abbrev named : Transaction → Op kv Text
    named t s = elim (tx_id ext t) [ none ↦ (err no_tx_id, s) | some id ↦ (ok id, s) ]

    -- `StoreTransaction`; the height is an int64, as its bit pattern
    unfoldable pub store_transaction : Transaction → ℕ → Op kv (Unit {0})
    store_transaction t height = do
      id ← named t
      raise_if (is_none (ext.marshal_tx t)) malformed
      put kv (tx_key id) (tx_value t)
      addresses ← input_addresses t.inputs (output_addresses t.outputs [])
      index_addresses id (sub64 999999999999999999 height) addresses

  get_transaction-db :
      (id : Text) (s s' : Store kv)
      → s'.db ≡ s.db
      → get_transaction kv id s' ≡ get_transaction kv id s
  unfolding get_transaction
  get_transaction-db id s s' e = rw e

  uncached-db :
      (p : OutPoint) (s : Store kv) (r : Result StoreError (Option Utxo))
      → (get_uncached kv p s r).1.db ≡ s.db
  uncached-db p s (ok (some u)) = refl
  uncached-db p s (ok none) = refl
  uncached-db p s (err e) = refl

  get_utxo-db : (p : OutPoint) (s : Store kv) → (get_utxo kv p s).1.db ≡ s.db
  unfolding get_utxo
  get_utxo-db p s = elim (Option-cases (lookup p s.cache)) [
    | inl miss ↦ rw (miss, get_utxo) (uncached-db p s (stored kv p s))
    | inr (u, hit) ↦ rw (hit, get_utxo) refl
  ]

  input_addresses-db :
      (is : List TxInput) (as' : List Address) (s : Store kv)
      → (input_addresses is as' s).1.db ≡ s.db
  unfolding input_addresses
  input_addresses-db [] as' s = refl
  input_addresses-db (i ∷ is) as' s =
      input_addresses-db is _ (get_utxo kv (input_point i) s).1 ∙ get_utxo-db (input_point i) s

  put-get_transaction :
      (k : Key) (v : Value) (id : Text) (s : Store kv)
      → key_beq k (tx_key id) ≡ false
      → (put kv k v s).0 ≡ ok tt
      → get_transaction kv id (put kv k v s).1 ≡ get_transaction kv id s
  unfolding get_transaction
  put-get_transaction k v id s other h =
      rw (kv.get-set k (tx_key id) v s.db (put-ok kv k v s h), other)

  same_key : (id : Text) → key_beq (tx_key id) (tx_key id) ≡ true
  unfolding key_beq
  same_key id = (text_beq_iff id id).1 refl

  put-stored_transaction :
      (id : Text) (t : Transaction) (s : Store kv)
      → (put kv (tx_key id) (tx_value t) s).0 ≡ ok tt
      → get_transaction kv id (put kv (tx_key id) (tx_value t) s).1 ≡ ok (some t)
  unfolding get_transaction
  put-stored_transaction id t s h =
      rw (kv.get-set (tx_key id) (tx_key id) (tx_value t) s.db (put-ok kv _ _ s h), same_key id)

  index_ne : (a place : ℕ) (id id' : Text) → key_beq (addr_tx_key a place id) (tx_key id') ≡ false
  unfolding key_beq
  index_ne a place id id' = refl

  index-step :
      (id : Text) (place a : ℕ) (as' : List Address) (s : Store kv)
      → (index_addresses id place (a ∷ as') s).0 ≡ ok tt
      → ((put kv (addr_tx_key a place id) blank s).0 ≡ ok tt)
        × ((index_addresses id place as' (put kv (addr_tx_key a place id) blank s).1).0 ≡ ok tt)
        × ((index_addresses id place (a ∷ as') s).1
            ≡ (index_addresses id place as' (put kv (addr_tx_key a place id) blank s).1).1)
  unfolding index_addresses
  index-step id place a as' s h = ground arith

  index-nil :
      (id : Text) (place : ℕ) (s : Store kv) (id' : Text)
      → get_transaction kv id' (index_addresses id place [] s).1 ≡ get_transaction kv id' s
  unfolding index_addresses
  index-nil id place s id' = refl

  index_addresses-get_transaction :
      (id : Text) (place : ℕ) (as' : List Address) (s : Store kv) (id' : Text)
      → (index_addresses id place as' s).0 ≡ ok tt
      → get_transaction kv id' (index_addresses id place as' s).1 ≡ get_transaction kv id' s
  index_addresses-get_transaction id place [] s id' h = index-nil id place s id'
  index_addresses-get_transaction id place (a ∷ as') s id' h =
      let (w, rest, e) = index-step id place a as' s h in
      ap (get_transaction kv id') e
      ∙ index_addresses-get_transaction id place as' _ id' rest
      ∙ put-get_transaction (addr_tx_key a place id) blank id' s (index_ne a place id id') w

  -- the store after the transaction is written
  abbrev written : Text → Transaction → Store kv → Store kv
  written id t s = (put kv (tx_key id) (tx_value t) s).1

  -- the addresses of a transaction, and the store after the inputs are read
  abbrev collected : Text → Transaction → Store kv → List Address
  collected id t s =
      elim (input_addresses t.inputs (output_addresses t.outputs []) (written id t s)).0 [
        | ok as' ↦ as'
        | err e ↦ []
      ]

  abbrev read : Text → Transaction → Store kv → Store kv
  read id t s = (input_addresses t.inputs (output_addresses t.outputs []) (written id t s)).1

  store_transaction-ok :
      (ext : External) (t : Transaction) (height : ℕ) (s : Store kv) (id : Text)
      → tx_id ext t ≡ some id
      → (store_transaction ext t height s).0 ≡ ok tt
      → ((put kv (tx_key id) (tx_value t) s).0 ≡ ok tt)
        × ((index_addresses id (sub64 999999999999999999 height) (collected id t s) (read id t s)).0
            ≡ ok tt)
        × ((store_transaction ext t height s).1
            ≡ (index_addresses id
                (sub64 999999999999999999 height)
                (collected id t s)
                (read id t s)).1)
  unfolding store_transaction
  store_transaction-ok ext t height s id e h = ground arith

-- After a successful `StoreTransaction`, `GetTransaction` with the transaction's identifier returns
-- the transaction; the index entries of its addresses do not stand in the way.
pub store_transaction-get_transaction :
    (kv : Database) (ext : External) (t : Transaction) (height : ℕ) (s : Store kv) (id : Text)
    → tx_id ext t ≡ some id
    → (store_transaction kv ext t height s).0 ≡ ok tt
    → get_transaction kv id (store_transaction kv ext t height s).1 ≡ ok (some t)
store_transaction-get_transaction kv ext t height s id e h =
    let (w, rest, after) = store_transaction-ok kv ext t height s id e h in
    ap (get_transaction kv id) after
    ∙ index_addresses-get_transaction kv id _ (collected kv id t s) (read kv id t s) id rest
    ∙ get_transaction-db kv id (written kv id t s) (read kv id t s)
        (input_addresses-db kv t.inputs _ (written kv id t s))
    ∙ put-stored_transaction kv id t s w
