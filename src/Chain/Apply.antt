-- ===== src/Chain/Apply.antt =====
-- `AddBlock` of lib/chain.go: the coinbase, the transactions and the block itself. The goroutine that
-- prunes proofs waits for the lock that `AddBlock` holds, so that it is a call of its own.
pub mod Frame
use shadowd.Common.{
  ℕ, ◌+◌, ◌%◌, Bool, true, false, ◌&&◌, not, Option, none, some, List, [], ◌∷◌, ◌++◌, if◌then◌else◌,
}
use shadowd.Common.Text.{Text, text_eq}
use shadowd.Common.Dict.{lookup, insert}
use shadowd.Common.Result.{Result, ok, err}
use shadowd.Common.State.{pure, gets, modify, ◌>>=◌, ◌>>◌}
use shadowd.Tx.{TxInput, TxOutput, Transaction, Utxo, input_point}
use shadowd.Tx.External.{tx_id_or_empty}
use shadowd.Utxo.Store.{Store, StoreError, add_utxo, spend_utxo, get_transaction}
use shadowd.Utxo.Store
use shadowd.Utxo.Transactions.{store_transaction}
use shadowd.Process.World.{Env, World, ProcessError, panic}
use shadowd.Process.Dispatch.{process_token_transaction}
use shadowd.Mempool.{Entry, Mempool, pending}
use shadowd.Mempool.Purge.{purge_invalid}
use shadowd.Chain.{Block}
use shadowd.Chain.Store.{BlockError, save_block}
use shadowd.Chain.Ledger.{
  ChainEnv, Ledger, ChainError, chain_panic, coinbase_failed, save_failed, Op, slice,
  validate_block,
}

-- the output of a transaction at a place, a uint32, in a block of a height
abbrev pub block_utxo : Text → ℕ → ℕ → TxOutput → Utxo
block_utxo id height i o = record {
  tx_id = id;
  output_index = i % 4294967296;
  output = o;
  is_spent = false;
  block_height = height;
}

abbrev pub found_stored : Result StoreError (Option Transaction) → Option (Bool × Transaction)
found_stored (ok (some t)) = some (false, t)
found_stored _ = none

abbrev share_entry : Text → Transaction → Option Entry → Mempool → Mempool
share_entry id t none mp = mp
share_entry id t (some e) mp = record mp { entries = insert id (record e { tx = t }) mp.entries }

module _ {c : ChainEnv} where
  -- an operation of the UTXO store: whether it succeeded, and its error as one of the chain
  abbrev pub try_utxo : Store.Op c.env.kv (Unit {0}) → Op c Bool
  try_utxo op l =
      let (r, s) = op l.utxo in (ok (elim r [ ok _ ↦ true | err e ↦ false ]), record l { utxo = s })

  abbrev pub must_utxo : Store.Op c.env.kv (Unit {0}) → Op c (Unit {0})
  must_utxo op l =
      let (r, s) = op l.utxo in
      (elim r [ ok _ ↦ ok tt | err e ↦ err (coinbase_failed e) ], record l { utxo = s })

  abbrev pub must_blocks : Block → Op c (Unit {0})
  must_blocks b l =
      let (r, s) = save_block c.bk b l.store in
      (elim r [ ok _ ↦ ok tt | err e ↦ err (save_failed e) ], record l { store = s })

  -- the loop over the outputs of the coinbase, which ends at the first error
  unfoldable pub pay_coinbase : Text → ℕ → ℕ → List TxOutput → Op c (Unit {0})
  pay_coinbase id height i [] = pure tt
  pay_coinbase id height i (o ∷ os) = do
    must_utxo (add_utxo c.env.kv (block_utxo id height i o))
    pay_coinbase id height (i + 1) os

  unfoldable pub apply_coinbase : ℕ → Option Transaction → Op c (Unit {0})
  apply_coinbase height none = pure tt
  apply_coinbase height (some t) = do
    must_utxo (store_transaction c.env.kv c.env.ext t height)
    pay_coinbase (tx_id_or_empty c.env.ext t) height 0 t.outputs

  -- the transaction and whether it is the mempool's own, which is asked where the caller passed one
  unfoldable pub find_transaction : Bool → Text → Ledger c → Option (Bool × Transaction)
  find_transaction pooled id l =
      let stored : Option (Bool × Transaction) =
        found_stored (get_transaction c.env.kv id l.utxo) in
      elim (pending id l.mempool) [
        | none ↦ stored
        | some t ↦ if pooled then some (true, t) else stored
      ]

  -- what `ProcessTokenTransaction` did to a transaction of the mempool is there in the mempool
  unfoldable pub share : Bool → Text → Transaction → Ledger c → Ledger c
  share own id t l =
      if own
      then record l { mempool = share_entry id t (lookup id l.mempool.entries) l.mempool }
      else l

  abbrev pub world : Transaction → Ledger c → World c.env
  world t l = record { store = l.utxo; tokens = l.tokens; pools = l.pools; tx = t }

  abbrev pub after_world : World c.env → Ledger c → Ledger c
  after_world w l = record l { utxo = w.store; tokens = w.tokens; pools = w.pools }

  -- an error of the processing is a warning, and a panic goes on
  abbrev pub warned : Text → Result ProcessError (Unit {0}) → Op c (Unit {0})
  warned id (ok _) = pure tt
  warned id (err panic) = λ l. (err chain_panic, l)
  warned id (err e) = slice 16 id

  -- `ProcessTokenTransaction` as `AddBlock` calls it: the transaction comes back as it left it
  unfoldable pub process : Text → ℕ → Transaction → Op c Transaction
  process id height t l =
      let (r, w) = process_token_transaction height (world t l) in
      (warned id r >> pure w.tx) (after_world w l)

  -- the loop over the inputs; an error is a warning
  unfoldable pub spend_inputs : List TxInput → Op c (Unit {0})
  spend_inputs [] = pure tt
  spend_inputs (i ∷ is) = do
    spent ← try_utxo (spend_utxo c.env.kv (input_point i))
    if spent then pure tt else slice 16 i.prev_tx_id
    spend_inputs is

  -- the loop over the outputs, which drops errors
  unfoldable pub create_outputs : Text → ℕ → ℕ → List TxOutput → Op c (Unit {0})
  create_outputs id height i [] = pure tt
  create_outputs id height i (o ∷ os) = do
    added ← try_utxo (add_utxo c.env.kv (block_utxo id height i o))
    create_outputs id height (i + 1) os

  unfoldable pub apply_stored : Text → ℕ → Bool × Transaction → Op c (Unit {0})
  apply_stored id height (own, t) = do
    t' ← process id height t
    modify (share own id t')
    spend_inputs t'.inputs
    create_outputs id height 0 t'.outputs

  unfoldable pub apply_found : Text → ℕ → Option (Bool × Transaction) → Op c (Unit {0})
  apply_found id height none = slice 16 id
  apply_found id height (some found) = do
    stored ← try_utxo (store_transaction c.env.kv c.env.ext found.1 height)
    if stored then apply_stored id height found else slice 16 id

  -- the loop of `AddBlock` over the transactions' identifiers
  unfoldable pub apply_all : Bool → ℕ → List Text → Op c (Unit {0})
  apply_all pooled height [] = pure tt
  apply_all pooled height (id ∷ ids) = do
    found ← gets (find_transaction pooled id)
    apply_found id height found
    apply_all pooled height ids

  -- `PurgeInvalidTransactions`, where the caller passed a mempool
  abbrev pub purge : Bool → Ledger c → Ledger c
  purge pooled l =
      let (mp, s) = purge_invalid c.env.kv l.mempool l.utxo in
      if pooled then record l { mempool = mp; utxo = s } else l

  abbrev pub append_block : Block → Ledger c → Ledger c
  append_block b l = record l { blocks = l.blocks ++ (b ∷ []) }

  -- `AddBlock` behind its validation, which it runs under the lock, up to the block's storing
  unfoldable pub apply_block : Bool → Block → Op c (Unit {0})
  apply_block pooled b = do
    apply_coinbase b.index b.coinbase
    apply_all pooled b.index b.transactions
    must_blocks b

  -- the rest of it; the message slices the hash and the proposer
  unfoldable pub finish_block : Bool → Block → Op c (Unit {0})
  finish_block pooled b = do
    modify (append_block b)
    slice 16 b.hash
    slice 16 b.proposer
    modify (purge pooled)

  -- `AddBlock`, with the node's mempool or with none
  unfoldable pub add_block : Bool → Block → Op c (Unit {0})
  add_block pooled b = do validate_block b; apply_block pooled b; finish_block pooled b
