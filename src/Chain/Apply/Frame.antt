-- ===== src/Chain/Apply/Frame.antt =====
-- What `AddBlock` of lib/chain.go changes of the list of blocks: nothing up to the storing of the block,
-- and then one block behind the others.
use shadowd.Common.{
  ℕ, ◌+◌, ◌≡◌, refl, ◌∙◌, Bool, true, false, inl, inr, Option, none, some, List, [], ◌∷◌, arith,
  if◌then◌else◌, nat_eq,
}
use shadowd.Common.Text.{Text, text_eq}
use shadowd.Common.Result.{Result, ok, err, Result-cases}
use shadowd.Process.Dispatch.{process_token_transaction}
use shadowd.Utxo.Store.{add_utxo}
use shadowd.Utxo.Store
use shadowd.Utxo.Transactions.{store_transaction}
use shadowd.Common.State.{pure, gets, modify, ◌>>=◌}
use shadowd.Tx.External.{tx_id_or_empty}
use shadowd.Process.World.{ProcessError}
use shadowd.Tx.{TxInput, TxOutput, Transaction}
use shadowd.Chain.{Block}
use shadowd.Chain.Ledger.{ChainEnv, Ledger, ChainError, Op, slice}
use shadowd.Chain.Apply.{
  pay_coinbase, apply_coinbase, find_transaction, share, process, spend_inputs, create_outputs,
  block_utxo, apply_stored, apply_found, apply_all, apply_block, try_utxo, must_utxo, must_blocks,
  warned, after_world, world,
}

module _ {c : ChainEnv} where
  -- an operation that leaves the blocks as they are, whatever it returns
  pub record KeepsBlocks {A : Type 0} (op : Op c A) : Type 0 where
    pub kept : (l : Ledger c) → (op l).1.blocks ≡ l.blocks

  bind-KeepsBlocks :
      {A B : Type 0} {m : Op c A} {f : A → Op c B}
      → KeepsBlocks m
      → ((a : A) → KeepsBlocks (f a))
      → KeepsBlocks (m >>= f)
  bind-KeepsBlocks {m = m} {f = f} km kf = record {
    kept = λ l. elim (Result-cases (m l).0) [
      | inl (a, e) ↦ rw (e, ◌>>=◌) ((kf a).kept (m l).1 ∙ km.kept l)
      | inr (x, e) ↦ rw (e, ◌>>=◌) (km.kept l)
    ];
  }

  same : {A : Type 0} {op : Op c A} → ((l : Ledger c) → (op l).1.blocks ≡ l.blocks) → KeepsBlocks op
  same h = record { kept = h }

  if-KeepsBlocks :
      {A : Type 0} {m n : Op c A} (b : Bool)
      → KeepsBlocks m
      → KeepsBlocks n
      → KeepsBlocks (if b then m else n)
  if-KeepsBlocks true km kn = km
  if-KeepsBlocks false km kn = kn

  slice-KeepsBlocks : (n : ℕ) (s : Text) → KeepsBlocks (slice {c = c} n s)
  slice-KeepsBlocks n s = same (λ l. ground arith)

  gets-KeepsBlocks : {A : Type 0} (f : Ledger c → A) → KeepsBlocks (gets f)
  gets-KeepsBlocks f = same (λ l. refl)

  pure-KeepsBlocks : KeepsBlocks (pure {S = Ledger c} {E = ChainError} tt)
  pure-KeepsBlocks = same (λ l. refl)

  try_utxo-KeepsBlocks : (op : Store.Op c.env.kv (Unit {0})) → KeepsBlocks (try_utxo {c = c} op)
  try_utxo-KeepsBlocks op = same (λ l. refl)

  must_utxo-KeepsBlocks : (op : Store.Op c.env.kv (Unit {0})) → KeepsBlocks (must_utxo {c = c} op)
  must_utxo-KeepsBlocks op = same (λ l. refl)

  must_blocks-KeepsBlocks : (b : Block) → KeepsBlocks (must_blocks {c = c} b)
  must_blocks-KeepsBlocks b = same (λ l. refl)

  share-KeepsBlocks :
      (own : Bool) (id : Text) (t : Transaction) → KeepsBlocks (modify (share {c = c} own id t))
  unfolding share
  share-KeepsBlocks own id t = same (λ l. ground arith)

  pay_coinbase-KeepsBlocks :
      (id : Text) (height i : ℕ) (os : List TxOutput) → KeepsBlocks (pay_coinbase id height i os)
  unfolding pay_coinbase
  pay_coinbase-KeepsBlocks id height i [] = same (λ l. refl)
  pay_coinbase-KeepsBlocks id height i (o ∷ os) =
      bind-KeepsBlocks (must_utxo-KeepsBlocks _)
        (λ _. pay_coinbase-KeepsBlocks id height (i + 1) os)

  apply_coinbase-KeepsBlocks :
      (height : ℕ) (cb : Option Transaction) → KeepsBlocks (apply_coinbase height cb)
  unfolding apply_coinbase
  apply_coinbase-KeepsBlocks height none = same (λ l. refl)
  apply_coinbase-KeepsBlocks height (some t) =
      bind-KeepsBlocks (must_utxo-KeepsBlocks _)
        (λ _. pay_coinbase-KeepsBlocks (tx_id_or_empty c.env.ext t) height 0 t.outputs)

  warned-KeepsBlocks : (id : Text) (r : Result ProcessError (Unit {0})) → KeepsBlocks (warned id r)
  warned-KeepsBlocks id (ok _) = same (λ l. refl)
  warned-KeepsBlocks id (err e) = same (λ l. ground arith)

  process-KeepsBlocks :
      (id : Text) (height : ℕ) (t : Transaction) → KeepsBlocks (process id height t)
  unfolding process
  process-KeepsBlocks id height t = same (λ l.
      let (r, w) = process_token_transaction height (world t l) in
      (bind-KeepsBlocks {m = warned id r} {f = λ _. pure w.tx} (warned-KeepsBlocks id r)
          (λ _. same (λ m. refl))).kept
        (after_world w l))

  spend_inputs-KeepsBlocks : (is : List TxInput) → KeepsBlocks (spend_inputs is)
  unfolding spend_inputs
  spend_inputs-KeepsBlocks [] = same (λ l. refl)
  spend_inputs-KeepsBlocks (i ∷ is) = bind-KeepsBlocks (try_utxo-KeepsBlocks _) (λ spent.
      bind-KeepsBlocks (if-KeepsBlocks spent pure-KeepsBlocks (slice-KeepsBlocks 16 i.prev_tx_id))
        (λ _. spend_inputs-KeepsBlocks is))

  create_outputs-KeepsBlocks :
      (id : Text) (height i : ℕ) (os : List TxOutput) → KeepsBlocks (create_outputs id height i os)
  unfolding create_outputs
  create_outputs-KeepsBlocks id height i [] = same (λ l. refl)
  create_outputs-KeepsBlocks id height i (o ∷ os) =
      bind-KeepsBlocks (try_utxo-KeepsBlocks (add_utxo c.env.kv (block_utxo id height i o)))
        (λ _. create_outputs-KeepsBlocks id height (i + 1) os)

  apply_stored-KeepsBlocks :
      (id : Text) (height : ℕ) (found : Bool × Transaction)
      → KeepsBlocks (apply_stored id height found)
  unfolding apply_stored
  apply_stored-KeepsBlocks id height (own, t) =
      bind-KeepsBlocks (process-KeepsBlocks id height t) (λ t'.
        bind-KeepsBlocks (share-KeepsBlocks own id t') (λ _.
          bind-KeepsBlocks (spend_inputs-KeepsBlocks t'.inputs)
            (λ _. create_outputs-KeepsBlocks id height 0 t'.outputs)))

  apply_found-KeepsBlocks :
      (id : Text) (height : ℕ) (found : Option (Bool × Transaction))
      → KeepsBlocks (apply_found id height found)
  unfolding apply_found
  apply_found-KeepsBlocks id height none = slice-KeepsBlocks 16 id
  apply_found-KeepsBlocks id height (some found) =
      bind-KeepsBlocks (try_utxo-KeepsBlocks (store_transaction c.env.kv c.env.ext found.1 height))
        (λ stored.
          if-KeepsBlocks stored (apply_stored-KeepsBlocks id height found)
            (slice-KeepsBlocks 16 id))

  apply_all-KeepsBlocks :
      (pooled : Bool) (height : ℕ) (ids : List Text) → KeepsBlocks (apply_all pooled height ids)
  unfolding apply_all
  apply_all-KeepsBlocks pooled height [] = same (λ l. refl)
  apply_all-KeepsBlocks pooled height (id ∷ ids) =
      bind-KeepsBlocks (gets-KeepsBlocks (find_transaction pooled id)) (λ found.
        bind-KeepsBlocks (apply_found-KeepsBlocks id height found)
          (λ _. apply_all-KeepsBlocks pooled height ids))

  pub apply_block-KeepsBlocks : (pooled : Bool) (b : Block) → KeepsBlocks (apply_block pooled b)
  unfolding apply_block
  apply_block-KeepsBlocks pooled b =
      bind-KeepsBlocks (apply_coinbase-KeepsBlocks b.index b.coinbase) (λ _.
        bind-KeepsBlocks (apply_all-KeepsBlocks pooled b.index b.transactions)
          (λ _. must_blocks-KeepsBlocks b))
