-- ===== src/Chain/Open/Pristine.antt =====
-- Which pools the rebuilding of the registries in `NewBlockchain` of lib/chain.go registers.
use shadowd.Common.{ℕ, ◌≡◌, refl, sym, ap, ◌∙◌, List, [], Bool-cases, inl, inr, some, arith}
use shadowd.Common.Text.{Text, text_eq, text_beq_iff}
use mathlib.Core.Path.{subst}
use mathlib.Core.List.{Memᴰ}
use shadowd.Common.Dict.{lookup, insert, lookup-insert}
use shadowd.Common.Result.{ok}
use shadowd.Common.State.{◌>>◌}
use shadowd.Pool.{LiquidityPool, CreatePoolData}
use shadowd.Pool.Registry.{Pools, register_pool}
use shadowd.Process.Pools.{new_pool}
use shadowd.Tx.{create_pool, Transaction}
use shadowd.Utxo.Store.{Store, get_transaction}
use shadowd.Chain.{Block}
use shadowd.Chain.Ledger.{ChainEnv, Ledger, slice}
use shadowd.Chain.Open.{found_tx, rebuild_token_registry, rebuild_pool_registry}
use shadowd.Chain.Open.Preserves.{Preserves}
use shadowd.Chain.Open.Keeps.{rebuilds-Preserves, first_supply, Made}

-- A pool is as a transaction of these blocks made it: the pool has the transaction's identifier, and the
-- reserves, the fee and the rest that the transaction's data say.
pub record IsRestored (c : ChainEnv) (bs : List Block) (utxo : Store c.env.kv) (id : Text)
    (p : LiquidityPool) : Type 0 where
  pub block : Block
  pub transaction : Transaction
  pub terms : CreatePoolData
  pub inside : Memᴰ block bs
  pub listed : Memᴰ id block.transactions
  pub found : found_tx (get_transaction c.env.kv id utxo) ≡ some transaction
  pub creates : transaction.tx_type ≡ create_pool
  pub parsed : c.env.codec.pool_data transaction.payload ≡ some terms
  pub made : p ≡ new_pool id terms (first_supply c terms) block.index
  pub first : p.reserve_a ≡ terms.amount_a
  pub second : p.reserve_b ≡ terms.amount_b
  pub fee : p.fee_percent ≡ terms.fee_percent

-- Every pool was created by a transaction of these blocks, and is as that made it.
abbrev pub ArePristine : (c : ChainEnv) → List Block → Store c.env.kv → Pools → Type 0
ArePristine c bs utxo pools =
    (id : Text) (p : LiquidityPool) → lookup id pools ≡ some p → IsRestored c bs utxo id p

register_pool-insert :
    (p : LiquidityPool) (pools ps : Pools)
    → register_pool p pools ≡ ok ps
    → ps ≡ insert p.pool_id p pools
unfolding register_pool
register_pool-insert p pools ps h = ground arith

-- what a transaction of the blocks is known for
record IsKnown (c : ChainEnv) (bs : List Block) (utxo : Store c.env.kv) (id : Text) (height : ℕ)
    (t : Transaction) : Type 0 where
  block : Block
  inside : Memᴰ block bs
  listed : Memᴰ id block.transactions
  index : height ≡ block.index
  found : found_tx (get_transaction c.env.kv id utxo) ≡ some t

-- the blocks and outputs of a rebuilding, and pools that they account for
pub record IsRebuilding (c : ChainEnv) (bs : List Block) (utxo : Store c.env.kv) (l : Ledger c)
    : Type 0 where
  pub blocks : l.blocks ≡ bs
  pub outputs : l.utxo ≡ utxo
  pub pools : ArePristine c bs utxo l.pools

module _ {c : ChainEnv} where
  abbrev pub IsBare : Ledger c → Type 0
  IsBare l = l.pools ≡ []

  abbrev pub IsPristine : Ledger c → Type 0
  IsPristine l = ArePristine c l.blocks l.utxo l.pools

  pub IsBare-IsPristine : (l : Ledger c) → IsBare l → IsPristine l
  unfolding lookup
  IsBare-IsPristine l bare id p found = absurd (ground (arith, bare))

  module _ (bs : List Block) (utxo : Store c.env.kv) where
    new_pool-IsRestored :
        (id : Text) (d : CreatePoolData) (height : ℕ)
        → Made c (IsKnown c bs utxo) id height d
        → IsRestored c bs utxo id (new_pool id d (first_supply c d) height)
    unfolding new_pool
    new_pool-IsRestored id d height (t, k, kind, read) = record {
      block = k.block;
      transaction = t;
      terms = d;
      inside = k.inside;
      listed = k.listed;
      found = k.found;
      creates = kind;
      parsed = read;
      made = ap (new_pool id d (first_supply c d)) k.index;
      first = refl;
      second = refl;
      fee = refl;
    }

    insert-ArePristine :
        (pools : Pools) (id : Text) (d : CreatePoolData) (height : ℕ) (ps : Pools)
        → Made c (IsKnown c bs utxo) id height d
        → register_pool (new_pool id d (first_supply c d) height) pools ≡ ok ps
        → ArePristine c bs utxo pools
        → ArePristine c bs utxo ps
    unfolding new_pool
    insert-ArePristine pools id d height ps made h old j p found =
        let q : LiquidityPool = new_pool id d (first_supply c d) height in
        let e : ps ≡ insert id q pools = register_pool-insert q pools ps h in
        elim (Bool-cases (text_eq.beq id j)) [
          | inl same ↦
              let here : id ≡ j = (text_beq_iff id j).0 same in
              let it : q ≡ p = ground (arith, same, e, found, lookup-insert id j q pools) in
              subst (λ x. IsRestored c bs utxo x p) here
                (subst (IsRestored c bs utxo id) it (new_pool-IsRestored id d height made))
          | inr other ↦ old j p (ground (arith, lookup-insert id j q pools))
        ]

    pub rebuilds-IsRebuilding :
        (tip : Block)
        → Preserves
            (IsRebuilding c bs utxo)
            (slice {c = c} 16 tip.hash >> (rebuild_token_registry >> rebuild_pool_registry))
    rebuilds-IsRebuilding tip =
        rebuilds-Preserves (IsRebuilding c bs utxo) bs (λ l r. r.blocks) (IsKnown c bs utxo)
          (λ l b id t r inside listed found. record {
            block = b;
            inside = inside;
            listed = listed;
            index = refl;
            found = ap (λ u. found_tx (get_transaction c.env.kv id u)) (sym r.outputs) ∙ found;
          })
          (λ l reg r. record { blocks = r.blocks; outputs = r.outputs; pools = r.pools })
          (λ l id d height ps made h r. record {
            blocks = r.blocks;
            outputs = r.outputs;
            pools = insert-ArePristine l.pools id d height ps made h r.pools;
          })
          tip

  pub IsRebuilding-IsPristine :
      (bs : List Block) (utxo : Store c.env.kv) (m : Ledger c)
      → IsRebuilding c bs utxo m
      → IsPristine m
  IsRebuilding-IsPristine bs utxo m r =
      subst (λ x. ArePristine c x m.utxo m.pools) (sym r.blocks)
        (subst (λ u. ArePristine c bs u m.pools) (sym r.outputs) r.pools)
