-- ===== src/Chain/Open.antt =====
-- `NewBlockchain` of lib/chain.go on the two stores that it opened, with `rebuildTokenRegistry` and
-- `rebuildPoolRegistry`. The token registry is the process's own, and an error of a registry is
-- dropped.
pub mod Preserves
pub mod Keeps
pub mod Pristine
pub mod Restored
pub mod Loaded
use shadowd.Common.{
  ℕ, zero, suc, ◌+◌, Bool, true, false, Option, none, some, List, [], ◌∷◌, ◌++◌, if◌then◌else◌,
}
use shadowd.Common.Text.{Text, bytes, text_eq}
use shadowd.Common.Word.{scale_up}
use shadowd.Common.Dict.{lookup}
use shadowd.Common.Result.{Result, ok, err}
use shadowd.Common.State.{pure, gets, modify, ◌>>=◌, ◌>>◌}
use shadowd.Tx.{TxType, TxOutput, mint_token, create_pool, Transaction}
use shadowd.Token.{TokenInfo, create_custom_token, set_token_id}
use shadowd.Token.Registry.{register_token}
use shadowd.Pool.{LiquidityPool, CreatePoolData, lp_tokens}
use shadowd.Pool.Registry.{register_pool}
use shadowd.Utxo.Store.{StoreError, get_transaction}
use shadowd.Process.World.{TokenMintData}
use shadowd.Process.Pools.{lp_max_mint, lp_token_info, new_pool}
use shadowd.Chain.{Block, block_hash}
use shadowd.Chain.Store.{get_stored, has_block, latest_height}
use shadowd.Chain.Store
use shadowd.Chain.Ledger.{
  ChainEnv, Ledger, ChainError, chain_panic, missing_block, load_failed, Op, slice, last,
  latest_block, must_latest,
}
use shadowd.Chain.Apply.{append_block, must_blocks}

-- the genesis block; its hash covers no hash
abbrev pub genesis_draft : Block
genesis_draft = record {
  index = 0;
  timestamp = 1704067200;
  transactions = [];
  coinbase = none;
  previous_hash = bytes "0";
  hash = [];
  proposer = bytes "genesis";
  votes = [];
  winning_proof = none;
  winner_address = none;
}

unfoldable pub genesis_block : ChainEnv → Block
genesis_block c = record genesis_draft { hash = block_hash c.sha genesis_draft }

abbrev pub found_tx : Result StoreError (Option Transaction) → Option Transaction
found_tx (ok found) = found
found_tx (err e) = none

abbrev pub Restore : ChainEnv → Type 0
Restore c = Text → ℕ → TxType → Transaction → Op c (Unit {0})

module _ {c : ChainEnv} where
  -- an operation of the block store
  abbrev pub on_blocks : {A : Type 0} → Store.Op c.bk A → Op c A
  on_blocks op l =
      let (r, s) = op l.store in
      (elim r [ ok a ↦ ok a | err e ↦ err (load_failed e) ], record l { store = s })

  abbrev pub or_missing : Option Block → Op c Block
  or_missing none l = (err missing_block, l)
  or_missing (some b) l = (ok b, l)

  -- the loop over the heights, from one on
  unfoldable pub load_blocks : ℕ → ℕ → Op c (Unit {0})
  load_blocks zero i = pure tt
  load_blocks (suc count) i = do
    found ← on_blocks (get_stored c.bk i)
    b ← or_missing found
    modify (append_block b)
    load_blocks count (i + 1)

  -- the registration of a minted token, and the walk to its first output
  unfoldable pub restore_info : Text → TokenInfo → Op c (Unit {0})
  restore_info id info l = elim (register_token c.env.ext (set_token_id id info) l.tokens) [
    | err e ↦ (ok tt, l)
    | ok reg ↦ slice 16 id (record l { tokens = reg })
  ]

  unfoldable pub restore_output : Text → TokenMintData → List TxOutput → Op c (Unit {0})
  unfolding restore_info
  restore_output id d [] l = (ok tt, l)
  restore_output id d (o ∷ os) l =
      elim (create_custom_token c.env.ext d.ticker d.desc d.max_mint d.max_decimals o.address
        c.env.now) [ err e ↦ (ok tt, l) | ok info ↦ restore_info id info l ]

  -- `rebuildTokenRegistry` on one transaction
  unfoldable pub restore_mint : Text → Transaction → Op c (Unit {0})
  unfolding restore_output
  restore_mint id t l = elim (c.env.codec.mint_data t.payload) [
    | none ↦ slice 16 id l
    | some d ↦ restore_output id d t.outputs l
  ]

  -- the slices of the log line of `RegisterPool`
  abbrev pub log_restored : LiquidityPool → Op c (Unit {0})
  log_restored p = do slice 16 p.pool_id; slice 8 p.token_a; slice 8 p.token_b

  -- the rest of `rebuildPoolRegistry` on one transaction, behind the registration of the pool's token
  unfoldable pub add_pool : Text → CreatePoolData → ℕ → ℕ → Op c (Unit {0})
  add_pool id d supply height l = elim (register_pool (new_pool id d supply height) l.pools) [
    | err e ↦ (ok tt, l)
    | ok ps ↦ (log_restored (new_pool id d supply height) >> slice 16 id) (record l { pools = ps })
  ]

  unfoldable pub add_lp_token : Text → TokenInfo → Op c (Unit {0})
  add_lp_token id info l = elim (register_token c.env.ext info l.tokens) [
    | err e ↦ slice 16 id l
    | ok reg ↦ (ok tt, record l { tokens = reg })
  ]

  unfoldable pub restore_pair : Text → ℕ → CreatePoolData → TokenInfo → TokenInfo → Op c (Unit {0})
  unfolding add_lp_token
  restore_pair id height d a b = do
    let max_mint = lp_max_mint (lp_tokens c.env.float d.amount_a d.amount_b)
    add_lp_token id (lp_token_info id a.ticker b.ticker max_mint d.pool_address height)
    add_pool id d (scale_up 8 max_mint) height

  unfoldable pub restore_data :
      Text → ℕ → CreatePoolData → Option TokenInfo → Option TokenInfo → Op c (Unit {0})
  unfolding restore_pair
  restore_data id height d (some a) (some b) = restore_pair id height d a b
  restore_data id height d _ _ = slice 16 id

  -- `rebuildPoolRegistry` on one transaction
  unfoldable pub restore_pool : Text → ℕ → Transaction → Op c (Unit {0})
  unfolding restore_data
  restore_pool id height t l = elim (c.env.codec.pool_data t.payload) [
    | none ↦ slice 16 id l
    | some d ↦ restore_data id height d (lookup d.token_a l.tokens) (lookup d.token_b l.tokens) l
  ]

  -- which transactions either function looks at
  abbrev pub restore_token : Text → ℕ → TxType → Transaction → Op c (Unit {0})
  restore_token id height mint_token t = restore_mint id t
  restore_token id height _ t = pure tt

  abbrev pub restore_created : Text → ℕ → TxType → Transaction → Op c (Unit {0})
  restore_created id height create_pool t = restore_pool id height t
  restore_created id height _ t = pure tt

  abbrev pub on_found : Restore c → Text → ℕ → Option Transaction → Op c (Unit {0})
  on_found f id height none = pure tt
  on_found f id height (some t) = f id height t.tx_type t

  -- the two loops, over the transactions of a block and over the blocks
  unfoldable pub scan_ids : Restore c → ℕ → List Text → Op c (Unit {0})
  scan_ids f height [] = pure tt
  scan_ids f height (id ∷ ids) = do
    found ← gets (λ l. found_tx (get_transaction c.env.kv id l.utxo))
    on_found f id height found
    scan_ids f height ids

  unfoldable pub scan_blocks : Restore c → List Block → Op c (Unit {0})
  scan_blocks f [] = pure tt
  scan_blocks f (b ∷ bs) = do scan_ids f b.index b.transactions; scan_blocks f bs

  -- `rebuildTokenRegistry` and `rebuildPoolRegistry`
  unfoldable pub rebuild_token_registry : Op c (Unit {0})
  rebuild_token_registry = do bs ← gets (λ l. l.blocks); scan_blocks restore_token bs

  unfoldable pub rebuild_pool_registry : Op c (Unit {0})
  rebuild_pool_registry = do bs ← gets (λ l. l.blocks); scan_blocks restore_created bs

  -- the part of `NewBlockchain` for stores with a genesis block
  unfoldable pub load_chain : ℕ → Op c (Unit {0})
  load_chain height = do
    load_blocks (suc height) 0
    tip ← must_latest
    slice 16 tip.hash
    rebuild_token_registry
    rebuild_pool_registry

  unfoldable pub start_chain : Op c (Unit {0})
  start_chain = do modify (append_block (genesis_block c)); must_blocks (genesis_block c)

  abbrev pub fresh : Ledger c → Ledger c
  fresh l = record l { blocks = []; pools = []; pruning_depth = 0 }

  abbrev pub read_height : Op c ℕ
  read_height l =
      (elim (latest_height c.bk l.store) [ ok n ↦ ok n | err e ↦ err (load_failed e) ], l)

  -- `NewBlockchain`
  unfoldable pub new_blockchain : Op c (Unit {0})
  new_blockchain = do
    modify fresh
    height ← read_height
    found ← on_blocks (has_block c.bk 0)
    if found then load_chain height else start_chain
