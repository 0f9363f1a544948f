-- ===== src/Chain/Ledger.antt =====
-- The `Blockchain` of lib/chain.go with the registries and the mempool that its methods are given, its
-- reads, its votes, the pruning of proofs, and the proposal and validation of a block. A method
-- that stores blocks works on the pointers that the block store caches too.
use shadowd.Common.{
  ℕ, zero, suc, ◌+◌, ◌-◌, Bool, true, false, ◌&&◌, not, Option, none, some, List, [], ◌∷◌, ◌++◌,
  any, length, get_elem?, leb, ltb, ◌==◌, nat_eq, if◌then◌else◌,
}
use shadowd.Common.Text.{Text, text_eq}
use shadowd.Common.Word.{add64}
use shadowd.Common.Result.{Result, ok, err}
use shadowd.Common.State.{Action, pure, raise_if, ◌>>=◌, ◌>>◌}
use shadowd.Tx.{Transaction}
use shadowd.Token.Registry.{Registry}
use shadowd.Pool.Registry.{Pools}
use shadowd.Utxo.Store.{Store, StoreError}
use shadowd.Process.World.{Env}
use shadowd.Mempool.{Mempool}
use shadowd.Chain.{ProofOfSpace, Block, block_hash}
use shadowd.Chain.Store.{BlockDatabase, BlockStore, BlockError, save_block, cache_block}

-- What is outside the repository: that of the transactions, the block database, and the hexadecimal
-- text of `sha256.Sum256`.
pub record ChainEnv : Type 1 where
  pub env : Env
  pub bk : BlockDatabase
  pub sha : Text → Text

-- `pruning_depth` is a Go int, as its bit pattern.
pub record Ledger (c : ChainEnv) : Type 0 where
  pub blocks : List Block
  pub store : BlockStore c.bk
  pub utxo : Store c.env.kv
  pub tokens : Registry
  pub pools : Pools
  pub mempool : Mempool
  pub pruning_depth : ℕ

-- `chain_panic` is a run-time panic.
pub data ChainError : Type 0 where
  chain_panic bad_index bad_previous bad_hash : ChainError
  vote_exists block_not_found missing_block : ChainError
  coinbase_failed : StoreError → ChainError
  save_failed load_failed : BlockError → ChainError

abbrev pub Op : ChainEnv → Type 0 → Type 0
Op c A = Action (Ledger c) ChainError A

abbrev pub last : List Block → Option Block
last [] = none
last (b ∷ []) = some b
last (b ∷ d ∷ bs) = last (d ∷ bs)

abbrev pub slice : {c : ChainEnv} → ℕ → Text → Op c (Unit {0})
slice n s = raise_if (ltb (length s) n) chain_panic

abbrev pub has_proof : Option ProofOfSpace → Bool
has_proof none = false
has_proof (some p) = true

-- The loop of `GetBlockRange` from an index on, over the number of blocks that it takes.
unfoldable pub range_from : ℕ → ℕ → List Block → List Block
range_from zero i bs = []
range_from (suc count) i bs =
    let rest : List Block = range_from count (i + 1) bs in
    elim (get_elem? bs i) [ none ↦ [] | some b ↦ b ∷ rest ]

-- `Blockchain.GetBlockRange`, which panics where the capacity that it makes wraps around
unfoldable pub block_range : ℕ → ℕ → List Block → Result ChainError (List Block)
block_range start end bs =
    let stop : ℕ = if leb (length bs) end then length bs - 1 else end in
    if leb (length bs) start
    then ok []
    else if ltb (stop + 1) start
    then err chain_panic
    else ok (range_from (stop + 1 - start) start bs)

-- the body of the loop of `AddVote` over the blocks
unfoldable pub vote_for : Text → Text → List Block → Result ChainError (Block × List Block)
vote_for hash vote [] = err block_not_found
vote_for hash vote (b ∷ bs) =
    let rest : Result ChainError (Block × List Block) = vote_for hash vote bs in
    let voted : Block = record b { votes = b.votes ++ (vote ∷ []) } in
    if b.hash == hash
    then (if any (λ v. v == vote) b.votes then err vote_exists else ok (voted, voted ∷ bs))
    else elim rest [ ok found ↦ ok (found.0, b ∷ found.1) | err e ↦ err e ]

abbrev pub stripped : Block → Block
stripped b = record b { winning_proof = none }

-- the test of a block in `PruneOldProofs`
abbrev pub is_old : ℕ → Block → Bool
is_old before b = ltb b.index before && has_proof b.winning_proof

module _ (bk : BlockDatabase) where
  -- the loop of `PruneOldProofs` on one block, and over the blocks, which ends at the first error
  abbrev pub prune_one :
      ℕ → Block → BlockStore bk → Result BlockError (Unit {0}) × Block × BlockStore bk
  prune_one before b s =
      let (r, s') = save_block bk (stripped b) (cache_block bk b.index (stripped b) s) in
      if is_old before b then (r, stripped b, s') else (ok tt, b, s)

  unfoldable pub prune_from :
      ℕ → List Block → BlockStore bk → Result BlockError (Unit {0}) × List Block × BlockStore bk
  prune_from before [] s = (ok tt, [], s)
  prune_from before (b ∷ bs) s =
      let (r, b', s') = prune_one before b s in
      let (r', bs', s'') = prune_from before bs s' in
      elim r [ ok _ ↦ (r', b' ∷ bs', s'') | err e ↦ (err e, b' ∷ bs, s') ]

abbrev pub new_block : ℕ → Block → List Text → Text → Option Transaction → Block
new_block now prev ids proposer cb = record {
  index = add64 prev.index 1;
  timestamp = now;
  transactions = ids;
  coinbase = cb;
  previous_hash = prev.hash;
  hash = [];
  proposer = proposer;
  votes = [];
  winning_proof = none;
  winner_address = none;
}

abbrev pub prune_error : Result BlockError (Unit {0}) → Result ChainError (Unit {0})
prune_error (ok _) = ok tt
prune_error (err e) = err (save_failed e)

module _ {c : ChainEnv} where
  -- `GetLatestBlock`, `GetBlock` and `GetHeight`
  unfoldable pub latest_block : Ledger c → Option Block
  latest_block l = last l.blocks

  unfoldable pub get_block : ℕ → Ledger c → Option Block
  get_block n l = if leb (length l.blocks) n then none else get_elem? l.blocks n

  unfoldable pub get_height : Ledger c → ℕ
  get_height l = length l.blocks

  -- `SetProofPruningDepth`
  unfoldable pub set_pruning_depth : ℕ → Ledger c → Ledger c
  set_pruning_depth depth l = record l { pruning_depth = depth }

  -- the field of the block behind `GetLatestBlock`, which panics where there is none
  abbrev pub must_latest : Op c Block
  must_latest l = elim (latest_block l) [ none ↦ (err chain_panic, l) | some b ↦ (ok b, l) ]

  -- `ProposeBlock`; the hash covers no field that is set after it.
  unfoldable pub propose_block : List Text → Text → Option Transaction → Op c Block
  propose_block ids proposer cb = do
    prev ← must_latest
    let draft = new_block c.env.now prev ids proposer cb
    let b = record draft { hash = block_hash c.sha draft }
    slice 16 b.hash
    pure b

  -- `ValidateBlock`
  unfoldable pub validate_block : Block → Op c (Unit {0})
  validate_block b = do
    prev ← must_latest
    raise_if (not (b.index == add64 prev.index 1)) bad_index
    raise_if (not (b.previous_hash == prev.hash)) bad_previous
    raise_if (not (b.hash == block_hash c.sha b)) bad_hash

  -- `AddVote`, which changes the cached block too
  unfoldable pub add_vote : Text → Text → Op c (Unit {0})
  add_vote hash vote l = elim (vote_for hash vote l.blocks) [
    | err e ↦ (err e, l)
    | ok (b, bs) ↦ (ok tt, record l { blocks = bs; store = cache_block c.bk b.index b l.store })
  ]

  -- `PruneOldProofs`
  unfoldable pub prune_old_proofs : Op c (Unit {0})
  prune_old_proofs l =
      let height : ℕ = length l.blocks in
      let (r, bs, s) = prune_from c.bk (height - l.pruning_depth) l.blocks l.store in
      if (l.pruning_depth == 0)
      then (ok tt, l)
      else if leb height l.pruning_depth
      then (ok tt, l)
      else (prune_error r, record l { blocks = bs; store = s })
