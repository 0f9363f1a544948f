-- ===== src/Tests/Chain.antt =====
-- A chain of two blocks in memory.
use shadowd.Common.{
  ℕ, ◌+◌, ◌≡◌, ◌≤◌, ◌<◌, ◌⊎◌, ◌↔◌, refl, true, false, Option, none, some, List, [], ◌∷◌, length,
  get_elem?, Eq, arith, if◌then◌else◌, ◌==◌, leb, nat_eq,
}
use shadowd.Common.Text.{Text, bytes, text_beq, text_beq_iff, text_eq}
use shadowd.Common.Word.{u64_mod}
use shadowd.Common.Dict.{Dict, lookup, insert, lookup-insert}
use shadowd.Common.Result.{Result, ok, err}
use shadowd.Chain.{ProofOfSpace, Block, block_hash}
use shadowd.Chain.Store.{
  BlockKey, block_key, hash_key, latest_key, genesis_key, BlockValue, BlockError, BlockDatabase,
  BlockStore, block_key_beq, put, save_block, stored_block, get_stored, get_by_hash, latest_height,
  has_block,
}
use shadowd.Chain.Store.Saved.{restarted, save_block-get_stored}
use shadowd.Chain.Ledger.{
  ChainEnv, Ledger, chain_panic, latest_block, get_block, validate_block, propose_block, prune_from,
  prune_old_proofs, block_range,
}
use shadowd.Chain.Apply.{add_block, apply_block, apply_coinbase, apply_all, finish_block}
use shadowd.Chain.Linked.{IsLinked}
use shadowd.Chain.Reach.{here, next, adds, LinksTo, ChainReach-get_block}
use shadowd.Chain.Propose.{propose_block-validate_block}
use shadowd.Chain.Prune.{LatestBelow, prune_old_proofs-latest_height}
use shadowd.Chain.Range.{block_range-get_elem?}
use shadowd.Chain.Open.{
  new_blockchain, load_chain, load_blocks, rebuild_token_registry, rebuild_pool_registry,
  scan_blocks, scan_ids,
}
use shadowd.Tests.Process.{toy_env}

pub block_key_beq_iff : (k j : BlockKey) → (block_key_beq k j ≡ true) ↔ (k ≡ j)
unfolding block_key_beq
block_key_beq_iff (block_key m) (block_key n) = ground arith
block_key_beq_iff (hash_key s) (hash_key t) = ground (arith, text_beq_iff s t)
block_key_beq_iff latest_key latest_key = ground arith
block_key_beq_iff genesis_key genesis_key = ground arith
block_key_beq_iff _ _ = ground arith

instance abbrev pub block_key_eq : Eq BlockKey
block_key_eq = record { beq = block_key_beq; beq_iff = block_key_beq_iff }

abbrev pub BlockCells : Type 0
BlockCells = Dict BlockKey BlockValue

abbrev pub get_cell : BlockKey → BlockCells → Result BlockError (Option BlockValue)
get_cell k d = ok (lookup k d)

abbrev pub set_cell : BlockKey → BlockValue → BlockCells → Result BlockError BlockCells
set_cell k v d = ok (insert k v d)

pub get_cell-set :
    (k j : BlockKey) (v : BlockValue) (d : BlockCells) {d' : BlockCells}
    → set_cell k v d ≡ ok d'
    → get_cell j d' ≡ (if block_key_beq k j then ok (some v) else get_cell j d)
get_cell-set k j v d h = ground (arith, lookup-insert k j v d)

abbrev pub block_memory : BlockDatabase
block_memory = record { Db = BlockCells; get = get_cell; set = set_cell; get-set = get_cell-set }

abbrev pub toy_chain : ChainEnv
toy_chain = record { env = toy_env; bk = block_memory; sha = λ t. bytes "0123456789abcdef" }

abbrev some_proof : ProofOfSpace
some_proof = record {
  challenge_hash = bytes "c";
  plot_hash = bytes "p";
  plot_public_key = bytes "k";
  plot_signature = bytes "s";
  distance = 9;
  miner_public_key = 8 ∷ 9 ∷ [];
  miner_signature = bytes "m";
}

abbrev pub block : ℕ → Text → Block
block n previous = record {
  index = n;
  timestamp = 1704067200;
  transactions = [];
  coinbase = none;
  previous_hash = previous;
  hash = bytes "0123456789abcdef";
  proposer = bytes "fedcba9876543210";
  votes = [];
  winning_proof = some some_proof;
  winner_address = none;
}

abbrev pub second : Block
second = block 1 (bytes "0123456789abcdef")

abbrev pub empty_store : BlockStore block_memory
empty_store = record { db = []; cache = [] }

abbrev ledger_of : List Block → ℕ → Ledger toy_chain
ledger_of bs depth = record {
  blocks = bs;
  store = empty_store;
  utxo = record { db = []; cache = [] };
  tokens = [];
  pools = [];
  mempool = record { entries = []; expiry_blocks = 0; max_size_bytes = 0; current_height = 0 };
  pruning_depth = depth;
}

abbrev pub one_block : Ledger toy_chain
one_block = ledger_of (block 0 (bytes "0") ∷ []) 0

abbrev two_blocks : Ledger toy_chain
two_blocks = ledger_of (block 0 (bytes "0") ∷ second ∷ []) 1

second_saved : (save_block block_memory second empty_store).0 ≡ ok tt
unfolding save_block put
second_saved = refl

save_block-get_stored_example :
    ((get_stored block_memory 1 (save_block block_memory second empty_store).1).0
      ≡ ok (some second))
    × ((get_stored block_memory 1
          (restarted block_memory (save_block block_memory second empty_store).1)).0
        ≡ ok (some second))
    × ((get_by_hash block_memory
          (bytes "0123456789abcdef")
          (save_block block_memory second empty_store).1).0
        ≡ ok (some second))
    × ((get_by_hash block_memory
          (bytes "0123456789abcdef")
          (restarted block_memory (save_block block_memory second empty_store).1)).0
        ≡ ok (some second))
    × (latest_height block_memory (save_block block_memory second empty_store).1 ≡ ok 1)
    × (stored_block block_memory 1 (save_block block_memory second empty_store).1
        ≡ (if second.index == 1 then ok (some second) else stored_block block_memory 1 empty_store))
save_block-get_stored_example = save_block-get_stored block_memory second 1 empty_store second_saved

pub one_block-IsLinked : IsLinked one_block
unfolding block_hash
one_block-IsLinked = (refl, refl, refl, tt)

abbrev pub grown : Ledger toy_chain
grown = (add_block false second one_block).1

second_added : get_block 1 grown ≡ some second
unfolding get_block add_block validate_block latest_block block_hash text_beq apply_block
    apply_coinbase apply_all save_block put finish_block insert block_key_beq
second_added = refl

two_long : length grown.blocks ≤ u64_mod
unfolding add_block validate_block latest_block block_hash text_beq apply_block apply_coinbase
    apply_all save_block put finish_block insert block_key_beq
two_long = omega arith

ChainReach-get_block_example :
    (second.index ≡ 1)
    × (bytes "0123456789abcdef" ≡ block_hash toy_chain.sha second)
    × LinksTo second (get_block 2 grown)
ChainReach-get_block_example =
    ChainReach-get_block one_block grown 1 second one_block-IsLinked
      (next here (adds false second one_block)) two_long second_added

abbrev proposal : Block
proposal = record second {
  timestamp = 50;
  proposer = bytes "node";
  transactions = bytes "tx" ∷ [];
  winning_proof = none;
}

proposed : (propose_block (bytes "tx" ∷ []) (bytes "node") none one_block).0 ≡ ok proposal
unfolding propose_block latest_block block_hash
proposed = refl

propose_block-validate_block_example :
    ((propose_block (bytes "tx" ∷ []) (bytes "node") none one_block).1 ≡ one_block)
    × ((validate_block
          (record proposal { winning_proof = some some_proof; winner_address = some 4 })
          one_block).0
        ≡ ok tt)
    × (proposal.transactions ≡ bytes "tx" ∷ [])
    × (proposal.proposer ≡ bytes "node")
    × (proposal.coinbase ≡ none)
propose_block-validate_block_example =
    propose_block-validate_block (bytes "tx" ∷ []) (bytes "node") none none [] (some some_proof)
      (some 4) one_block proposal proposed

pruned : (prune_old_proofs two_blocks).0 ≡ ok tt
unfolding prune_old_proofs prune_from save_block put insert block_key_beq
pruned = refl

prune_old_proofs-latest_height_example :
    LatestBelow block_memory 1 (prune_old_proofs two_blocks).1.store
prune_old_proofs-latest_height_example =
    prune_old_proofs-latest_height two_blocks (λ h. ground arith) (omega arith) refl pruned

block_range-get_elem?_example :
    ((2 ≤ 1) × (block_range 1 1 two_blocks.blocks ≡ ok []))
    ⊎ ((1 < 2)
        × (1 ≤ 1 + 1)
        × ((ds : List Block) × (block_range 1 1 two_blocks.blocks ≡ ok ds)
            × (get_elem? ds 0
                ≡ (if leb (1 + 0) 1 then get_elem? two_blocks.blocks (1 + 0) else none))))
    ⊎ ((1 < 2) × (1 + 1 < 1) × (block_range 1 1 two_blocks.blocks ≡ err chain_panic))
block_range-get_elem?_example = block_range-get_elem? 1 1 0 two_blocks.blocks

-- a store with two blocks
abbrev filled : Ledger toy_chain
filled = record one_block {
  store =
      restarted block_memory
        (save_block block_memory second
          (save_block block_memory (block 0 (bytes "0")) empty_store).1).1;
}

filled_height : latest_height block_memory filled.store ≡ ok 1
unfolding latest_height save_block put insert lookup block_key_beq text_beq
filled_height = refl

filled_genesis : (has_block block_memory 0 filled.store).0 ≡ ok true
unfolding has_block get_stored stored_block save_block put insert lookup block_key_beq text_beq
filled_genesis = refl

filled_opens : (new_blockchain filled).0 ≡ ok tt
unfolding new_blockchain load_chain load_blocks latest_height has_block get_stored stored_block
    save_block put insert lookup block_key_beq latest_block rebuild_token_registry
    rebuild_pool_registry scan_blocks scan_ids text_beq
filled_opens = refl
