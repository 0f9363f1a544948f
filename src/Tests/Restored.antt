-- ===== src/Tests/Restored.antt =====
-- A chain whose second block creates a pool, opened from its stores.
use shadowd.Common.{◌≡◌, refl, some, [], ◌∷◌, map}
use shadowd.Common.Text.{Text, bytes, text_beq, text_eq}
use shadowd.Common.Dict.{lookup, insert}
use shadowd.Common.Word.{scale_up}
use shadowd.Tx.{create_pool}
use shadowd.Pool.{CreatePoolData, lp_tokens, lp_token_name, validate_fee}
use shadowd.Pool.Registry.{register_pool}
use shadowd.Token.{validate, alnum_text, is_base_token}
use shadowd.Token.Registry.{register_token, check_ticker_available}
use shadowd.Utxo.Database.{tx_key, tx_value, key_beq}
use shadowd.Utxo.Store.{get_transaction}
use shadowd.Process.Pools.{new_pool, lp_token_info, lp_max_mint}
use shadowd.Chain.{Block}
use shadowd.Chain.Store.{
  block_key_beq, put, save_block, has_block, get_stored, stored_block, latest_height,
}
use shadowd.Chain.Store.Saved.{restarted}
use shadowd.Chain.Ledger.{ChainEnv, Ledger, latest_block}
use shadowd.Chain.Open.{
  new_blockchain, load_chain, load_blocks, rebuild_token_registry, rebuild_pool_registry,
  scan_blocks, scan_ids, restore_pool, restore_data, restore_pair, add_pool, add_lp_token,
}
use shadowd.Chain.Open.Restored.{new_blockchain-ArePristine}
use shadowd.Chain.Open.Pristine.{ArePristine}
use shadowd.Tests.Fixtures.{transfer}
use shadowd.Tests.Token.{filed_gold}
use shadowd.Tests.Process.{toy_env, toy_codec}
use shadowd.Tests.Chain.{block_memory, toy_chain, block, empty_store}

abbrev pool_terms : CreatePoolData
pool_terms = record {
  token_a = bytes "gold-one";
  token_b = bytes "gold-two";
  amount_a = 100;
  amount_b = 50;
  fee_percent = 30;
  pool_name = [];
  pool_address = 4;
}

abbrev pool_chain : ChainEnv
pool_chain = record toy_chain {
  env = record toy_env { codec = record toy_codec { pool_data = λ text. some pool_terms } };
}

abbrev pool_id : Text
pool_id = bytes "0123456789abcdef-pool"

abbrev pool_block : Block
pool_block = record (block 1 (bytes "0123456789abcdef")) { transactions = pool_id ∷ [] }

abbrev pooled : Ledger pool_chain
pooled = record {
  blocks = [];
  store =
      restarted block_memory
        (save_block block_memory pool_block
          (save_block block_memory (block 0 (bytes "0")) empty_store).1).1;
  utxo = record {
    db = (tx_key pool_id, tx_value (record (transfer 0 0) { tx_type = create_pool })) ∷ [];
    cache = [];
  };
  tokens = (bytes "gold-one", filed_gold) ∷ (bytes "gold-two", filed_gold) ∷ [];
  pools = [];
  mempool = record { entries = []; expiry_blocks = 0; max_size_bytes = 0; current_height = 0 };
  pruning_depth = 0;
}

pool_restored : map (λ p. p.1.reserve_b) (new_blockchain pooled).1.pools ≡ 50 ∷ []
unfolding new_blockchain load_chain load_blocks latest_height has_block get_stored stored_block
    save_block put insert lookup block_key_beq latest_block rebuild_token_registry
    rebuild_pool_registry scan_blocks scan_ids text_beq restore_pool restore_data restore_pair
    add_pool add_lp_token get_transaction key_beq register_token validate lp_token_info
    lp_token_name alnum_text lp_max_mint lp_tokens scale_up is_base_token check_ticker_available
    register_pool new_pool validate_fee
pool_restored = refl

new_blockchain-ArePristine_example :
    ArePristine pool_chain
      (new_blockchain pooled).1.blocks
      (new_blockchain pooled).1.utxo
      (new_blockchain pooled).1.pools
new_blockchain-ArePristine_example = new_blockchain-ArePristine pooled
