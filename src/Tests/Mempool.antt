-- ===== src/Tests/Mempool.antt =====
-- Mempools with sample transactions, and block rewards.
use shadowd.Common.{◌/◌, ◌^◌, ◌≤◌, ◌≡◌, refl, true, [], ◌∷◌, All, some, arith}
use shadowd.Common.Text.{bytes, text_beq, text_eq}
use shadowd.Common.Dict.{lookup, insert, erase}
use shadowd.Tx.{out_point_beq}
use shadowd.Utxo.Database.{utxo_key, utxo_value, key_beq}
use shadowd.Utxo.Store.{Store, stored, get_utxo}
use shadowd.Utxo.Store.Coherent.{IsCoherent}
use shadowd.Mempool.{Entry, Mempool, total_size, erase_all, add_transaction}
use shadowd.Mempool.Admit.{NoDoubleSpend, add_transaction-NoDoubleSpend}
use shadowd.Mempool.Limit.{IsBounded, add_transaction-IsBounded}
use shadowd.Mempool.Purge.{purge_invalid, IsUnspent, purge_invalid-IsUnspent}
use shadowd.Consensus.Reward.{
  initial_block_reward, halving_interval, block_reward, block_reward-eq, issued, issued-le,
}
use shadowd.Tests.Fixtures.{toy_ext, memory, point, input, utxo, transfer}

abbrev quiet : Mempool
quiet = record { entries = []; expiry_blocks = 10; max_size_bytes = 500; current_height = 3 }

quiet-NoDoubleSpend : NoDoubleSpend quiet
unfolding lookup
quiet-NoDoubleSpend id j e f p he hf ne s = ground arith

abbrev one_pending : Mempool
one_pending = (add_transaction toy_ext true 20 (transfer 0 5) quiet).1

one_pending-NoDoubleSpend : NoDoubleSpend one_pending
one_pending-NoDoubleSpend =
    add_transaction-NoDoubleSpend toy_ext true 20 (transfer 0 5) quiet quiet-NoDoubleSpend

add_transaction-NoDoubleSpend_example :
    NoDoubleSpend (add_transaction toy_ext true 21 (transfer 0 6) one_pending).1
add_transaction-NoDoubleSpend_example =
    add_transaction-NoDoubleSpend toy_ext true 21 (transfer 0 6) one_pending
      one_pending-NoDoubleSpend

block_reward-eq_example :
    block_reward 500000 ≡ initial_block_reward / 2 ^ (500000 / halving_interval)
block_reward-eq_example = block_reward-eq 500000

issued-le_example : issued 3 ≤ 2100000000000000
issued-le_example = issued-le 3

abbrev nearly_full : Mempool
nearly_full = record {
  entries =
      (
        bytes "pending",
        record { tx = transfer 0 5; added_at_block = 3; added_timestamp = 20; size_bytes = 338 },
      )
      ∷ [];
  expiry_blocks = 10;
  max_size_bytes = 500;
  current_height = 3;
}

nearly_full-IsBounded : IsBounded nearly_full
unfolding total_size lookup
nearly_full-IsBounded = ((refl, tt), omega arith)

add_transaction-IsBounded_example :
    IsBounded (add_transaction toy_ext true 21 (transfer 1 6) nearly_full).1
add_transaction-IsBounded_example =
    add_transaction-IsBounded toy_ext true 21 (transfer 1 6) nearly_full (omega arith)
      nearly_full-IsBounded

abbrev pending_entry : Entry
pending_entry = record {
  tx = transfer 0 5;
  added_at_block = 3;
  added_timestamp = 20;
  size_bytes = 338;
}

abbrev funds : Store memory
funds = record { db = (utxo_key (point 0), utxo_value (utxo 0 9)) ∷ []; cache = [] }

funds-IsCoherent : IsCoherent memory funds
unfolding lookup
funds-IsCoherent p u h = ground arith

still_pending :
    lookup (bytes "pending") (purge_invalid memory nearly_full funds).0.entries ≡ some pending_entry
unfolding purge_invalid erase_all get_utxo stored lookup insert erase key_beq out_point_beq text_beq
still_pending = refl

purge_invalid-IsUnspent_example :
    (lookup (bytes "pending") nearly_full.entries ≡ some pending_entry)
    × All (IsUnspent memory (purge_invalid memory nearly_full funds).1) (input 0 ∷ [])
    × ((purge_invalid memory nearly_full funds).1.db ≡ funds.db)
purge_invalid-IsUnspent_example =
    purge_invalid-IsUnspent memory nearly_full funds (bytes "pending") pending_entry
      funds-IsCoherent still_pending
