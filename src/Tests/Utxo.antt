-- ===== src/Tests/Utxo.antt =====
-- Stores in memory, and one whose writes fail.
use shadowd.Common.{◌%◌, ◌≤◌, ◌≡◌, ◌≢◌, refl, false, List, [], ◌∷◌, ◌++◌, some, arith, sum_by}
use shadowd.Common.Text.{Text, bytes, text_beq}
use shadowd.Common.Word.{u64_mod, sum64}
use shadowd.Common.Dict.{lookup, insert, erase}
use shadowd.Common.Result.{ok, err}
use shadowd.Tx.{coinbase, send, Utxo, unsigned, out_point_beq}
use shadowd.Tx.External.{tx_id, tx_hash}
use shadowd.Utxo.Database.{utxo_key, key_beq, utxo_value}
use shadowd.Utxo.Store.{
  Store, already_spent, spent, put, stored, get_utxo, add_utxo, spend_loaded, spend_utxo,
  input_total, validate_spend, validate_in_store, get_transaction,
}
use shadowd.Utxo.Store.Coherent.{IsCoherent, Writes}
use shadowd.Utxo.Store.Spend.{spend_utxo-Writes, spend_utxo_once}
use shadowd.Utxo.Store.Funds.{Funds, utxo_amount, output_amount, validate_in_store-Funds}
use shadowd.Utxo.Transactions.{
  store_transaction, input_addresses, output_addresses, note_address, index_addresses,
  store_transaction-get_transaction,
}
use shadowd.Tests.Fixtures.{toy_ext, memory, read_only, point, utxo, transfer, input}

abbrev one_output : Store memory
one_output = record { db = (utxo_key (point 0), utxo_value (utxo 0 9)) ∷ []; cache = [] }

abbrev frozen : Store read_only
frozen = record { db = (utxo_key (point 0), utxo_value (utxo 0 9)) ∷ []; cache = [] }

one_output-IsCoherent : IsCoherent memory one_output
unfolding lookup
one_output-IsCoherent p u h = ground arith

frozen-IsCoherent : IsCoherent read_only frozen
unfolding lookup
frozen-IsCoherent p u h = ground arith

added : (add_utxo memory (utxo 1 4) one_output).0 ≡ ok tt
unfolding add_utxo put insert key_beq out_point_beq text_beq
added = refl

spent_once : (spend_utxo memory (point 0) one_output).0 ≡ ok tt
unfolding spend_utxo spend_loaded get_utxo stored put lookup insert erase key_beq out_point_beq
    text_beq
spent_once = refl

spend_utxo-Writes_example :
    (u : Utxo) × (stored memory (point 0) one_output ≡ ok (some u))
    × (u.is_spent ≡ false)
    × Writes memory (point 0) (spent u) one_output (spend_utxo memory (point 0) one_output).1
    × IsCoherent memory (spend_utxo memory (point 0) one_output).1
spend_utxo-Writes_example =
    spend_utxo-Writes memory (point 0) one_output one_output-IsCoherent spent_once

spend_utxo_once_example :
    (spend_utxo memory (point 0) (spend_utxo memory (point 0) one_output).1).0 ≡ err already_spent
spend_utxo_once_example =
    spend_utxo_once memory (point 0) one_output one_output-IsCoherent spent_once

frozen-stored : stored read_only (point 0) frozen ≡ ok (some (utxo 0 9))
unfolding stored lookup key_beq out_point_beq text_beq
frozen-stored = refl

funded : (validate_in_store memory send (transfer 0 5) one_output).0 ≡ ok tt
unfolding validate_in_store validate_spend input_total sum64 get_utxo stored lookup insert key_beq
    out_point_beq text_beq
funded = refl

send_not_coinbase : send ≢ coinbase
send_not_coinbase = λ e. absurd (cc)

validate_in_store-Funds_example :
    (us : List Utxo) × Funds memory (input 0 ∷ []) us one_output
    × (sum_by output_amount (transfer 0 5).outputs % u64_mod ≤ sum_by utxo_amount us % u64_mod)
validate_in_store-Funds_example =
    validate_in_store-Funds memory (transfer 0 5) one_output one_output-IsCoherent send_not_coinbase
      funded

abbrev transfer_id : Text
transfer_id = bytes "0123456789abcdef" ++ (1 ∷ bytes "pay") ++ (8 ∷ 9 ∷ 1 ∷ bytes "pay")

transfer_identified : tx_id toy_ext (transfer 0 5) ≡ some transfer_id
unfolding tx_id tx_hash unsigned
transfer_identified = refl

transfer_kept : (store_transaction memory toy_ext (transfer 0 5) 12 one_output).0 ≡ ok tt
unfolding store_transaction input_addresses output_addresses note_address index_addresses tx_id
    tx_hash unsigned get_utxo stored put lookup insert key_beq out_point_beq text_beq
transfer_kept = refl

store_transaction-get_transaction_example :
    get_transaction memory transfer_id
      (store_transaction memory toy_ext (transfer 0 5) 12 one_output).1
    ≡ ok (some (transfer 0 5))
store_transaction-get_transaction_example =
    store_transaction-get_transaction memory toy_ext (transfer 0 5) 12 one_output transfer_id
      transfer_identified transfer_kept
