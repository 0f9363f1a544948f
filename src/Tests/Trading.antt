-- ===== src/Tests/Trading.antt =====
-- Trades and queries of a wallet whose outputs are kept in memory.
use shadowd.Common.{
  ℕ, ◌-◌, ◌%◌, ◌≡◌, ◌≢◌, ◌≤◌, refl, some, List, [], ◌∷◌, length, map, sum_by, arith,
}
use shadowd.Common.Text.{Text, bytes, text_beq, text_eq}
use shadowd.Common.Word.{u64_mod}
use shadowd.Common.Dict.{Dict, lookup}
use shadowd.Common.Result.{Result, ok, err}
use shadowd.Tx.{offer, Transaction, Utxo}
use shadowd.Tx.External.{tx_hash}
use shadowd.Tx.Outputs.{built_output, shadow_output, token_output}
use shadowd.Utxo.Database.{Key, utxo_key, addr_key, addr_tx_key, utxo_value, blank}
use shadowd.Utxo.Store.{Store}
use shadowd.Utxo.Store.Coherent.{IsCoherent}
use shadowd.Utxo.Scan.{
  Cursor, TxEntry, pick_map, addr_point, addr_tx_entry, or_zero, entries_behind, get_balance,
  get_transactions_by_address,
}
use shadowd.Utxo.Scan.Owned.{held_at, amount_in, get_balance-lookup}
use shadowd.Utxo.Scan.Pages.{get_transactions_by_address-le}
use shadowd.Pool.{SwapData, CreatePoolData}
use shadowd.Process.World.{OfferData}
use shadowd.Trading.{
  NodeWallet, select_with_fee, select_from, estimated_fee, finish_trade, sign_transaction,
  sign_message, add_change, add_inputs,
}
use shadowd.Trading.Selected.{IsPlain}
use shadowd.Trading.Offers.{create_offer}
use shadowd.Trading.Liquidity.{
  swap_from, create_pool_from, spend_pair, select_pair, select_a, select_b, select_fee, pair_change,
}
use shadowd.Trading.Balance.{Gives, create_offer-Gives}
use shadowd.Trading.Send.{
  SendRequest, send_from, select_funds, requested_token, required_amount, target_fee, with_memo,
  check_memo,
}
use shadowd.Trading.Send.Sends.{Sends, send_from-Sends}
use shadowd.Trading.Shadow.{shadow_trade-fails}
use shadowd.Trading.Wraps.{PoolChange, create_pool_from-PoolChange}
use shadowd.Tests.Fixtures.{toy_ext, memory, utxo, point, transfer}

abbrev purse : NodeWallet
purse = record { address = 7; public_key = some (8 ∷ 9 ∷ []); mldsa_sign = λ m. m }

abbrev pub coin : ℕ → ℕ → Utxo
coin i n = record (utxo i n) { output = record ((utxo i n).output) { token_id = bytes "AB" } }

abbrev purse_utxos : List Utxo
purse_utxos = coin 0 40 ∷ utxo 1 9000 ∷ coin 2 60 ∷ utxo 3 9000 ∷ []

abbrev pub sale : OfferData
sale = record {
  have_token_id = bytes "AB";
  want_token_id = bytes "SHDW";
  have_amount = 70;
  want_amount = 5;
  expires_at_block = 9;
  offer_address = 0;
}

abbrev swap_in : SwapData
swap_in = record { pool_id = bytes "P"; token_in = bytes "AB"; amount_in = 70; min_amount_out = 1 }

-- the transaction that was built, or one of no use where there was none
abbrev pub built : {E : Type 0} → Result E Transaction → Transaction
built (ok t) = t
built (err e) = transfer 0 0

abbrev sale_tx : Transaction
sale_tx = built (create_offer toy_ext 5 purse (λ d. some d.have_token_id) sale purse_utxos)

sale_built : create_offer toy_ext 5 purse (λ d. some d.have_token_id) sale purse_utxos ≡ ok sale_tx
unfolding create_offer select_with_fee select_from estimated_fee finish_trade sign_transaction
    sign_message tx_hash text_beq
sale_built = refl

not_named : IsPlain (bytes "AB")
unfolding text_beq
not_named = refl

create_offer-Gives_example : Gives toy_ext purse purse_utxos offer (bytes "AB") 2 70 sale_tx
create_offer-Gives_example =
    create_offer-Gives toy_ext 5 purse purse_utxos (omega arith) sale_tx (λ d. some d.have_token_id)
      sale not_named sale_built

abbrev swap_tx : Transaction
swap_tx = built (swap_from toy_ext 5 purse (λ d. some d.token_in) swap_in purse_utxos)

swap_built : swap_from toy_ext 5 purse (λ d. some d.token_in) swap_in purse_utxos ≡ ok swap_tx
unfolding swap_from select_with_fee select_from estimated_fee finish_trade sign_transaction
    sign_message tx_hash text_beq
swap_built = refl

-- offers and swaps of SHADOW
abbrev shadow_sale : OfferData
shadow_sale = record sale { have_token_id = bytes "SHDW" }

abbrev shadow_swap : SwapData
shadow_swap = record swap_in { token_in = bytes "SHDW" }

shadow_trade-fails_example :
    (create_offer toy_ext 5 purse (λ d. some d.have_token_id) shadow_sale purse_utxos ≢ ok sale_tx)
    × (swap_from toy_ext 5 purse (λ d. some d.token_in) shadow_swap purse_utxos ≢ ok sale_tx)
shadow_trade-fails_example =
    shadow_trade-fails toy_ext 5 purse purse_utxos shadow_sale shadow_swap
      (λ d. some d.have_token_id) (λ d. some d.token_in) sale_tx refl refl

-- a pool of SHADOW and a token, of seven inputs that cover the least fee and not the fee for them
abbrev small_coins : List Utxo
small_coins =
    utxo 0 2000
    ∷ utxo 1 2000
    ∷ utxo 2 2000
    ∷ utxo 3 2000
    ∷ utxo 4 2000
    ∷ utxo 5 1600
    ∷ coin 6 50
    ∷ []

abbrev new_pool : CreatePoolData
new_pool = record {
  token_a = bytes "SHDW";
  token_b = bytes "AB";
  amount_a = 100;
  amount_b = 50;
  fee_percent = 30;
  pool_name = [];
  pool_address = 0;
}

abbrev pool_tx : Transaction
pool_tx = built (create_pool_from toy_ext 5 purse (λ d. some d.token_a) new_pool small_coins)

pool_built :
    create_pool_from toy_ext 5 purse (λ d. some d.token_a) new_pool small_coins ≡ ok pool_tx
unfolding create_pool_from spend_pair select_pair select_a select_b select_fee select_from
    estimated_fee finish_trade sign_transaction sign_message tx_hash text_beq
pool_built = refl

other_token : ◌≢◌ {A = Text} (bytes "AB") (bytes "SHDW")
other_token = λ e. absurd (cc)

create_pool_from-PoolChange_example :
    PoolChange toy_ext purse small_coins (bytes "AB") 100 50 pool_tx
create_pool_from-PoolChange_example =
    create_pool_from-PoolChange toy_ext 5 purse small_coins (λ d. some d.token_a) new_pool pool_tx
      (omega arith) (omega arith) refl other_token not_named pool_built

-- the change of that pool is 2 ^ 64 less 1150
wrapped_change : map (λ o. o.amount) pool_tx.outputs ≡ (u64_mod - 1150) ∷ []
unfolding create_pool_from spend_pair select_pair select_a select_b select_fee select_from
    estimated_fee finish_trade sign_transaction sign_message tx_hash text_beq pair_change add_change
    add_inputs built_output shadow_output token_output
wrapped_change = refl

-- a database in memory, and its keys in the order of their writes
abbrev cursor : Cursor memory
cursor = record {
  keys = λ d. ok (map (λ c. c.0) d);
  text_length = λ k. 200;
  prefix_length = λ a. 100;
}

abbrev two_coins : Store memory
two_coins = record {
  db =
      (addr_key 7 (point 0), blank)
      ∷ (addr_key 7 (point 1), blank)
      ∷ (utxo_key (point 0), utxo_value (utxo 0 30))
      ∷ (utxo_key (point 1), utxo_value (utxo 1 12))
      ∷ [];
  cache = [];
}

two_coins-IsCoherent : IsCoherent memory two_coins
unfolding lookup
two_coins-IsCoherent p u h = ground arith

abbrev two_keys : List Key
two_keys =
    addr_key 7 (point 0) ∷ addr_key 7 (point 1) ∷ utxo_key (point 0) ∷ utxo_key (point 1) ∷ []

get_balance-lookup_example :
    (m : Dict Text ℕ) × ((get_balance cursor 7 two_coins).0 ≡ ok m)
    × (or_zero (lookup (bytes "SHDW") m)
        ≡ sum_by (amount_in (bytes "SHDW")) (held_at (pick_map (addr_point 7) two_keys) two_coins)
          % u64_mod)
    × ((get_balance cursor 7 two_coins).1.db ≡ two_coins.db)
    × IsCoherent memory (get_balance cursor 7 two_coins).1
get_balance-lookup_example =
    get_balance-lookup cursor 7 (bytes "SHDW") two_coins two_keys two_coins-IsCoherent refl

abbrev entry : ℕ → Text → TxEntry
entry h id = record { place = h; tx_id = id }

-- three transactions of an address
abbrev history : Store memory
history = record {
  db =
      (addr_tx_key 7 5 (bytes "aa"), blank)
      ∷ (addr_tx_key 7 6 (bytes "bb"), blank)
      ∷ (addr_tx_key 7 7 (bytes "cc"), blank)
      ∷ [];
  cache = [];
}

behind_first :
    entries_behind (bytes "aa") (
      pick_map (addr_tx_entry 7) (
        addr_tx_key 7 5 (bytes "aa")
        ∷ addr_tx_key 7 6 (bytes "bb")
        ∷ addr_tx_key 7 7 (bytes "cc")
        ∷ []))
    ≡ some (entry 6 (bytes "bb") ∷ entry 7 (bytes "cc") ∷ [])
unfolding entries_behind addr_tx_entry text_beq
behind_first = refl

get_transactions_by_address-le_example :
    (ts : List Transaction) × ((get_transactions_by_address cursor 7 10 (bytes "aa") history).0
      ≡ ok ts)
    × (length ts ≤ 1)
get_transactions_by_address-le_example =
    get_transactions_by_address-le cursor 7 10 (bytes "aa") history
      (addr_tx_key 7 5 (bytes "aa")
        ∷ addr_tx_key 7 6 (bytes "bb")
        ∷ addr_tx_key 7 7 (bytes "cc")
        ∷ [])
      (entry 6 (bytes "bb")) (entry 7 (bytes "cc") ∷ []) refl refl behind_first
      ((refl, λ e. absurd (omega arith)), tt)

-- a payment of SHADOW from the purse, with a memo
abbrev payment : SendRequest
payment = record {
  to_address = [];
  amount = 3000;
  token = [];
  token_id = bytes "SHADOW";
  fee = 0;
  memo = bytes "rent";
}

abbrev payment_tx : Transaction
payment_tx = built (send_from toy_ext 5 purse payment 4 purse_utxos)

payment_built : send_from toy_ext 5 purse payment 4 purse_utxos ≡ ok payment_tx
unfolding send_from select_funds requested_token required_amount target_fee select_from
    estimated_fee with_memo check_memo sign_transaction sign_message tx_hash text_beq
payment_built = refl

send_from-Sends_example : Sends toy_ext purse purse_utxos payment 4 payment_tx
send_from-Sends_example =
    send_from-Sends toy_ext 5 purse payment 4 purse_utxos payment_tx (omega arith) (omega arith)
      payment_built
