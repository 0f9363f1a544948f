-- ===== src/Trading/Send.antt =====
-- `handleSendTransaction` of lib/p2p_node.go on a decoded request: the transaction that it builds from the
-- outputs of the wallet's address, and its way into the mempool.
pub mod Sends
use shadowd.Common.{
  ℕ, ◌+◌, ◌*◌, Bool, true, false, not, Option, none, some, List, [], ◌∷◌, any, length, is_empty,
  leb, ltb, ◌==◌, ◌||◌, nat_eq, if◌then◌else◌,
}
use shadowd.Common.Text.{Text, bytes, text_eq}
use shadowd.Common.Word.{add64, sub64}
use shadowd.Common.Result.{Result, ok, err, ◌>>=◌, ◌>>◌, fail_if}
use shadowd.Tx.{Address, send, Transaction, Utxo}
use shadowd.Tx.External.{External}
use shadowd.Tx.Builder.{TxBuilder, new_tx_builder, add_output, build}
use shadowd.Addresses.{parse_address}
use shadowd.Utxo.Database.{Database}
use shadowd.Utxo.Store.{Store}
use shadowd.Utxo.Scan.{Cursor}
use shadowd.Mempool.{Mempool, add_transaction}
use shadowd.Trading.{
  NodeWallet, TradeError, few_tokens, few_shadow, trade_panic, bad_address, bad_memo, refused,
  select, unspent_of, unspent_besides, estimated_fee, add_inputs, add_change, sign_transaction,
}
use shadowd.Trading.Stored.{wallet_utxos}

-- the request; an absent field is empty or zero
pub record SendRequest : Type 0 where
  pub to_address : Text
  pub amount : ℕ
  pub token : Text
  pub token_id : Text
  pub fee : ℕ
  pub memo : Text

-- an address of 32 bytes as its number
unfoldable pub address_number : ℕ → Text → Address
address_number n [] = n
address_number n (b ∷ bs) = address_number (n * 256 + b) bs

unfoldable pub recipient : External → SendRequest → Result TradeError Address
recipient ext r = elim (parse_address ext.blake2b r.to_address) [
  | ok (bs, _) ↦ ok (address_number 0 bs)
  | err _ ↦ err bad_address
]

-- the token of the request: `token_id`, or the older `token`, or SHADOW
unfoldable pub requested_token : External → SendRequest → Text
requested_token ext r =
    let id : Text = if is_empty r.token_id then r.token else r.token_id in
    if is_empty id || (id == bytes "SHADOW") then ext.genesis_token_id else id

-- the fee of the request, or that for a number of inputs
unfoldable pub target_fee : SendRequest → ℕ → ℕ
target_fee r n = if ltb 0 r.fee then r.fee else estimated_fee n

-- the outputs chosen, their totals, and the fee
pub record SendFunds : Type 0 where
  pub tokens : List Utxo
  pub token_total : ℕ
  pub shadow : List Utxo
  pub shadow_total : ℕ
  pub fee : ℕ

-- the check of the memo, in bytes: one above 127 belongs to a character above 127 or to none
unfoldable pub check_memo : Text → Result TradeError (Unit {0})
check_memo memo = do
  fail_if (ltb 64 (length memo)) bad_memo
  fail_if (any (λ c. ltb 127 c) memo) bad_memo

module _ (ext : External) where
  abbrev pub sends_shadow : Text → Bool
  sends_shadow token = token == ext.genesis_token_id

  -- what the first selection has to cover
  unfoldable pub required_amount : SendRequest → Text → ℕ
  required_amount r token =
      if sends_shadow token then add64 r.amount (if r.fee == 0 then 11500 else r.fee) else r.amount

  -- the selection of the outputs; the error for too little slices the token's identifier
  unfoldable pub select_funds : SendRequest → Text → List Utxo → Result TradeError SendFunds
  select_funds r token us =
      let (ts, total) = select (required_amount r token) (unspent_of token us) in
      let own : ℕ = target_fee r (length ts) in
      let apart : ℕ = target_fee r (length ts + 2) in
      let (ss, sum) = select apart (unspent_besides token ext.genesis_token_id us) in
      (do
        fail_if (ltb total r.amount) (if ltb (length token) 16 then trade_panic else few_tokens)
        if sends_shadow token
            then (do
              fail_if (ltb total (add64 r.amount own)) few_tokens
              ok (record {
                tokens = ts;
                token_total = total;
                shadow = [];
                shadow_total = 0;
                fee = own;
              }))
            else (do
              fail_if (ltb sum apart) few_shadow
              ok (record {
                tokens = ts;
                token_total = total;
                shadow = ss;
                shadow_total = sum;
                fee = apart;
              })))

  -- the change: of SHADOW less the fee, or of the token and of SHADOW
  unfoldable pub send_change : SendRequest → Address → Text → SendFunds → TxBuilder → TxBuilder
  send_change r back token f b =
      if sends_shadow token
      then add_change ext back (sub64 (sub64 f.token_total r.amount) f.fee) token b
      else add_change ext back (sub64 f.shadow_total f.fee) ext.genesis_token_id
          (add_change ext back (sub64 f.token_total r.amount) token b)

  module _ (now : ℕ) (w : NodeWallet) where
    -- the transaction before its memo
    abbrev pub unsigned_send : SendRequest → Address → Text → SendFunds → Transaction
    unsigned_send r to token f = build (
        send_change r w.address token f (
          add_output ext to r.amount token
            (add_inputs f.shadow (add_inputs f.tokens (new_tx_builder send now)))))

    -- the memo, checked where there is one
    unfoldable pub with_memo : Text → Transaction → Result TradeError Transaction
    with_memo [] t = ok t
    with_memo (c ∷ cs) t = do check_memo (c ∷ cs); ok (record t { payload = c ∷ cs })

    -- from the outputs of the address to the signed transaction
    unfoldable pub send_from : SendRequest → Address → List Utxo → Result TradeError Transaction
    send_from r to us = do
      f ← select_funds r (requested_token ext r) us
      t ← with_memo r.memo (unsigned_send r to (requested_token ext r) f)
      sign_transaction ext w t

    abbrev pub submit :
        {S : Type 0}
        → Bool
        → ℕ
        → Mempool
        → S
        → Result TradeError Transaction
        → Result TradeError Transaction × S × Mempool
    submit published time mp s (err e) = (err e, s, mp)
    submit published time mp s (ok t) =
        let (r, mp') = add_transaction ext published time t mp in
        (elim r [ ok _ ↦ ok t | err _ ↦ err refused ], s, mp')

    module _ {kv : Database} (cursor : Cursor kv) where
      -- `handleSendTransaction`: the transaction of the reply or the error, with the store and the mempool; the
      -- time of the entry in the mempool is its own reading of the clock
      unfoldable pub send_transaction :
          Bool
          → ℕ
          → SendRequest
          → Store kv
          → Mempool
          → Result TradeError Transaction × Store kv × Mempool
      send_transaction published time r s mp = elim (recipient ext r) [
        | err e ↦ (err e, s, mp)
        | ok to ↦
            let (found, s') = wallet_utxos cursor w s in
            submit published time mp s' (do us ← found; send_from r to us)
      ]
