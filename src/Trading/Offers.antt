-- ===== src/Trading/Offers.antt =====
-- lib/swap.go: the transactions that make, accept and cancel an offer. `CreateOfferTransaction` and its
-- like are here what they do with the outputs of the wallet's address; `json.Marshal` is an argument.
use shadowd.Common.{
  ℕ, ◌+◌, Bool, true, false, not, ◌&&◌, Option, none, some, List, [], length, leb, ltb, ◌==◌,
  nat_eq, if◌then◌else◌,
}
use shadowd.Common.Text.{Text, text_eq}
use shadowd.Common.Word.{add64, sub64}
use shadowd.Common.Result.{Result, ok, err, ◌>>=◌, ◌>>◌, fail_if}
use shadowd.Tx.{TxType, offer, accept_offer, cancel_offer, Transaction, Utxo}
use shadowd.Tx.External.{External}
use shadowd.Tx.Builder.{TxBuilder, new_tx_builder, add_output}
use shadowd.Process.World.{OfferData}
use shadowd.Trading.{
  NodeWallet, TradeError, few_shadow, not_an_offer, bad_offer, offer_expired, not_cancellable,
  trade_panic, some_or_trade, select, unspent_of, unspent_besides, estimated_fee, Selection,
  select_with_fee, add_inputs, add_change, finish_trade,
}

abbrev pub is_offer : TxType → Bool
is_offer offer = true
is_offer _ = false

-- the transaction that `GetTransaction` returned, its type and its data; where there is none the code
-- reads the type of a nil pointer
unfoldable pub read_offer :
    (Text → Option OfferData) → Option Transaction → Result TradeError OfferData
read_offer unmarshal none = err trade_panic
read_offer unmarshal (some t) = do
  fail_if (not (is_offer t.tx_type)) not_an_offer
  some_or_trade bad_offer (unmarshal t.payload)

-- the checks of `CreateAcceptOfferTransaction` and `CreateCancelOfferTransaction` before the outputs are read
unfoldable pub check_expiry : ℕ → OfferData → Result TradeError (Unit {0})
check_expiry height d = fail_if (ltb d.expires_at_block height) offer_expired

unfoldable pub check_cancel : NodeWallet → ℕ → OfferData → Result TradeError (Unit {0})
check_cancel w height d =
    fail_if (not (d.offer_address == w.address) && leb height d.expires_at_block) not_cancellable

module _ (ext : External) (now : ℕ) (w : NodeWallet) where
  -- the inputs and the change of `CreateOfferTransaction`
  abbrev pub offer_change : Text → ℕ → Selection → TxBuilder
  offer_change token amount s = add_change ext w.address (sub64 s.token_total amount) token (
      add_change ext w.address (sub64 s.shadow_total s.fee) ext.genesis_token_id
        (add_inputs s.shadow (add_inputs s.tokens (new_tx_builder offer now))))

  -- `CreateOfferTransaction`; the address of the data is the wallet's
  unfoldable pub create_offer :
      (OfferData → Option Text) → OfferData → List Utxo → Result TradeError Transaction
  create_offer marshal d us = do
    s ←
        select_with_fee 2 d.have_amount (unspent_of d.have_token_id us)
          (unspent_besides d.have_token_id ext.genesis_token_id us)
    finish_trade ext w (marshal (record d { offer_address = w.address }))
        (offer_change d.have_token_id d.have_amount s)

  -- the selection of `CreateAcceptOfferTransaction` where the offer wants SHADOW: first with the least
  -- fee, then a test with the fee for the outputs found
  unfoldable pub select_shadow : ℕ → List Utxo → Result TradeError Selection
  select_shadow amount shadows =
      let (ss, sum) = select (add64 amount 11500) shadows in
      let fee : ℕ = estimated_fee (length ss + 4) in
      (do
        fail_if (ltb sum (add64 amount fee)) few_shadow
        ok (record { tokens = []; token_total = 0; shadow = ss; shadow_total = sum; fee = fee }))

  abbrev pub wants_shadow : OfferData → Bool
  wants_shadow d = d.want_token_id == ext.genesis_token_id

  abbrev pub select_wanted : OfferData → List Utxo → Result TradeError Selection
  select_wanted d us =
      if wants_shadow d
      then select_shadow d.want_amount (unspent_of ext.genesis_token_id us)
      else select_with_fee 4 d.want_amount (unspent_besides ext.genesis_token_id d.want_token_id us)
          (unspent_of ext.genesis_token_id us)

  -- the outputs of `CreateAcceptOfferTransaction`
  unfoldable pub accept_change : OfferData → Selection → TxBuilder → TxBuilder
  accept_change d s b =
      if wants_shadow d
      then add_change ext w.address (sub64 (sub64 s.shadow_total d.want_amount) s.fee)
          ext.genesis_token_id b
      else add_change ext w.address (sub64 s.shadow_total s.fee) ext.genesis_token_id
          (add_change ext w.address (sub64 s.token_total d.want_amount) d.want_token_id b)

  abbrev pub accept_outputs : OfferData → Selection → TxBuilder
  accept_outputs d s = accept_change d s (
      add_output ext d.offer_address d.want_amount d.want_token_id (
        add_output ext w.address d.have_amount d.have_token_id
          (add_inputs s.shadow (add_inputs s.tokens (new_tx_builder accept_offer now)))))

  -- the rest of `CreateAcceptOfferTransaction`
  unfoldable pub accept_from :
      (Text → Option Text) → Text → OfferData → List Utxo → Result TradeError Transaction
  accept_from marshal id d us = do
    s ← select_wanted d us
    finish_trade ext w (marshal id) (accept_outputs d s)

  -- the outputs of `CreateCancelOfferTransaction`
  abbrev pub cancel_outputs : OfferData → List Utxo × ℕ → TxBuilder
  cancel_outputs d (ss, sum) = add_change ext w.address (sub64 sum 11500) ext.genesis_token_id (
      add_output ext d.offer_address d.have_amount d.have_token_id
        (add_inputs ss (new_tx_builder cancel_offer now)))

  -- the rest of `CreateCancelOfferTransaction`
  unfoldable pub cancel_from :
      (Text → Option Text) → Text → OfferData → List Utxo → Result TradeError Transaction
  cancel_from marshal id d us =
      let found : List Utxo × ℕ = select 11500 (unspent_of ext.genesis_token_id us) in
      (do
        fail_if (ltb found.1 11500) few_shadow
        finish_trade ext w (marshal id) (cancel_outputs d found))
