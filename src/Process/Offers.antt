-- ===== src/Process/Offers.antt =====
-- The offer cases of `ProcessTokenTransaction`.
use shadowd.Common.{Option, none, some, List, [], ◌∷◌, ◌==◌, if◌then◌else◌}
use shadowd.Common.Text.{Text, text_eq}
use shadowd.Common.State.{pure, gets, ◌>>=◌, ◌>>◌}
use shadowd.Common.Result.{Result, ok, err}
use shadowd.Tx.{TxInput, Transaction, Utxo, OutPoint, input_point}
use shadowd.Utxo.Store.{StoreError, spend_utxo, get_transaction}
use shadowd.Process.World.{
  Env, Step, panic, bad_data, store_error, slice, or_raise, try_get, try_store,
}

module _ {env : Env} where
  abbrev spend_if_token : Text → OutPoint → Option Utxo → Step env (Unit {0})
  spend_if_token id p none = pure tt
  spend_if_token id p (some u) =
      if u.output.token_id == id then try_store (spend_utxo env.kv p) else pure tt

  -- the loop that spends the offer's locked outputs; a failure is only logged
  unfoldable pub consume_offer : Text → List TxInput → Step env (Unit {0})
  consume_offer id [] = pure tt
  consume_offer id (i ∷ is) = do
    found ← try_get (input_point i)
    spend_if_token id (input_point i) found
    consume_offer id is

  -- The transaction of an offer; a missing one is a nil pointer, which the next line reads.
  abbrev found_offer : Result StoreError (Option Transaction) → Step env Transaction
  found_offer (err e) w = (err (store_error e), w)
  found_offer (ok none) w = (err panic, w)
  found_offer (ok (some t)) w = (ok t, w)

  unfoldable pub load_offer : Text → Step env Transaction
  load_offer id w = found_offer (get_transaction env.kv id w.store) w

  -- `case TxTypeAcceptOffer`
  unfoldable pub process_accept_offer : Text → Step env (Unit {0})
  process_accept_offer id = do
    slice 16 id
    t ← gets (λ w. w.tx)
    offer_id ← or_raise (env.codec.accept_data t.payload) bad_data
    offer_tx ← load_offer offer_id
    offer ← or_raise (env.codec.offer_data offer_tx.payload) bad_data
    consume_offer offer.have_token_id offer_tx.inputs
    slice 16 offer_id
    slice 8 offer.have_token_id
    slice 8 offer.want_token_id

  -- `case TxTypeCancelOffer`
  unfoldable pub process_cancel_offer : Text → Step env (Unit {0})
  process_cancel_offer id = do
    slice 16 id
    t ← gets (λ w. w.tx)
    offer_id ← or_raise (env.codec.cancel_data t.payload) bad_data
    offer_tx ← load_offer offer_id
    offer ← or_raise (env.codec.offer_data offer_tx.payload) bad_data
    consume_offer offer.have_token_id offer_tx.inputs
    slice 16 offer_id
