-- ===== src/Trading/Listing.antt =====
-- `isOfferConsumed` and `handleListOffers` of lib/p2p_node.go: the offers that are open, found by a scan of
-- the chain's blocks. The answer is the list of the entries that the handler encodes.
pub mod Unused
pub mod Open
use shadowd.Common.{
  ℕ, ◌+◌, Bool, true, false, not, ◌&&◌, Option, none, some, List, [], ◌∷◌, ◌++◌, any, length, ltb,
  ◌==◌, if◌then◌else◌,
}
use shadowd.Common.Text.{Text, text_eq}
use shadowd.Common.Result.{Result, ok, err}
use shadowd.Tx.{TxType, offer, accept_offer, cancel_offer, Transaction}
use shadowd.Utxo.Store.{StoreError}
use shadowd.Chain.{Block}
use shadowd.Process.World.{Codec, OfferData}

-- an entry of the answer: the offer's transaction, its data, and the height of its block
pub record ListedOffer : Type 0 where
  pub offer_tx_id : Text
  pub terms : OfferData
  pub block_height : ℕ

abbrev pub is_text : Text → Option Text → Bool
is_text id none = false
is_text id (some s) = s == id

-- whether a transaction accepts or cancels an offer; data that do not parse are passed over
unfoldable pub consumes : Codec → Text → Transaction → TxType → Bool
consumes codec id t accept_offer = is_text id (codec.accept_data t.payload)
consumes codec id t cancel_offer = is_text id (codec.cancel_data t.payload)
consumes codec id t _ = false

abbrev pub consumes_found : Codec → Text → Result StoreError (Option Transaction) → Bool
consumes_found codec id (ok (some t)) = consumes codec id t t.tx_type
consumes_found codec id _ = false

abbrev pub offer_terms : Codec → TxType → Text → Option OfferData
offer_terms codec offer payload = codec.offer_data payload
offer_terms codec _ payload = none

abbrev pub terms_found : Codec → Result StoreError (Option Transaction) → Option OfferData
terms_found codec (ok (some t)) = offer_terms codec t.tx_type t.payload
terms_found codec _ = none

-- `GetTransaction` of the store, and the blocks that `GetBlock` returns below the height
module _ (codec : Codec) (get : Text → Result StoreError (Option Transaction))
    (blocks : List Block) where
  -- `isOfferConsumed`
  unfoldable pub is_offer_consumed : Text → Bool
  is_offer_consumed id = any (λ b. any (λ s. consumes_found codec id (get s)) b.transactions) blocks

  abbrev pub list_if_open : Text → ℕ → Option OfferData → List ListedOffer
  list_if_open id height none = []
  list_if_open id height (some d) =
      if ltb d.expires_at_block (length blocks)
      then []
      else if is_offer_consumed id
      then []
      else record { offer_tx_id = id; terms = d; block_height = height } ∷ []

  -- the loop over the transactions of a block
  unfoldable pub offers_in : ℕ → List Text → List ListedOffer
  offers_in height [] = []
  offers_in height (id ∷ ids) =
      list_if_open id height (terms_found codec (get id)) ++ offers_in height ids

  -- the loop over the blocks from a height on
  unfoldable pub offers_from : ℕ → List Block → List ListedOffer
  offers_from height [] = []
  offers_from height (b ∷ bs) = offers_in height b.transactions ++ offers_from (height + 1) bs

  -- `handleListOffers`
  unfoldable pub list_offers : List ListedOffer
  list_offers = offers_from 0 blocks
