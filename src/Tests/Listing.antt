-- ===== src/Tests/Listing.antt =====
-- The list of the offers of a chain of three blocks, of which one offer is accepted and one expired.
use mathlib.Core.List.{Memᴰ}
use shadowd.Common.{ℕ, ◌≡◌, ◌↔◌, refl, none, some, Option, List, [], ◌∷◌}
use shadowd.Common.Text.{Text, bytes, text_beq}
use shadowd.Common.Result.{Result, ok}
use shadowd.Tx.{TxType, offer, accept_offer, Transaction}
use shadowd.Utxo.Store.{StoreError}
use shadowd.Chain.{Block}
use shadowd.Process.World.{Codec, OfferData}
use shadowd.Trading.Listing.{
  ListedOffer, is_offer_consumed, offers_in, offers_from, list_offers, consumes,
}
use shadowd.Trading.Listing.Open.{IsOpen, list_offers_iff}
use shadowd.Tests.Fixtures.{transfer}
use shadowd.Tests.Process.{toy_codec}
use shadowd.Tests.Chain.{block}
use shadowd.Tests.Trading.{sale}
use shadowd.Common.Dict.{Dict, lookup}
use shadowd.Common.Text.{text_eq}

abbrev terms_until : ℕ → OfferData
terms_until n = record sale { expires_at_block = n }

-- the data of an offer is the height of its end, and that of an accept the offer's identifier
abbrev offer_codec : Codec
offer_codec = record toy_codec {
  offer_data = λ text. elim text [ [] ↦ none | n ∷ more ↦ some (terms_until n) ];
  accept_data = some;
}

abbrev trade_tx : TxType → Text → Transaction
trade_tx kind text = record (transfer 0 0) { tx_type = kind; payload = text }

-- "A" and "B" are offers, "C" accepts "A", "D" is an offer that has ended
abbrev trades : Dict Text Transaction
trades =
    (bytes "A", trade_tx offer (9 ∷ []))
    ∷ (bytes "B", trade_tx offer (3 ∷ []))
    ∷ (bytes "C", trade_tx accept_offer (bytes "A"))
    ∷ (bytes "D", trade_tx offer (2 ∷ []))
    ∷ []

abbrev stored_trade : Text → Result StoreError (Option Transaction)
stored_trade id = ok (lookup id trades)

abbrev trade_blocks : List Block
trade_blocks =
    block 0 []
    ∷ record (block 1 []) { transactions = bytes "A" ∷ bytes "D" ∷ [] }
    ∷ record (block 2 []) { transactions = bytes "B" ∷ bytes "C" ∷ bytes "E" ∷ [] }
    ∷ []

abbrev open_entry : ListedOffer
open_entry = record { offer_tx_id = bytes "B"; terms = terms_until 3; block_height = 2 }

one_open : list_offers offer_codec stored_trade trade_blocks ≡ open_entry ∷ []
unfolding list_offers offers_from offers_in is_offer_consumed consumes text_beq lookup
one_open = refl

list_offers_iff_example :
    Memᴰ open_entry (list_offers offer_codec stored_trade trade_blocks)
    ↔ IsOpen offer_codec stored_trade trade_blocks open_entry
list_offers_iff_example = list_offers_iff offer_codec stored_trade trade_blocks open_entry
