-- ===== src/Tests/Builders.antt =====
-- A batch send and a partial melt that are built.
use shadowd.Common.{ℕ, ◌+◌, ◌≡◌, refl, List, [], ◌∷◌, All, map, length, sum_by, arith}
use shadowd.Common.Text.{Text, bytes, text_beq, text_eq}
use shadowd.Common.Result.{ok}
use shadowd.Common.Word.{sum64}
use shadowd.Tx.{send, TxOutput, Transaction, Utxo}
use shadowd.Tx.Outputs.{tx_fee}
use shadowd.Tx.Builder.Balance.{held, paid, spending}
use shadowd.Builders.{
  SendRecipient, create_batch_send, batch_inputs, batch_fee, batch_outputs, create_partial_melt,
  melt_from,
}
use shadowd.Builders.Balance.{shadow_ones, create_batch_send-balance}
use shadowd.Builders.Melts.{InToken, create_partial_melt-balance}
use shadowd.Tests.Fixtures.{toy_ext, utxo}
use shadowd.Tests.Trading.{built, coin}

-- the output of a token, with the text SHADOW for its token
abbrev shadow_coin : ℕ → ℕ → Utxo
shadow_coin i n = record (utxo i n) {
  output = record ((utxo i n).output) { token_id = bytes "SHADOW" };
}

abbrev funds : List Utxo
funds = shadow_coin 0 4000 ∷ coin 1 70 ∷ shadow_coin 2 9000 ∷ []

abbrev payees : List SendRecipient
payees = record { address = 3; amount = 2500 } ∷ record { address = 4; amount = 1500 } ∷ []

abbrev batch : Transaction
batch = built (create_batch_send toy_ext 5 funds payees 7)

batch_sent : create_batch_send toy_ext 5 funds payees 7 ≡ ok batch
unfolding create_batch_send batch_inputs batch_fee batch_outputs tx_fee text_beq sum64
batch_sent = refl

create_batch_send-balance_example :
    (batch.inputs ≡ map spending (shadow_ones funds))
    × (sum_by held (shadow_ones funds)
        ≡ sum_by paid batch.outputs + tx_fee send (length batch.inputs) (length payees + 1) 0)
create_batch_send-balance_example =
    create_batch_send-balance toy_ext 5 funds payees 7 (omega arith) (omega arith) batch_sent

abbrev melted_coins : List Utxo
melted_coins = coin 0 40 ∷ coin 2 60 ∷ []

abbrev part : Transaction
part = built (create_partial_melt 5 melted_coins 70 7 (bytes "old"))

part_melted : create_partial_melt 5 melted_coins 70 7 (bytes "old") ≡ ok part
unfolding create_partial_melt melt_from text_beq
part_melted = refl

create_partial_melt-balance_example :
    (part.inputs ≡ map spending melted_coins)
    × (sum_by held melted_coins ≡ sum_by paid part.outputs + 70)
    × ((token : Text) × All (λ (u : Utxo). InToken token u.output.token_id) melted_coins
        × All (λ (o : TxOutput). o.token_id ≡ token) part.outputs)
create_partial_melt-balance_example =
    create_partial_melt-balance 5 melted_coins 70 7 (bytes "old") (omega arith) part_melted
