-- ===== src/Tests/Minting.antt =====
-- A melt of two outputs of a token in memory.
use shadowd.Common.{◌≡◌, refl, List, [], ◌∷◌}
use shadowd.Common.Text.{bytes, text_beq}
use shadowd.Common.Dict.{lookup}
use shadowd.Common.Result.{ok}
use shadowd.Tx.{melt, Utxo, Transaction, out_point_beq}
use shadowd.Tx.Builder.{new_tx_builder, add_input, set_data, build}
use shadowd.Utxo.Store.{Store, get_utxo}
use shadowd.Minting.{
  locked_output, token_inputs, unlocked, melt_outputs, melt_text, create_token_melt,
}
use shadowd.Minting.Context.{validate_token_melt}
use shadowd.Minting.Accepted.{Holds, validate_token_melt-created}
use shadowd.Tests.Fixtures.{toy_ext, memory, utxo, point}

abbrev coins : List Utxo
coins =
    record (utxo 0 0) { output = locked_output 7 40 (bytes "AB") 40 }
    ∷ record (utxo 1 0) { output = locked_output 7 60 (bytes "AB") 60 }
    ∷ []

abbrev coin_store : Store memory
coin_store = record {
  db = [];
  cache =
      (point 0, record (utxo 0 0) { output = locked_output 7 40 (bytes "AB") 40 })
      ∷ (point 1, record (utxo 1 0) { output = locked_output 7 60 (bytes "AB") 60 })
      ∷ [];
}

abbrev melted : Transaction
melted = build (
    set_data (melt_text (bytes "AB") 30) (
      melt_outputs toy_ext 9 7 (bytes "AB") 30 30 (record { tokens = 100; locked = 100 })
        (add_input (bytes "00112233445566778899") 1
          (add_input (bytes "00112233445566778899") 0 (new_tx_builder melt 5)))))

melted_once : create_token_melt toy_ext 5 coins 30 7 9 ≡ ok melted
unfolding create_token_melt token_inputs unlocked locked_output text_beq
melted_once = refl

coins-Holds : Holds coins coin_store
unfolding get_utxo lookup out_point_beq text_beq
coins-Holds = (refl, (refl, tt))

validate_token_melt-created_example :
    validate_token_melt toy_ext melted coin_store ≡ (ok tt, coin_store)
validate_token_melt-created_example =
    validate_token_melt-created toy_ext 5 coins 30 7 9 melted coin_store melted_once coins-Holds
