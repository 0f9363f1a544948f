-- ===== src/Tests/Tx.antt =====
-- Validation of a sample transaction, and a simple send that is built.
use shadowd.Common.{◌≡◌, ◌↔◌, List, [], ◌∷◌}
use shadowd.Common.Text.{bytes, text_eq}
use shadowd.Common.Result.{ok}
use shadowd.Tx.{send, Transaction, Utxo}
use shadowd.Tx.Validate.{validate_transaction}
use shadowd.Tx.Validate.Accepts.{Accepts, validate_transaction_iff}
use shadowd.Tx.Builder.{add_input, new_tx_builder, build, pay_and_change}
use shadowd.Tests.Fixtures.{toy_ext, transfer, utxo}

validate_transaction_iff_example :
    (validate_transaction toy_ext (transfer 0 5) ≡ ok tt) ↔ Accepts toy_ext send (transfer 0 5)
validate_transaction_iff_example = validate_transaction_iff toy_ext (transfer 0 5)

-- two offered outputs, of which one is enough
abbrev offered : List Utxo
offered = utxo 0 4000 ∷ utxo 1 9000 ∷ []

abbrev sent : Transaction
sent = build (
    pay_and_change toy_ext 3 1500 7 (bytes "SHDW") 4000 2000
      (add_input (bytes "00112233445566778899") 0 (new_tx_builder send 5)))
