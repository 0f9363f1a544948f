-- ===== src/Builders/Wallet.antt =====
-- The methods of lib/wallet.go that create and sign a transaction.
use shadowd.Common.{ℕ, Option, none, some, List}
use shadowd.Common.Text.{Text, bytes}
use shadowd.Common.Result.{Result, ok, err, ◌>>=◌}
use shadowd.Tx.{Address, send, Transaction, Utxo}
use shadowd.Tx.External.{External}
use shadowd.Tx.Builder.{
  TxBuilder, BuildError, new_tx_builder, add_output, set_data, build, create_simple_send,
}
use shadowd.Trading.{NodeWallet, TradeError, sign_transaction}
use shadowd.Builders.{create_coinbase, create_mint_token}

pub data WalletError : Type 0 where
  not_created : BuildError → WalletError
  not_signed : TradeError → WalletError

abbrev pub or_not_signed : Result TradeError Transaction → Result WalletError Transaction
or_not_signed (ok t) = ok t
or_not_signed (err e) = err (not_signed e)

abbrev pub or_not_created : Result BuildError Transaction → Result WalletError Transaction
or_not_created (ok t) = ok t
or_not_created (err e) = err (not_created e)

abbrev pub set_data_if : Option Text → TxBuilder → TxBuilder
set_data_if none b = b
set_data_if (some text) b = set_data text b

module _ (ext : External) (now : ℕ) (w : NodeWallet) where
  -- `CreateTransaction`: a send without inputs; a nil slice of data is none
  unfoldable pub create_transaction : Address → ℕ → ℕ → ℕ → Option Text → Transaction
  create_transaction to n fee nonce text =
      record (build
        (set_data_if text (add_output ext to n (bytes "SHADOW") (new_tx_builder send now)))) {
          from_address = some w.address;
          to_address = some to;
          amount = some n;
          fee = some fee;
          nonce = some nonce;
        }

  -- `CreateAndSignTransaction`
  unfoldable pub create_and_sign :
      Address → ℕ → ℕ → ℕ → Option Text → Result WalletError Transaction
  create_and_sign to n fee nonce text =
      or_not_signed (sign_transaction ext w (create_transaction to n fee nonce text))

  -- `CreateAndSignCoinbaseTransaction`
  unfoldable pub create_and_sign_coinbase : ℕ → ℕ → Result WalletError Transaction
  create_and_sign_coinbase height reward =
      or_not_signed (sign_transaction ext w (create_coinbase ext now w.address height reward))

  -- `CreateAndSignSendTransaction`
  unfoldable pub create_and_sign_send : List Utxo → Address → ℕ → Result WalletError Transaction
  create_and_sign_send us to n = do
    t ← or_not_created (create_simple_send ext now us to n w.address)
    or_not_signed (sign_transaction ext w t)

  -- `CreateAndSignMintTokenTransaction`
  unfoldable pub create_and_sign_mint :
      Text → Text → ℕ → Address → Text → Result WalletError Transaction
  create_and_sign_mint id kind n to metadata =
      or_not_signed (sign_transaction ext w (create_mint_token now id kind n to metadata))
