-- ===== src/Process/Dispatch.antt =====
-- `ProcessTokenTransaction`: the switch on the transaction's type, with both registries present.
use shadowd.Common.{ℕ}
use shadowd.Common.Text.{Text}
use shadowd.Common.State.{pure, gets, ◌>>=◌}
use shadowd.Tx.{
  TxType, mint_token, melt, offer, accept_offer, cancel_offer, create_pool, add_liquidity,
  remove_liquidity, swap,
}
use shadowd.Tx.External.{tx_id_or_empty}
use shadowd.Process.World.{Env, Step, slice}
use shadowd.Process.Tokens.{process_mint, process_melt}
use shadowd.Process.Offers.{process_accept_offer, process_cancel_offer}
use shadowd.Process.Pools.{
  process_create_pool, process_add_liquidity, process_remove_liquidity, process_swap,
}

module _ {env : Env} where
  unfoldable pub process_as : TxType → Text → ℕ → Step env (Unit {0})
  process_as mint_token id height = process_mint id
  process_as melt id height = process_melt id
  process_as offer id height = slice 16 id
  process_as accept_offer id height = process_accept_offer id
  process_as cancel_offer id height = process_cancel_offer id
  process_as create_pool id height = process_create_pool id height
  process_as add_liquidity id height = process_add_liquidity id
  process_as remove_liquidity id height = process_remove_liquidity id
  process_as swap id height = process_swap id
  process_as _ id height = pure tt

  unfoldable pub process_token_transaction : ℕ → Step env (Unit {0})
  process_token_transaction height = do
    t ← gets (λ w. w.tx)
    process_as t.tx_type (tx_id_or_empty env.ext t) height
