-- ===== src/Trading/Stored.antt =====
-- The builders of lib/swap.go and lib/liquidity_tx.go whole: they read the offer or the pool, the outputs
-- of the wallet's address from the store, and build and sign the transaction.
use shadowd.Common.{ℕ, Option, List}
use shadowd.Common.Text.{Text}
use shadowd.Common.Result.{Result, ok, err}
use shadowd.Common.State.{Action, lift, ◌>>=◌, ◌>>◌}
use shadowd.Tx.{Transaction, Utxo}
use shadowd.Tx.External.{External}
use shadowd.Pool.{LiquidityPool, CreatePoolData, AddLiquidityData, RemoveLiquidityData, SwapData}
use shadowd.Pool.Registry.{Pools, get_pool}
use shadowd.Process.World.{OfferData}
use shadowd.Utxo.Database.{Database}
use shadowd.Utxo.Store.{Store, StoreError, get_transaction}
use shadowd.Utxo.Scan.{Cursor, get_utxos_by_address}
use shadowd.Trading.{NodeWallet, TradeError, pool_missing, lookup_error, some_or_trade}
use shadowd.Trading.Offers.{
  read_offer, create_offer, check_expiry, accept_from, check_cancel, cancel_from,
}
use shadowd.Trading.Liquidity.{
  check_pool, create_pool_from, check_ratio, add_liquidity_from, remove_liquidity_from, check_swap,
  swap_from,
}

-- `json.Marshal` and `json.Unmarshal` of the data of these transactions
pub record TradeCodec : Type 0 where
  pub marshal_offer : OfferData → Option Text
  pub unmarshal_offer : Text → Option OfferData
  pub marshal_id : Text → Option Text
  pub marshal_pool : CreatePoolData → Option Text
  pub marshal_add : AddLiquidityData → Option Text
  pub marshal_remove : RemoveLiquidityData → Option Text
  pub marshal_swap : SwapData → Option Text

abbrev pub or_lookup_error {κ} : {A : Type κ} → Result StoreError A → Result TradeError A
or_lookup_error (ok a) = ok a
or_lookup_error (err e) = err (lookup_error e)

-- `GetUTXOsByAddress` of the wallet's address
abbrev pub wallet_utxos :
    {kv : Database} → Cursor kv → NodeWallet → Action (Store kv) TradeError (List Utxo)
wallet_utxos cursor w s =
    let (r, s') = get_utxos_by_address cursor w.address s in (or_lookup_error r, s')

module _ {kv : Database} (cursor : Cursor kv) (codec : TradeCodec) (ext : External) (now : ℕ)
    (w : NodeWallet) where
  abbrev pub Build : Type 0
  Build = Action (Store kv) TradeError Transaction

  -- `GetTransaction` of an offer
  abbrev pub fetch_offer : Text → Action (Store kv) TradeError OfferData
  fetch_offer id s =
      (do
        t ← lift (or_lookup_error (get_transaction kv id s))
        lift (read_offer codec.unmarshal_offer t))
        s

  abbrev pub pool_of : Text → Pools → Action (Store kv) TradeError LiquidityPool
  pool_of id pools = lift (some_or_trade pool_missing (get_pool id pools))

  -- `CreateOfferTransaction`
  unfoldable pub create_offer_tx : OfferData → Build
  create_offer_tx d = do
    us ← wallet_utxos cursor w
    lift (create_offer ext now w codec.marshal_offer d us)

  -- `CreateAcceptOfferTransaction`
  unfoldable pub accept_offer_tx : Text → ℕ → Build
  accept_offer_tx id height = do
    d ← fetch_offer id
    lift (check_expiry height d)
    us ← wallet_utxos cursor w
    lift (accept_from ext now w codec.marshal_id id d us)

  -- `CreateCancelOfferTransaction`
  unfoldable pub cancel_offer_tx : Text → ℕ → Build
  cancel_offer_tx id height = do
    d ← fetch_offer id
    lift (check_cancel w height d)
    us ← wallet_utxos cursor w
    lift (cancel_from ext now w codec.marshal_id id d us)

  -- `CreatePoolTransaction`
  unfoldable pub create_pool_tx : CreatePoolData → Build
  create_pool_tx d = do
    lift (check_pool ext now w d)
    us ← wallet_utxos cursor w
    lift (create_pool_from ext now w codec.marshal_pool d us)

  -- `CreateAddLiquidityTransaction`
  unfoldable pub add_liquidity_tx : AddLiquidityData → Pools → Build
  add_liquidity_tx d pools = do
    p ← pool_of d.pool_id pools
    lift (check_ratio ext now w d p)
    us ← wallet_utxos cursor w
    lift (add_liquidity_from ext now w codec.marshal_add d p us)

  -- `CreateRemoveLiquidityTransaction`
  unfoldable pub remove_liquidity_tx : RemoveLiquidityData → Pools → Build
  remove_liquidity_tx d pools = do
    p ← pool_of d.pool_id pools
    us ← wallet_utxos cursor w
    lift (remove_liquidity_from ext now w codec.marshal_remove d p us)

  -- `CreateSwapTransaction`
  unfoldable pub create_swap_tx : SwapData → Pools → Build
  create_swap_tx d pools = do
    p ← pool_of d.pool_id pools
    lift (check_swap ext now w d p)
    us ← wallet_utxos cursor w
    lift (swap_from ext now w codec.marshal_swap d us)
