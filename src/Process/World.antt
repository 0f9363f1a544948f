-- ===== src/Process/World.antt =====
-- What `ProcessTokenTransaction` works on: the store, the two registries and the transaction, all of
-- them shared with the caller, so that every change stays when an error is returned.
use shadowd.Common.{ℕ, Bool, Option, none, some, length, ltb, nat_eq}
use shadowd.Common.Text.{Text}
use shadowd.Common.Result.{Result, ok, err}
use shadowd.Common.State.{Action, raise_if}
use shadowd.Tx.{Address, Transaction, Utxo, OutPoint}
use shadowd.Tx.External.{External}
use shadowd.Token.{TokenError}
use shadowd.Token.Registry.{Registry}
use shadowd.Pool.{
  Float64, PoolError, CreatePoolData, AddLiquidityData, RemoveLiquidityData, SwapData,
}
use shadowd.Pool.Registry.{Pools}
use shadowd.Utxo.Database.{Database}
use shadowd.Utxo.Store.{Store, StoreError, Op, get_utxo}

-- `TokenMintData` of lib/token_transactions.go
pub record TokenMintData : Type 0 where
  pub ticker : Text
  pub desc : Text
  pub max_mint : ℕ
  pub max_decimals : ℕ
  pub mint_version : ℕ

-- `OfferData` of lib/swap.go
pub record OfferData : Type 0 where
  pub have_token_id : Text
  pub want_token_id : Text
  pub have_amount : ℕ
  pub want_amount : ℕ
  pub expires_at_block : ℕ
  pub offer_address : Address

-- `json.Unmarshal` of a transaction's data; the accept and cancel data are the offer's identifier.
pub record Codec : Type 0 where
  pub mint_data : Text → Option TokenMintData
  pub offer_data : Text → Option OfferData
  pub accept_data : Text → Option Text
  pub cancel_data : Text → Option Text
  pub pool_data : Text → Option CreatePoolData
  pub add_data : Text → Option AddLiquidityData
  pub remove_data : Text → Option RemoveLiquidityData
  pub swap_data : Text → Option SwapData

-- Everything outside the repository, and the clock's reading for the call.
pub record Env : Type 1 where
  pub kv : Database
  pub ext : External
  pub float : Float64
  pub codec : Codec
  pub now : ℕ

-- `panic` is a run-time panic: a slice out of range, a division by zero or a nil dereference.
pub data ProcessError : Type 0 where
  panic bad_data no_token_a no_token_b zero_lp_tokens no_pool slippage no_lp_token : ProcessError
  no_provider not_in_pool : ProcessError
  token_error : TokenError → ProcessError
  pool_error : PoolError → ProcessError
  store_error : StoreError → ProcessError

pub record World (env : Env) : Type 0 where
  pub store : Store env.kv
  pub tokens : Registry
  pub pools : Pools
  pub tx : Transaction

abbrev pub Step : Env → Type 0 → Type 0
Step env A = Action (World env) ProcessError A

abbrev wrap_store : {A : Type 0} → Result StoreError A → Result ProcessError A
wrap_store (ok a) = ok a
wrap_store (err e) = err (store_error e)

abbrev optional : {A : Type 0} → Result StoreError (Option A) → Option A
optional (ok o) = o
optional (err e) = none

module _ {env : Env} where
  abbrev pub panic_if : Bool → Step env (Unit {0})
  panic_if b = raise_if b panic

  -- `s[:n]`
  abbrev pub slice : ℕ → Text → Step env (Unit {0})
  slice n s = panic_if (ltb (length s) n)

  abbrev pub or_raise : {A : Type 0} → Option A → ProcessError → Step env A
  or_raise none e w = (err e, w)
  or_raise (some a) e w = (ok a, w)

  -- an operation of the store, its error passed on
  abbrev pub on_store : {A : Type 0} → Op env.kv A → Step env A
  on_store op w = let (r, s) = op w.store in (wrap_store r, record w { store = s })

  -- an operation of the store, its error dropped
  abbrev pub try_store : Op env.kv (Unit {0}) → Step env (Unit {0})
  try_store op w = (ok tt, record w { store = (op w.store).1 })

  -- `utxo, err := store.GetUTXO(…)` followed by `err == nil && utxo != nil`
  abbrev pub try_get : OutPoint → Step env (Option Utxo)
  try_get p w = let (r, s) = get_utxo env.kv p w.store in (ok (optional r), record w { store = s })

  -- an operation of the token registry, or of the pool registry
  abbrev pub on_tokens : (Registry → Result TokenError Registry) → Step env (Unit {0})
  on_tokens op w = elim (op w.tokens) [
    | ok reg ↦ (ok tt, record w { tokens = reg })
    | err e ↦ (err (token_error e), w)
  ]

  abbrev pub on_pools : (Pools → Result PoolError Pools) → Step env (Unit {0})
  on_pools op w = elim (op w.pools) [
    | ok ps ↦ (ok tt, record w { pools = ps })
    | err e ↦ (err (pool_error e), w)
  ]
