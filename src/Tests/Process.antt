-- ===== src/Tests/Process.antt =====
-- A swap in a sample world.
use shadowd.Common.{ℕ, ◌≤◌, ◌≡◌, refl, [], ◌∷◌, some, none, arith, if◌then◌else◌, ◌==◌}
use shadowd.Common.Text.{Text, bytes, text_beq, text_eq}
use shadowd.Common.Dict.{lookup, insert}
use shadowd.Common.Result.{ok}
use shadowd.Tx.{Address, swap, utxo_point, out_point_beq}
use shadowd.Tx.Outputs.{token_output, p2pkh_script}
use shadowd.Pool.{Float64, LiquidityPool, SwapData}
use shadowd.Pool.Registry.{update_pool}
use shadowd.Pool.Trade.{swap_amount_out, swap_sides, swapped, swap_a_for_b}
use shadowd.Utxo.Database.{key_beq}
use shadowd.Utxo.Store.{put, add_utxo}
use shadowd.Utxo.Store.Coherent.{IsCoherent, Writes}
use shadowd.Process.World.{Codec, Env, World}
use shadowd.Process.Pools.{provider, process_swap, settle_swap}
use shadowd.Process.Pools.Swap.{payment, process_swap-pays}
use shadowd.Tests.Fixtures.{toy_ext, memory, transfer, shadow_out}

abbrev pub toy_float : Float64
toy_float = record { F = ℕ; of_u64 = λ n. n; mul = λ a b. a; sqrt = λ a. a; to_u64 = λ a. a }

abbrev pub order : SwapData
order = record {
  pool_id = bytes "pool-0123456789ab";
  token_in = bytes "token-aa";
  amount_in = 100;
  min_amount_out = 300;
}

abbrev pub toy_codec : Codec
toy_codec = record {
  mint_data = λ s. none;
  offer_data = λ s. none;
  accept_data = λ s. none;
  cancel_data = λ s. none;
  pool_data = λ s. none;
  add_data = λ s. none;
  remove_data = λ s. none;
  swap_data = λ s. if s == bytes "pay" then some order else none;
}

abbrev pub toy_env : Env
toy_env = record { kv = memory; ext = toy_ext; float = toy_float; codec = toy_codec; now = 50 }

abbrev pool : LiquidityPool
pool = record {
  pool_id = bytes "pool-0123456789ab";
  token_a = bytes "token-aa";
  token_b = bytes "token-bb";
  reserve_a = 1000;
  reserve_b = 4000;
  lp_token_id = bytes "pool-0123456789ab";
  lp_token_supply = 2000;
  fee_percent = 30;
  k = 4000000;
  created_at = 1;
}

abbrev world : World toy_env
world = record {
  store = record { db = []; cache = [] };
  tokens = [];
  pools = (bytes "pool-0123456789ab", pool) ∷ [];
  tx = record (transfer 0 5) { tx_type = swap };
}

abbrev swap_id : Text
swap_id = bytes "0123456789abcdef"

world-IsCoherent : IsCoherent memory world.store
unfolding lookup
world-IsCoherent p u h = ground arith

world_filed : (k : Text) (p : LiquidityPool) → lookup k world.pools ≡ some p → p.pool_id ≡ k
unfolding lookup
world_filed k p h = ground (arith, text_eq.beq_iff (bytes "pool-0123456789ab") k)

swap_succeeds : (process_swap {env = toy_env} swap_id world).0 ≡ ok tt
unfolding process_swap settle_swap update_pool swap_sides swap_amount_out swapped swap_a_for_b
    add_utxo put lookup insert key_beq out_point_beq text_beq token_output p2pkh_script
swap_succeeds = refl

process_swap-pays_example :
    (d : SwapData) × (p : LiquidityPool) × (token : Text) × (ri : ℕ) × (ro : ℕ) × (out : ℕ)
    × (to : Address) × (toy_codec.swap_data (bytes "pay") ≡ some d)
    × (lookup d.pool_id world.pools ≡ some p)
    × (swap_sides d.token_in p ≡ some (token, ri, ro))
    × (swap_amount_out d.amount_in p.fee_percent ri ro ≡ some out)
    × (d.min_amount_out ≤ out)
    × (provider (shadow_out 5 ∷ []) ≡ some to)
    × (lookup d.pool_id (process_swap {env = toy_env} swap_id world).1.pools
        ≡ some (swapped d.token_in d.amount_in out p))
    × ((process_swap {env = toy_env} swap_id world).1.tokens ≡ [])
    × Writes memory
        (utxo_point (payment swap_id 1 to out token))
        (payment swap_id 1 to out token)
        world.store
        (process_swap {env = toy_env} swap_id world).1.store
process_swap-pays_example =
    process_swap-pays toy_env swap_id world world-IsCoherent world_filed swap_succeeds
