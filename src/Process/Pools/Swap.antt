-- ===== src/Process/Pools/Swap.antt =====
-- What a swap does to the pool and to the outputs of the store.
use shadowd.Common.{ℕ, ◌+◌, ◌≤◌, ◌≡◌, ◌∙◌, some, Option-cases, inl, inr, [], length, arith}
use shadowd.Common.Text.{Text, bytes, text_eq}
use shadowd.Common.Dict.{lookup, insert, lookup-insert_self}
use shadowd.Common.Result.{ok}
use shadowd.Tx.{Address, Utxo, utxo_point}
use shadowd.Tx.Outputs.{token_output}
use shadowd.Pool.{LiquidityPool, SwapData}
use shadowd.Pool.Registry.{update_pool}
use shadowd.Pool.Trade.{swap_amount_out, swap_sides, swapped, swap_a_for_b, swap_b_for_a}
use shadowd.Utxo.Store.{add_utxo}
use shadowd.Utxo.Store.Coherent.{IsCoherent, Writes, add_utxo-Writes}
use shadowd.Process.World.{Env, World}
use shadowd.Process.Pools.{paid_utxo, provider, write_pool, settle_swap, process_swap}

-- the output that pays for a swap
abbrev pub payment : Text → ℕ → Address → ℕ → Text → Utxo
payment id n to out token = paid_utxo id (n + 0) (token_output to out token (bytes "swap") [])

swapped-pool_id :
    (token : Text) (n out : ℕ) (p : LiquidityPool) → (swapped token n out p).pool_id ≡ p.pool_id
unfolding swapped swap_a_for_b swap_b_for_a
swapped-pool_id token n out p = ground arith

module _ {env : Env} where
  -- What a successful swap read and found, and what it did.
  record Swapped (id : Text) (w w' : World env) : Type 0 where
    data' : SwapData
    pool : LiquidityPool
    token_out : Text
    reserve_in : ℕ
    reserve_out : ℕ
    out : ℕ
    parsed : env.codec.swap_data w.tx.payload ≡ some data'
    found : lookup data'.pool_id w.pools ≡ some pool
    sides : swap_sides data'.token_in pool ≡ some (token_out, reserve_in, reserve_out)
    amount : swap_amount_out data'.amount_in pool.fee_percent reserve_in reserve_out ≡ some out
    enough : data'.min_amount_out ≤ out
    settled : (settle_swap {env = env} id w.tx.outputs data' pool token_out out w).0 ≡ ok tt
    after : w' ≡ (settle_swap {env = env} id w.tx.outputs data' pool token_out out w).1

  process_swap-Swapped :
      (id : Text) (w : World env)
      → (process_swap id w).0 ≡ ok tt
      → Swapped id w (process_swap id w).1
  unfolding process_swap
  process_swap-Swapped id w h = elim (Option-cases (env.codec.swap_data w.tx.payload)) [
    | inl none_d ↦ absurd (ground arith)
    | inr (d, ed) ↦ elim (Option-cases (lookup d.pool_id w.pools)) [
      | inl none_p ↦ absurd (ground arith)
      | inr (p, ep) ↦ elim (Option-cases (swap_sides d.token_in p)) [
        | inl none_s ↦ absurd (ground arith)
        | inr ((o, ri, ro), es) ↦
            elim (Option-cases (swap_amount_out d.amount_in p.fee_percent ri ro)) [
              | inl none_a ↦ absurd (ground arith)
              | inr (out, ea) ↦ record {
                data' = d;
                pool = p;
                token_out = o;
                reserve_in = ri;
                reserve_out = ro;
                out = out;
                parsed = ed;
                found = ep;
                sides = es;
                amount = ea;
                enough = ground arith;
                settled = ground arith;
                after = ground arith;
              }
            ]
      ]
    ]
  ]

  -- `UpdatePool` after the change through the pointer leaves the changed pool under its identifier.
  write_pool-lookup :
      (k : Text) (p : LiquidityPool) (w : World env)
      → p.pool_id ≡ k
      → (write_pool {env = env} k p w).0 ≡ ok tt
      → lookup k (write_pool {env = env} k p w).1.pools ≡ some p
  unfolding update_pool
  write_pool-lookup k p w e h = ground (arith, e, lookup-insert_self k p (insert k p w.pools))

  -- What settling a swap did.
  record Settled (id : Text) (d : SwapData) (p : LiquidityPool) (token : Text) (out : ℕ)
      (w w' : World env) : Type 0 where
    to : Address
    named : provider w.tx.outputs ≡ some to
    written : (write_pool {env = env} d.pool_id (swapped d.token_in d.amount_in out p) w).0 ≡ ok tt
    pools_after :
        w'.pools
        ≡ (write_pool {env = env} d.pool_id (swapped d.token_in d.amount_in out p) w).1.pools
    tokens_after : w'.tokens ≡ w.tokens
    paid : (add_utxo env.kv (payment id (length w.tx.outputs) to out token) w.store).0 ≡ ok tt
    store_after :
        w'.store ≡ (add_utxo env.kv (payment id (length w.tx.outputs) to out token) w.store).1

  settle_swap-Settled :
      (id : Text) (d : SwapData) (p : LiquidityPool) (token : Text) (out : ℕ) (w : World env)
      → (settle_swap {env = env} id w.tx.outputs d p token out w).0 ≡ ok tt
      → Settled id d p token out w (settle_swap {env = env} id w.tx.outputs d p token out w).1
  unfolding settle_swap
  settle_swap-Settled id d p token out w h = elim (Option-cases (provider w.tx.outputs)) [
    | inl none_t ↦ absurd (ground arith)
    | inr (to, et) ↦ record {
      to = to;
      named = et;
      written = ground arith;
      pools_after = ground arith;
      tokens_after = ground arith;
      paid = ground arith;
      store_after = ground arith;
    }
  ]

-- A swap that succeeds, on a coherent store and a pool filed under its identifier, found the pool
-- and a quotient of the swap formula that is at least what the transaction asks for; it replaces
-- the pool by the traded one, leaves the tokens as they are, and writes one output: that
-- quotient, in the other token, for the address of the transaction's first output.
pub process_swap-pays :
    (env : Env) (id : Text) (w : World env)
    → IsCoherent env.kv w.store
    → ((k : Text) (p : LiquidityPool) → lookup k w.pools ≡ some p → p.pool_id ≡ k)
    → (process_swap {env = env} id w).0 ≡ ok tt
    → (d : SwapData) × (p : LiquidityPool) × (token : Text) × (ri : ℕ) × (ro : ℕ) × (out : ℕ)
      × (to : Address) × (env.codec.swap_data w.tx.payload ≡ some d)
      × (lookup d.pool_id w.pools ≡ some p)
      × (swap_sides d.token_in p ≡ some (token, ri, ro))
      × (swap_amount_out d.amount_in p.fee_percent ri ro ≡ some out)
      × (d.min_amount_out ≤ out)
      × (provider w.tx.outputs ≡ some to)
      × (lookup d.pool_id (process_swap {env = env} id w).1.pools
          ≡ some (swapped d.token_in d.amount_in out p))
      × ((process_swap {env = env} id w).1.tokens ≡ w.tokens)
      × Writes env.kv
          (utxo_point (payment id (length w.tx.outputs) to out token))
          (payment id (length w.tx.outputs) to out token)
          w.store
          (process_swap {env = env} id w).1.store
process_swap-pays env id w c filed h =
    let s : Swapped id w (process_swap {env = env} id w).1 = process_swap-Swapped id w h in
    let d : SwapData = s.data' in
    let f = settle_swap-Settled id d s.pool s.token_out s.out w s.settled in
    let e : s.pool.pool_id ≡ d.pool_id = filed d.pool_id s.pool s.found in
    let same = swapped-pool_id d.token_in d.amount_in s.out s.pool in
    (
      d,
      s.pool,
      s.token_out,
      s.reserve_in,
      s.reserve_out,
      s.out,
      f.to,
      s.parsed,
      s.found,
      s.sides,
      s.amount,
      s.enough,
      f.named,
      rw (s.after, f.pools_after) (write_pool-lookup _ _ w (same ∙ e) f.written),
      rw (s.after) f.tokens_after,
      rw (s.after, f.store_after) ((add_utxo-Writes env.kv _ w.store c f.paid).0),
    )
