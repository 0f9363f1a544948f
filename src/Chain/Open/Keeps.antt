-- ===== src/Chain/Open/Keeps.antt =====
-- Predicates on the state that the registries' rebuilding in `NewBlockchain` of lib/chain.go keeps.
use shadowd.Common.{ℕ, ◌≡◌, refl, inl, inr, Option, none, some, Option-cases, List, [], ◌∷◌}
use mathlib.Core.List.{Memᴰ}
use shadowd.Common.Text.{Text, text_eq}
use shadowd.Common.Word.{scale_up}
use shadowd.Common.Dict.{lookup}
use shadowd.Common.Result.{ok, Result-cases}
use shadowd.Common.State.{◌>>◌}
use shadowd.Tx.{TxType, TxOutput, mint_token, create_pool, Transaction}
use shadowd.Token.{TokenInfo, create_custom_token, set_token_id}
use shadowd.Token.Registry.{Registry, register_token}
use shadowd.Pool.{LiquidityPool, CreatePoolData, lp_tokens}
use shadowd.Pool.Registry.{Pools, register_pool}
use shadowd.Utxo.Store.{get_transaction}
use shadowd.Process.World.{TokenMintData}
use shadowd.Process.Pools.{lp_max_mint, lp_token_info, new_pool}
use shadowd.Chain.{Block}
use shadowd.Chain.Ledger.{ChainEnv, Ledger, slice}
use shadowd.Chain.Open.{
  found_tx, restore_info, restore_output, restore_mint, log_restored, add_pool, add_lp_token,
  restore_pair, restore_data, restore_pool, restore_token, restore_created, rebuild_token_registry,
  rebuild_pool_registry,
}
use shadowd.Chain.Open.Preserves.{
  Preserves, bind-Preserves, slice-Preserves, pure-Preserves, scan-carry,
}

-- the supply of a pool's token when the pool is created
abbrev pub first_supply : ChainEnv → CreatePoolData → ℕ
first_supply c d = scale_up 8 (lp_max_mint (lp_tokens c.env.float d.amount_a d.amount_b))

-- The data are those of a known transaction that creates a pool.
abbrev pub Made : ChainEnv → (Text → ℕ → Transaction → Type 0) → Text → ℕ → CreatePoolData → Type 0
Made c Known id height d =
    (t : Transaction) × Known id height t
    × (t.tx_type ≡ create_pool)
    × (c.env.codec.pool_data t.payload ≡ some d)

-- a predicate that a change of the tokens keeps, and the registration of a new pool
module _ {c : ChainEnv} (P : Ledger c → Type 0) (bs : List Block)
    (at : (l : Ledger c) → P l → l.blocks ≡ bs) (Known : Text → ℕ → Transaction → Type 0)
    (known : (l : Ledger c) (b : Block) (id : Text) (t : Transaction)
      → P l
      → Memᴰ b bs
      → Memᴰ id b.transactions
      → found_tx (get_transaction c.env.kv id l.utxo) ≡ some t
      → Known id b.index t)
    (on_token : (l : Ledger c) (reg : Registry) → P l → P (record l { tokens = reg }))
    (on_pool : (l : Ledger c) (id : Text) (d : CreatePoolData) (height : ℕ) (ps : Pools)
      → Made c Known id height d
      → register_pool (new_pool id d (first_supply c d) height) l.pools ≡ ok ps
      → P l
      → P (record l { pools = ps })) where
  slice-carry : (n : ℕ) (s : Text) (l : Ledger c) → P l → P (slice {c = c} n s l).1
  slice-carry n s l p = (slice-Preserves P n s).carry l p

  restore_info-carry :
      (id : Text) (info : TokenInfo) (l : Ledger c) → P l → P (restore_info id info l).1
  unfolding restore_info
  restore_info-carry id info l p =
      elim (Result-cases (register_token c.env.ext (set_token_id id info) l.tokens)) [
        | inl (reg, e) ↦
            rw (e, restore_info) (slice-carry 16 id (record l { tokens = reg }) (on_token l reg p))
        | inr (x, e) ↦ rw (e, restore_info) p
      ]

  restore_output-carry :
      (id : Text) (d : TokenMintData) (os : List TxOutput) (l : Ledger c)
      → P l
      → P (restore_output id d os l).1
  unfolding restore_output
  restore_output-carry id d [] l p = p
  restore_output-carry id d (o ∷ os) l p =
      elim (Result-cases (
        create_custom_token c.env.ext d.ticker d.desc d.max_mint d.max_decimals o.address
          c.env.now)) [
            | inl (info, e) ↦ rw (e, restore_output) (restore_info-carry id info l p)
            | inr (x, e) ↦ rw (e, restore_output) p
          ]

  restore_mint-carry :
      (id : Text) (t : Transaction) (l : Ledger c) → P l → P (restore_mint id t l).1
  unfolding restore_mint
  restore_mint-carry id t l p = elim (Option-cases (c.env.codec.mint_data t.payload)) [
    | inl e ↦ rw (e, restore_mint) (slice-carry 16 id l p)
    | inr (d, e) ↦ rw (e, restore_mint) (restore_output-carry id d t.outputs l p)
  ]

  log_restored-carry :
      (q : LiquidityPool) (id : Text) (l : Ledger c)
      → P l
      → P ((log_restored {c = c} q >> slice 16 id) l).1
  log_restored-carry q id l p =
      (bind-Preserves P
          (bind-Preserves P (slice-Preserves P 16 q.pool_id) (λ _.
            bind-Preserves P (slice-Preserves P 8 q.token_a) (λ _. slice-Preserves P 8 q.token_b)))
          (λ _. slice-Preserves P 16 id)).carry
        l p

  add_pool-carry :
      (id : Text) (d : CreatePoolData) (height : ℕ)
      → Made c Known id height d
      → (l : Ledger c) → P l
      → P (add_pool id d (first_supply c d) height l).1
  unfolding add_pool
  add_pool-carry id d height made l p =
      elim (Result-cases (register_pool (new_pool id d (first_supply c d) height) l.pools)) [
        | inl (ps, e) ↦
            rw (e, add_pool)
              (log_restored-carry (new_pool id d (first_supply c d) height) id
                (record l { pools = ps }) (on_pool l id d height ps made e p))
        | inr (x, e) ↦ rw (e, add_pool) p
      ]

  add_lp_token-carry :
      (id : Text) (info : TokenInfo) (l : Ledger c) → P l → P (add_lp_token id info l).1
  unfolding add_lp_token
  add_lp_token-carry id info l p = elim (Result-cases (register_token c.env.ext info l.tokens)) [
    | inl (reg, e) ↦ rw (e, add_lp_token) (on_token l reg p)
    | inr (x, e) ↦ rw (e, add_lp_token) (slice-carry 16 id l p)
  ]

  restore_pair-Preserves :
      (id : Text) (height : ℕ) (d : CreatePoolData) (a b : TokenInfo)
      → Made c Known id height d
      → Preserves P (restore_pair id height d a b)
  unfolding restore_pair
  restore_pair-Preserves id height d a b made =
      let max_mint : ℕ = lp_max_mint (lp_tokens c.env.float d.amount_a d.amount_b) in
      let info : TokenInfo = lp_token_info id a.ticker b.ticker max_mint d.pool_address height in
      bind-Preserves P {m = add_lp_token id info} {f = λ _. add_pool id d (first_supply c d) height}
        (record { carry = add_lp_token-carry id info })
        (λ _. record { carry = add_pool-carry id d height made })

  restore_data-carry :
      (id : Text) (height : ℕ) (d : CreatePoolData) (a b : Option TokenInfo)
      → Made c Known id height d
      → (l : Ledger c) → P l
      → P (restore_data id height d a b l).1
  unfolding restore_data
  restore_data-carry id height d (some a) (some b) made l p =
      (restore_pair-Preserves id height d a b made).carry l p
  restore_data-carry id height d (some a) none made l p = slice-carry 16 id l p
  restore_data-carry id height d none b made l p = slice-carry 16 id l p

  restore_pool-carry :
      (id : Text) (height : ℕ) (t : Transaction)
      → Known id height t
      → t.tx_type ≡ create_pool
      → (l : Ledger c) → P l
      → P (restore_pool id height t l).1
  unfolding restore_pool
  restore_pool-carry id height t k kind l p =
      elim (Option-cases (c.env.codec.pool_data t.payload)) [
        | inl e ↦ rw (e, restore_pool) (slice-carry 16 id l p)
        | inr (d, e) ↦
            rw (e, restore_pool)
              (restore_data-carry id height d (lookup d.token_a l.tokens)
                (lookup d.token_b l.tokens) (t, k, kind, e) l p)
      ]

  restore_token-Preserves :
      (id : Text) (height : ℕ) (k : TxType) (t : Transaction)
      → Preserves P (restore_token id height k t)
  restore_token-Preserves id height mint_token t = record { carry = restore_mint-carry id t }
  restore_token-Preserves id height _ t = pure-Preserves P

  restore_created-Preserves :
      (id : Text) (height : ℕ) (k : TxType) (t : Transaction)
      → Known id height t
      → t.tx_type ≡ k
      → Preserves P (restore_created id height k t)
  restore_created-Preserves id height create_pool t known_t kind = record {
    carry = restore_pool-carry id height t known_t kind;
  }
  restore_created-Preserves id height _ t known_t kind = pure-Preserves P

  rebuild_token_registry-Preserves : Preserves P rebuild_token_registry
  unfolding rebuild_token_registry
  rebuild_token_registry-Preserves = record {
    carry =
        scan-carry P bs at Known known restore_token
          (λ id height t k. restore_token-Preserves id height t.tx_type t);
  }

  rebuild_pool_registry-Preserves : Preserves P rebuild_pool_registry
  unfolding rebuild_pool_registry
  rebuild_pool_registry-Preserves = record {
    carry =
        scan-carry P bs at Known known restore_created
          (λ id height t k. restore_created-Preserves id height t.tx_type t k refl);
  }

  -- both rebuilds, after the check of the last hash
  pub rebuilds-Preserves :
      (tip : Block)
      → Preserves P (slice 16 tip.hash >> (rebuild_token_registry >> rebuild_pool_registry))
  rebuilds-Preserves tip = bind-Preserves P (slice-Preserves P 16 tip.hash) (λ _.
      bind-Preserves P rebuild_token_registry-Preserves (λ _. rebuild_pool_registry-Preserves))
