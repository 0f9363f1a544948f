-- ===== src/Chain/Store.antt =====
-- lib/block_store.go: the blocks by height, their heights by hash, the latest height and the hash of
-- the genesis block, in a database with a cache in front. The cache holds pointers to the blocks
-- that the chain holds too.
pub mod Saved
use shadowd.Common.{
  ℕ, zero, suc, ◌+◌, ◌-◌, ◌≡◌, ◌↔◌, Bool, true, false, Option, none, some, List, [], ◌∷◌, ltb, ◌==◌,
  nat_eq, arith, if◌then◌else◌,
}
use shadowd.Common.Text.{Text, text_beq, text_beq_iff}
use shadowd.Common.Dict.{Dict, lookup, insert}
use shadowd.Common.Result.{Result, ok, err}
use shadowd.Common.State.{Action, pure, raise, gets, modify, ◌>>=◌, ◌>>◌}
use shadowd.Chain.{Block}

-- `block:{height}`, `blockhash:{hash}`, `meta:height` and `meta:genesis_hash`
pub data BlockKey : Type 0 where
  block_key : ℕ → BlockKey
  hash_key : Text → BlockKey
  latest_key genesis_key : BlockKey

pub data BlockValue : Type 0 where
  block_value : Block → BlockValue
  height_value : ℕ → BlockValue
  hash_value : Text → BlockValue

unfoldable pub block_key_beq : BlockKey → BlockKey → Bool
block_key_beq (block_key m) (block_key n) = m == n
block_key_beq (hash_key s) (hash_key t) = text_beq s t
block_key_beq latest_key latest_key = true
block_key_beq genesis_key genesis_key = true
block_key_beq _ _ = false

pub data BlockError : Type 0 where
  block_failure bad_value : BlockError

-- BoltDB and encoding/json, with their documented round trip: a read of a key that was written gives
-- the value back, and a write changes no other key. Any call may fail.
pub record BlockDatabase : Type 1 where
  pub Db : Type 0
  pub get : BlockKey → Db → Result BlockError (Option BlockValue)
  pub set : BlockKey → BlockValue → Db → Result BlockError Db
  pub get-set :
      (k j : BlockKey) (v : BlockValue) (d : Db) {d' : Db}
      → set k v d ≡ ok d'
      → get j d' ≡ (if block_key_beq k j then ok (some v) else get j d)

pub record BlockStore (kv : BlockDatabase) : Type 0 where
  pub db : kv.Db
  pub cache : Dict ℕ Block

abbrev pub Op : BlockDatabase → Type 0 → Type 0
Op kv A = Action (BlockStore kv) BlockError A

abbrev pub decode_block : Result BlockError (Option BlockValue) → Result BlockError (Option Block)
decode_block (err e) = err e
decode_block (ok none) = ok none
decode_block (ok (some (block_value b))) = ok (some b)
decode_block (ok (some _)) = err bad_value

abbrev pub decode_height : Result BlockError (Option BlockValue) → Result BlockError (Option ℕ)
decode_height (err e) = err e
decode_height (ok none) = ok none
decode_height (ok (some (height_value n))) = ok (some n)
decode_height (ok (some _)) = err bad_value

abbrev pub decode_hash : Result BlockError (Option BlockValue) → Result BlockError Text
decode_hash (err e) = err e
decode_hash (ok none) = ok []
decode_hash (ok (some (hash_value t))) = ok t
decode_hash (ok (some _)) = err bad_value

abbrev pub or_zero : Option ℕ → ℕ
or_zero none = 0
or_zero (some n) = n

abbrev pub present : Option Block → Bool
present none = false
present (some b) = true

module _ (kv : BlockDatabase) where
  -- `db.Set`, its error passed on
  unfoldable pub put : BlockKey → BlockValue → Op kv (Unit {0})
  put k v s = elim (kv.set k v s.db) [ ok d ↦ (ok tt, record s { db = d }) | err e ↦ (err e, s) ]

  abbrev pub cache_block : ℕ → Block → BlockStore kv → BlockStore kv
  cache_block n b s = record s { cache = insert n b s.cache }

  abbrev pub save_genesis : Block → Op kv (Unit {0})
  save_genesis b = if b.index == 0 then put genesis_key (hash_value b.hash) else pure tt

  -- `SaveBlock`
  unfoldable pub save_block : Block → Op kv (Unit {0})
  save_block b = do
    put (block_key b.index) (block_value b)
    put (hash_key b.hash) (height_value b.index)
    put latest_key (height_value b.index)
    save_genesis b
    modify (cache_block b.index b)

  -- what the database holds for a height
  unfoldable pub stored_block : ℕ → BlockStore kv → Result BlockError (Option Block)
  stored_block n s = decode_block (kv.get (block_key n) s.db)

  abbrev pub get_uncached :
      ℕ
      → BlockStore kv
      → Result BlockError (Option Block)
      → Result BlockError (Option Block) × BlockStore kv
  get_uncached n s (ok (some b)) = (ok (some b), cache_block n b s)
  get_uncached n s r = (r, s)

  -- `BlockStore.GetBlock`
  unfoldable pub get_stored : ℕ → Op kv (Option Block)
  get_stored n s = elim (lookup n s.cache) [
    | some b ↦ (ok (some b), s)
    | none ↦ get_uncached n s (stored_block n s)
  ]

  abbrev pub get_at : Option ℕ → Op kv (Option Block)
  get_at none = pure none
  get_at (some n) = get_stored n

  -- `GetBlockByHash`
  unfoldable pub get_by_hash : Text → Op kv (Option Block)
  get_by_hash h s = elim (decode_height (kv.get (hash_key h) s.db)) [
    | ok found ↦ get_at found s
    | err e ↦ (err e, s)
  ]

  -- `GetLatestHeight`
  unfoldable pub latest_height : BlockStore kv → Result BlockError ℕ
  latest_height s = elim (decode_height (kv.get latest_key s.db)) [
    | ok found ↦ ok (or_zero found)
    | err e ↦ err e
  ]

  -- `GetGenesisHash`
  unfoldable pub genesis_hash : BlockStore kv → Result BlockError Text
  genesis_hash s = decode_hash (kv.get genesis_key s.db)

  -- `HasBlock`
  unfoldable pub has_block : ℕ → Op kv Bool
  has_block n = do b ← get_stored n; pure (present b)

  -- The loop of `BlockStore.GetBlockRange`, which ends at the first height without a block; the fuel
  -- is the number of heights, so that it never runs out.
  abbrev pub range_onto : Option Block → Op kv (List Block) → Op kv (List Block)
  range_onto none rest = pure []
  range_onto (some b) rest = do bs ← rest; pure (b ∷ bs)

  unfoldable pub stored_from : ℕ → ℕ → Op kv (List Block)
  stored_from zero n = pure []
  stored_from (suc count) n = do b ← get_stored n; range_onto b (stored_from count (n + 1))
