-- ===== src/Chain/Store/Saved.antt =====
-- What `SaveBlock` of lib/block_store.go leaves for the reads of the block store.
use shadowd.Common.{ℕ, ◌≡◌, ap, Option, none, some, [], ◌==◌, nat_eq, arith, if◌then◌else◌}
use shadowd.Common.Text.{Text, text_beq, text_beq_iff}
use shadowd.Common.Dict.{lookup, lookup-insert_self, insert}
use shadowd.Common.Result.{Result, ok}
use shadowd.Chain.{Block}
use shadowd.Chain.Store.{
  BlockKey, block_key, hash_key, latest_key, genesis_key, block_key_beq, BlockValue, block_value,
  height_value, hash_value, BlockError, BlockDatabase, BlockStore, put, save_genesis, save_block,
  cache_block, stored_block, get_stored, get_by_hash, latest_height,
}

module _ (kv : BlockDatabase) where
  put-get :
      (k : BlockKey) (v : BlockValue) (j : BlockKey) (s : BlockStore kv)
      → (put kv k v s).0 ≡ ok tt
      → kv.get j (put kv k v s).1.db ≡ (if block_key_beq k j then ok (some v) else kv.get j s.db)
  unfolding put
  put-get k v j s h = kv.get-set k j v s.db (ground arith)

  put-cache : (k : BlockKey) (v : BlockValue) (s : BlockStore kv) → (put kv k v s).1.cache ≡ s.cache
  unfolding put
  put-cache k v s = ground arith

  -- the store after each of the first three writes of `SaveBlock`
  abbrev with_block : Block → BlockStore kv → BlockStore kv
  with_block b s = (put kv (block_key b.index) (block_value b) s).1

  abbrev with_hash : Block → BlockStore kv → BlockStore kv
  with_hash b s = (put kv (hash_key b.hash) (height_value b.index) (with_block b s)).1

  abbrev with_latest : Block → BlockStore kv → BlockStore kv
  with_latest b s = (put kv latest_key (height_value b.index) (with_hash b s)).1

  save_block-steps :
      (b : Block) (s : BlockStore kv)
      → (save_block kv b s).0 ≡ ok tt
      → ((put kv (block_key b.index) (block_value b) s).0 ≡ ok tt)
        × ((put kv (hash_key b.hash) (height_value b.index) (with_block b s)).0 ≡ ok tt)
        × ((put kv latest_key (height_value b.index) (with_hash b s)).0 ≡ ok tt)
        × ((save_genesis kv b (with_latest b s)).0 ≡ ok tt)
        × ((save_block kv b s).1 ≡ cache_block kv b.index b (save_genesis kv b (with_latest b s)).1)
  unfolding save_block
  save_block-steps b s h = ground arith

  save_genesis-get :
      (b : Block) (j : BlockKey) (s : BlockStore kv)
      → (save_genesis kv b s).0 ≡ ok tt
      → kv.get j (save_genesis kv b s).1.db ≡ (
          if b.index == 0
          then (if block_key_beq genesis_key j
              then ok (some (hash_value b.hash))
              else kv.get j s.db)
          else kv.get j s.db)
  save_genesis-get b j s h = ground (arith, put-get genesis_key (hash_value b.hash) j s)

  -- what `SaveBlock` writes under a key, if anything
  abbrev pub saved_value : Block → BlockKey → Option BlockValue
  saved_value b (block_key n) = if b.index == n then some (block_value b) else none
  saved_value b (hash_key t) = if text_beq b.hash t then some (height_value b.index) else none
  saved_value b latest_key = some (height_value b.index)
  saved_value b genesis_key = if b.index == 0 then some (hash_value b.hash) else none

  abbrev pub over :
      Option BlockValue
      → Result BlockError (Option BlockValue)
      → Result BlockError (Option BlockValue)
  over none old = old
  over (some v) old = ok (some v)

  -- the reads of one key through the four writes
  steps-get :
      (b : Block) (j : BlockKey) (s : BlockStore kv)
      → (save_block kv b s).0 ≡ ok tt
      → (kv.get j (with_block b s).db ≡ (
          if block_key_beq (block_key b.index) j then ok (some (block_value b)) else kv.get j s.db))
        × (kv.get j (with_hash b s).db ≡ (
            if block_key_beq (hash_key b.hash) j
            then ok (some (height_value b.index))
            else kv.get j (with_block b s).db))
        × (kv.get j (with_latest b s).db ≡ (
            if block_key_beq latest_key j
            then ok (some (height_value b.index))
            else kv.get j (with_hash b s).db))
        × (kv.get j (save_block kv b s).1.db ≡ (
            if b.index == 0
            then (if block_key_beq genesis_key j
                then ok (some (hash_value b.hash))
                else kv.get j (with_latest b s).db)
            else kv.get j (with_latest b s).db))
  steps-get b j s h =
      let (h1, h2, h3, h4, e) = save_block-steps b s h in
      (
        put-get (block_key b.index) (block_value b) j s h1,
        put-get (hash_key b.hash) (height_value b.index) j (with_block b s) h2,
        put-get latest_key (height_value b.index) j (with_hash b s) h3,
        rw e (save_genesis-get b j (with_latest b s) h4),
      )

  -- what every key holds after `SaveBlock`
  pub save_block-get :
      (b : Block) (j : BlockKey) (s : BlockStore kv)
      → (save_block kv b s).0 ≡ ok tt
      → kv.get j (save_block kv b s).1.db ≡ over (saved_value b j) (kv.get j s.db)
  unfolding block_key_beq
  save_block-get b (block_key n) s h = ground (arith, steps-get b (block_key n) s h)
  save_block-get b (hash_key t) s h = ground (arith, steps-get b (hash_key t) s h)
  save_block-get b latest_key s h = ground (arith, steps-get b latest_key s h)
  save_block-get b genesis_key s h = ground (arith, steps-get b genesis_key s h)

  pub save_block-cache :
      (b : Block) (s : BlockStore kv)
      → (save_block kv b s).0 ≡ ok tt
      → (save_block kv b s).1.cache ≡ insert b.index b s.cache
  save_block-cache b s h =
      let (h1, h2, h3, h4, e) = save_block-steps b s h in
      ground (
        arith,
        put-cache (block_key b.index) (block_value b) s,
        put-cache (hash_key b.hash) (height_value b.index) (with_block b s),
        put-cache latest_key (height_value b.index) (with_hash b s),
        put-cache genesis_key (hash_value b.hash) (with_latest b s),
      )

  pub save_block-latest :
      (b : Block) (s : BlockStore kv)
      → (save_block kv b s).0 ≡ ok tt
      → latest_height kv (save_block kv b s).1 ≡ ok b.index
  unfolding latest_height
  save_block-latest b s h = rw (save_block-get b latest_key s h, latest_height)

  -- the reads of a block in a store whose cache is empty, as after a restart
  abbrev pub restarted : BlockStore kv → BlockStore kv
  restarted s = record s { cache = [] }

  get_stored-hit :
      (n : ℕ) (b : Block) (s : BlockStore kv)
      → lookup n s.cache ≡ some b
      → get_stored kv n s ≡ (ok (some b), s)
  unfolding get_stored
  get_stored-hit n b s h = rw (h, get_stored)

  get_stored-restarted :
      (n : ℕ) (b : Block) (s : BlockStore kv)
      → kv.get (block_key n) s.db ≡ ok (some (block_value b))
      → (get_stored kv n (restarted s)).0 ≡ ok (some b)
  unfolding get_stored lookup stored_block
  get_stored-restarted n b s h = rw h

  get_by_hash-at :
      (t : Text) (n : ℕ) (s : BlockStore kv)
      → kv.get (hash_key t) s.db ≡ ok (some (height_value n))
      → get_by_hash kv t s ≡ get_stored kv n s
  unfolding get_by_hash
  get_by_hash-at t n s h = rw (h, get_by_hash)

  saved_hit :
      (b : Block) (s : BlockStore kv)
      → (save_block kv b s).0 ≡ ok tt
      → (get_stored kv b.index (save_block kv b s).1).0 ≡ ok (some b)
  saved_hit b s h =
      ap (λ r. r.0)
        (get_stored-hit b.index b (save_block kv b s).1
          (rw (save_block-cache b s h) (lookup-insert_self b.index b s.cache)))

  saved_restarted :
      (b : Block) (s : BlockStore kv)
      → (save_block kv b s).0 ≡ ok tt
      → (get_stored kv b.index (restarted (save_block kv b s).1)).0 ≡ ok (some b)
  saved_restarted b s h =
      get_stored-restarted b.index b (save_block kv b s).1
        (ground (arith, save_block-get b (block_key b.index) s h))

  saved_hash :
      (b : Block) (s : BlockStore kv)
      → (save_block kv b s).0 ≡ ok tt
      → kv.get (hash_key b.hash) (save_block kv b s).1.db ≡ ok (some (height_value b.index))
  saved_hash b s h =
      ground (arith, save_block-get b (hash_key b.hash) s h, text_beq_iff b.hash b.hash)

  saved_height :
      (b : Block) (n : ℕ) (s : BlockStore kv)
      → (save_block kv b s).0 ≡ ok tt
      → stored_block kv n (save_block kv b s).1
        ≡ (if b.index == n then ok (some b) else stored_block kv n s)
  unfolding stored_block
  saved_height b n s h = ground (arith, save_block-get b (block_key n) s h)

  -- After a successful `SaveBlock` the block is found by its height and by its hash, both through the
  -- cache and after a restart, the latest height is the block's, and the database holds the block
  -- for its height and for any other height what it held.
  pub save_block-get_stored :
      (b : Block) (n : ℕ) (s : BlockStore kv)
      → (save_block kv b s).0 ≡ ok tt
      → ((get_stored kv b.index (save_block kv b s).1).0 ≡ ok (some b))
        × ((get_stored kv b.index (restarted (save_block kv b s).1)).0 ≡ ok (some b))
        × ((get_by_hash kv b.hash (save_block kv b s).1).0 ≡ ok (some b))
        × ((get_by_hash kv b.hash (restarted (save_block kv b s).1)).0 ≡ ok (some b))
        × (latest_height kv (save_block kv b s).1 ≡ ok b.index)
        × (stored_block kv n (save_block kv b s).1
            ≡ (if b.index == n then ok (some b) else stored_block kv n s))
  save_block-get_stored b n s h =
      let found = saved_hash b s h in
      (
        saved_hit b s h,
        saved_restarted b s h,
        rw (get_by_hash-at b.hash b.index (save_block kv b s).1 found) (saved_hit b s h),
        rw (get_by_hash-at b.hash b.index (restarted (save_block kv b s).1) found)
            (saved_restarted b s h),
        save_block-latest b s h,
        saved_height b n s h,
      )
