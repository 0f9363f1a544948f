-- ===== src/Utxo/Store/Coherent.antt =====
-- The cache against the database: when a store is coherent, and what reads and writes do to it.
use shadowd.Common.{
  ℕ, ◌≡◌, refl, sym, ◌∙◌, false, Option, none, some, arith, Option-cases, inl, inr, if◌then◌else◌,
}
use shadowd.Common.Dict.{lookup, lookup-insert}
use shadowd.Common.Result.{Result, ok, err}
use shadowd.Tx.{Utxo, OutPoint, out_point_eq, out_point_beq, out_point_beq_iff, utxo_point}
use shadowd.Utxo.Database.{
  Key, utxo_key, addr_key, height_key, spent_key, key_beq, Value, utxo_value, blank, Database,
}
use shadowd.Utxo.Store.{
  StoreError, Store, put, stored, get_utxo, add_utxo, cache_utxo, get_uncached,
}

module _ (kv : Database) where
  -- Every cached output is the one that the database holds.
  abbrev pub IsCoherent : Store kv → Type 0
  IsCoherent s = (p : OutPoint) (u : Utxo) → lookup p s.cache ≡ some u → stored kv p s ≡ ok (some u)

  -- what is stored does not depend on the cache
  pub stored-db : (q : OutPoint) (s s' : Store kv) → s'.db ≡ s.db → stored kv q s' ≡ stored kv q s
  unfolding stored
  stored-db q s s' e = rw e

  cache_stored :
      (p : OutPoint) (u : Utxo) (s : Store kv)
      → IsCoherent s
      → stored kv p s ≡ ok (some u)
      → IsCoherent (cache_utxo kv p u s)
  unfolding stored
  cache_stored p u s c h q v found =
      ground (arith, lookup-insert p q u s.cache, out_point_beq_iff p q, c q v)

  pub get_uncached-stored :
      (p : OutPoint) (s : Store kv) (r : Result StoreError (Option Utxo))
      → IsCoherent s
      → stored kv p s ≡ r
      → ((get_uncached kv p s r).0 ≡ r)
        × ((get_uncached kv p s r).1.db ≡ s.db)
        × IsCoherent (get_uncached kv p s r).1
  get_uncached-stored p s (ok (some u)) c h = (refl, refl, cache_stored p u s c h)
  get_uncached-stored p s (ok none) c h = (refl, refl, c)
  get_uncached-stored p s (err e) c h = (refl, refl, c)

  -- In a coherent store `GetUTXO` returns what the database holds, and changes only the cache, which
  -- stays coherent.
  pub get_utxo-stored :
      (p : OutPoint) (s : Store kv)
      → IsCoherent s
      → ((get_utxo kv p s).0 ≡ stored kv p s)
        × ((get_utxo kv p s).1.db ≡ s.db)
        × IsCoherent (get_utxo kv p s).1
  unfolding get_utxo
  get_utxo-stored p s c = elim (Option-cases (lookup p s.cache)) [
    | inl miss ↦ rw (miss, get_utxo) (get_uncached-stored p s (stored kv p s) c refl)
    | inr (u, hit) ↦ rw (hit, get_utxo) (sym (c p u hit), refl, c)
  ]

  pub cache-put : (k : Key) (v : Value) (s : Store kv) → (put kv k v s).1.cache ≡ s.cache
  unfolding put
  cache-put k v s = ground arith

  pub put-ok :
      (k : Key) (v : Value) (s : Store kv)
      → (put kv k v s).0 ≡ ok tt
      → kv.set k v s.db ≡ ok (put kv k v s).1.db
  unfolding put
  put-ok k v s h = ground arith

  -- a write of any key but an output's changes no output
  pub put-other :
      (k : Key) (v : Value) (q : OutPoint) (s : Store kv)
      → key_beq k (utxo_key q) ≡ false
      → (put kv k v s).0 ≡ ok tt
      → stored kv q (put kv k v s).1 ≡ stored kv q s
  unfolding stored
  put-other k v q s other h = rw (kv.get-set k (utxo_key q) v s.db (put-ok k v s h), other)

  -- a write of an output is read back, and no other output changes
  pub put-stored :
      (p q : OutPoint) (u : Utxo) (s : Store kv)
      → (put kv (utxo_key p) (utxo_value u) s).0 ≡ ok tt
      → stored kv q (put kv (utxo_key p) (utxo_value u) s).1
        ≡ (if out_point_beq p q then ok (some u) else stored kv q s)
  unfolding stored key_beq
  put-stored p q u s h = ground (
    arith,
    kv.get-set (utxo_key p) (utxo_key q) (utxo_value u) s.db
        (put-ok (utxo_key p) (utxo_value u) s h),
  )

  addr_ne : (a : ℕ) (p q : OutPoint) → key_beq (addr_key a p) (utxo_key q) ≡ false
  unfolding key_beq
  addr_ne a p q = refl

  height_ne : (a : ℕ) (p q : OutPoint) → key_beq (height_key a p) (utxo_key q) ≡ false
  unfolding key_beq
  height_ne a p q = refl

  pub spent_ne : (p q : OutPoint) → key_beq (spent_key p) (utxo_key q) ≡ false
  unfolding key_beq
  spent_ne p q = refl

  -- the outputs of the store are those of an older one, but for one that was written
  abbrev pub Writes : OutPoint → Utxo → Store kv → Store kv → Type 0
  Writes p u s s' =
      (q : OutPoint) → stored kv q s' ≡ (if out_point_beq p q then ok (some u) else stored kv q s)

  -- the store after the first write, the first two and all three writes of `AddUTXO`
  abbrev add1 : Utxo → Store kv → Store kv
  add1 u s = (put kv (utxo_key (utxo_point u)) (utxo_value u) s).1

  abbrev add2 : Utxo → Store kv → Store kv
  add2 u s = (put kv (addr_key u.output.address (utxo_point u)) blank (add1 u s)).1

  abbrev add3 : Utxo → Store kv → Store kv
  add3 u s = (put kv (height_key u.block_height (utxo_point u)) blank (add2 u s)).1

  add_utxo-ok :
      (u : Utxo) (s : Store kv)
      → (add_utxo kv u s).0 ≡ ok tt
      → ((put kv (utxo_key (utxo_point u)) (utxo_value u) s).0 ≡ ok tt)
        × ((put kv (addr_key u.output.address (utxo_point u)) blank (add1 u s)).0 ≡ ok tt)
        × ((put kv (height_key u.block_height (utxo_point u)) blank (add2 u s)).0 ≡ ok tt)
        × ((add_utxo kv u s).1 ≡ cache_utxo kv (utxo_point u) u (add3 u s))
  unfolding add_utxo
  add_utxo-ok u s h = ground arith

  add3-cache : (u : Utxo) (s : Store kv) → (add3 u s).cache ≡ s.cache
  add3-cache u s = rw (cache-put, cache-put, cache-put)

  add3-stored :
      (u : Utxo) (s : Store kv) (q : OutPoint)
      → (add_utxo kv u s).0 ≡ ok tt
      → stored kv q (add3 u s)
        ≡ (if out_point_beq (utxo_point u) q then ok (some u) else stored kv q s)
  add3-stored u s q h =
      let p : OutPoint = utxo_point u in
      let (w1, w2, w3, _) = add_utxo-ok u s h in
      put-other (height_key u.block_height p) blank q (add2 u s) (height_ne _ p q) w3
      ∙ put-other (addr_key u.output.address p) blank q (add1 u s) (addr_ne _ p q) w2
      ∙ put-stored p q u s w1

  -- A coherent cache stays so when one output is written to the database and cached.
  pub cache_written :
      (p : OutPoint) (u : Utxo) (s s' : Store kv)
      → IsCoherent s
      → s'.cache ≡ s.cache
      → Writes p u s s'
      → IsCoherent (cache_utxo kv p u s')
  unfolding stored
  cache_written p u s s' c same w q v found =
      ground (arith, lookup-insert p q u s'.cache, same, w q, c q v)

  -- A successful `AddUTXO` on a coherent store adds or replaces that one output, for all later
  -- reads, and the store stays coherent.
  pub add_utxo-Writes :
      (u : Utxo) (s : Store kv)
      → IsCoherent s
      → (add_utxo kv u s).0 ≡ ok tt
      → Writes (utxo_point u) u s (add_utxo kv u s).1 × IsCoherent (add_utxo kv u s).1
  add_utxo-Writes u s c h =
      let (_, _, _, e) = add_utxo-ok u s h in
      rw e (
        λ q.
            stored-db q (add3 u s) (cache_utxo kv (utxo_point u) u (add3 u s)) refl
            ∙ add3-stored u s q h,
        cache_written (utxo_point u) u s (add3 u s) c (add3-cache u s) (λ q. add3-stored u s q h),
      )
