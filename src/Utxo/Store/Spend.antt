-- ===== src/Utxo/Store/Spend.antt =====
-- `SpendUTXO`: its two writes, and the cache between them.
use shadowd.Common.{◌≡◌, refl, sym, ◌∙◌, ap, true, false, some, arith, if◌then◌else◌}
use shadowd.Common.Dict.{insert, erase, lookup-insert, lookup-erase, lookup-insert_self}
use shadowd.Common.Result.{ok, err}
use shadowd.Tx.{Utxo, OutPoint, out_point_eq, out_point_beq, out_point_beq_iff}
use shadowd.Utxo.Database.{Key, utxo_key, spent_key, Value, utxo_value, blank, Database, DbError}
use shadowd.Utxo.Store.{
  database, already_spent, Store, spent, put, stored, get_utxo, spend_loaded, spend_utxo,
  cache_utxo,
}
use shadowd.Utxo.Store.Coherent.{
  IsCoherent, Writes, get_utxo-stored, cache-put, put-other, put-stored, spent_ne, stored-db,
}

module _ (kv : Database) where
  -- the store after the first and after both writes of `SpendUTXO`
  abbrev spend1 : OutPoint → Utxo → Store kv → Store kv
  spend1 p u s = (put kv (utxo_key p) (utxo_value (spent u)) (cache_utxo kv p (spent u) s)).1

  abbrev spend2 : OutPoint → Utxo → Store kv → Store kv
  spend2 p u s = (put kv (spent_key p) blank (spend1 p u s)).1

  spend_loaded-ok :
      (p : OutPoint) (u : Utxo) (s : Store kv)
      → (spend_loaded kv p u s).0 ≡ ok tt
      → (u.is_spent ≡ false)
        × ((put kv (utxo_key p) (utxo_value (spent u)) (cache_utxo kv p (spent u) s)).0 ≡ ok tt)
        × ((put kv (spent_key p) blank (spend1 p u s)).0 ≡ ok tt)
        × ((spend_loaded kv p u s).1
            ≡ record (spend2 p u s) { cache = erase p (spend2 p u s).cache })
  unfolding spend_loaded
  spend_loaded-ok p u s h = ground arith

  spend2-stored :
      (p q : OutPoint) (u : Utxo) (s : Store kv)
      → (spend_loaded kv p u s).0 ≡ ok tt
      → stored kv q (spend2 p u s)
        ≡ (if out_point_beq p q then ok (some (spent u)) else stored kv q s)
  spend2-stored p q u s h =
      let marked : Store kv = cache_utxo kv p (spent u) s in
      let (_, w1, w2, _) = spend_loaded-ok p u s h in
      put-other kv (spent_key p) blank q (spend1 p u s) (spent_ne kv p q) w2
      ∙ put-stored kv p q (spent u) marked w1
      ∙ ap (λ r. if out_point_beq p q then ok (some (spent u)) else r)
          (stored-db kv q s marked refl)

  spend2-cache :
      (p : OutPoint) (u : Utxo) (s : Store kv) → (spend2 p u s).cache ≡ insert p (spent u) s.cache
  spend2-cache p u s = rw (cache-put kv, cache-put kv)

  uncached-IsCoherent :
      (p : OutPoint) (u : Utxo) (s : Store kv)
      → IsCoherent kv s
      → (spend_loaded kv p u s).0 ≡ ok tt
      → IsCoherent kv (record (spend2 p u s) { cache = erase p (spend2 p u s).cache })
  unfolding stored
  uncached-IsCoherent p u s c h q v found = ground (
    arith,
    lookup-erase p q (spend2 p u s).cache,
    spend2-cache p u s,
    lookup-insert p q (spent u) s.cache,
    spend2-stored p q u s h,
    c q v,
  )

  spend_utxo-loaded :
      (p : OutPoint) (s : Store kv)
      → (spend_utxo kv p s).0 ≡ ok tt
      → (u : Utxo) × ((get_utxo kv p s).0 ≡ ok (some u))
        × ((spend_loaded kv p u (get_utxo kv p s).1).0 ≡ ok tt)
        × ((spend_utxo kv p s).1 ≡ (spend_loaded kv p u (get_utxo kv p s).1).1)
  unfolding spend_utxo
  spend_utxo-loaded p s h = ground arith

  -- A successful `SpendUTXO` on a coherent store found the output stored and unspent; it marks
  -- that output spent for all later reads, changes no other output, and keeps the store coherent.
  pub spend_utxo-Writes :
      (p : OutPoint) (s : Store kv)
      → IsCoherent kv s
      → (spend_utxo kv p s).0 ≡ ok tt
      → (u : Utxo) × (stored kv p s ≡ ok (some u))
        × (u.is_spent ≡ false)
        × Writes kv p (spent u) s (spend_utxo kv p s).1
        × IsCoherent kv (spend_utxo kv p s).1
  spend_utxo-Writes p s c h =
      let (u, got, done, e) = spend_utxo-loaded p s h in
      let s0 : Store kv = (get_utxo kv p s).1 in
      let (read, same, c0) = get_utxo-stored kv p s c in
      let (unspent, _, _, e') = spend_loaded-ok p u s0 done in
      (
        u,
        sym read ∙ got,
        unspent,
        rw (e, e')
            (λ q.
              stored-db kv q (spend2 p u s0)
                (record (spend2 p u s0) { cache = erase p (spend2 p u s0).cache }) refl
              ∙ spend2-stored p q u s0 done
              ∙ ap (λ r. if out_point_beq p q then ok (some (spent u)) else r)
                  (stored-db kv q s s0 same)),
        rw (e, e') (uncached-IsCoherent p u s0 c0 done),
      )

  -- `SpendUTXO` of an output that is stored as spent reports just that.
  spend_utxo-spent :
      (p : OutPoint) (u : Utxo) (s : Store kv)
      → IsCoherent kv s
      → stored kv p s ≡ ok (some u)
      → u.is_spent ≡ true
      → (spend_utxo kv p s).0 ≡ err already_spent
  unfolding spend_utxo spend_loaded
  spend_utxo-spent p u s c found done = ground (arith, get_utxo-stored kv p s c)

  -- On a coherent store, after a successful `SpendUTXO` the same call fails: no output is spent
  -- twice.
  pub spend_utxo_once :
      (p : OutPoint) (s : Store kv)
      → IsCoherent kv s
      → (spend_utxo kv p s).0 ≡ ok tt
      → (spend_utxo kv p (spend_utxo kv p s).1).0 ≡ err already_spent
  spend_utxo_once p s c h =
      let (u, _, _, writes, c') = spend_utxo-Writes p s c h in
      spend_utxo-spent p (spent u) (spend_utxo kv p s).1 c'
        (writes p
          ∙ ap (λ b. if b then ok (some (spent u)) else stored kv p s)
              ((out_point_beq_iff p p).1 refl))
        refl

  put-failed :
      (k : Key) (v : Value) (s : Store kv) {e : DbError}
      → kv.set k v s.db ≡ err e
      → put kv k v s ≡ (err database, s)
  unfolding put
  put-failed k v s h = rw (h, put)

  spend_loaded-failed :
      (p : OutPoint) (u : Utxo) (s : Store kv) {e : DbError}
      → u.is_spent ≡ false
      → kv.set (utxo_key p) (utxo_value (spent u)) s.db ≡ err e
      → spend_loaded kv p u s ≡ (err database, cache_utxo kv p (spent u) s)
  unfolding spend_loaded
  spend_loaded-failed p u s fresh h =
      ground (arith, put-failed (utxo_key p) (utxo_value (spent u)) (cache_utxo kv p (spent u) s) h)

  spend_utxo-found :
      (p : OutPoint) (u : Utxo) (s : Store kv)
      → (get_utxo kv p s).0 ≡ ok (some u)
      → spend_utxo kv p s ≡ spend_loaded kv p u (get_utxo kv p s).1
  unfolding spend_utxo
  spend_utxo-found p u s h = ground arith

  get_utxo-cached :
      (p : OutPoint) (u : Utxo) (s : Store kv)
      → (get_utxo kv p (cache_utxo kv p u s)).0 ≡ ok (some u)
  unfolding get_utxo
  get_utxo-cached p u s = rw (lookup-insert_self p u s.cache, get_utxo)

  -- When, on a coherent store, the write of an output that is stored as unspent fails, `SpendUTXO`
  -- returns the error and the database keeps the output unspent, but the cached copy is already
  -- marked: later reads say that it is spent.
  pub spend_utxo-failed :
      (p : OutPoint) (u : Utxo) (s : Store kv) {e : DbError}
      → IsCoherent kv s
      → stored kv p s ≡ ok (some u)
      → u.is_spent ≡ false
      → kv.set (utxo_key p) (utxo_value (spent u)) s.db ≡ err e
      → ((spend_utxo kv p s).0 ≡ err database)
        × (stored kv p (spend_utxo kv p s).1 ≡ ok (some u))
        × ((get_utxo kv p (spend_utxo kv p s).1).0 ≡ ok (some (spent u)))
  spend_utxo-failed p u s c found fresh h =
      let s0 : Store kv = (get_utxo kv p s).1 in
      let (read, same, _) = get_utxo-stored kv p s c in
      let failed = spend_loaded-failed p u s0 fresh (ap (kv.set _ _) same ∙ h) in
      rw (spend_utxo-found p u s (read ∙ found), failed)
        (
          refl,
          stored-db kv p s (cache_utxo kv p (spent u) s0) same ∙ found,
          get_utxo-cached p (spent u) s0,
        )
