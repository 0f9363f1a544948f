-- ===== src/Mempool/Limit.antt =====
-- The memory limit: the sum of the sizes under eviction.
use shadowd.Common.{
  ℕ, zero, suc, ◌+◌, ◌-◌, ◌≤◌, ◌<◌, ◌≡◌, ◌≢◌, refl, ◌∙◌, Bool, true, false, Bool-cases, inl, inr,
  none, some, [], ◌∷◌, length, ltb, nat_eq, arith,
}
use shadowd.Common.Text.{Text, text_eq, text_beq_iff}
use shadowd.Common.Dict.{Dict, lookup, insert, erase, lookup-insert, lookup-erase}
use shadowd.Tx.{Transaction}
use shadowd.Tx.External.{External}
use shadowd.Mempool.{
  Entry, Mempool, total_size, sift, sort_by_age, evict, enforce_memory_limit, new_entry,
  add_transaction,
}
use shadowd.Mempool.Admit.{add_transaction-cases}

-- Each identifier has one entry.
abbrev pub Distinct : Dict Text Entry → Type 0
Distinct [] = Unit
Distinct (e ∷ es) = (lookup e.0 es ≡ none) × Distinct es

erase_absent : (k : Text) (es : Dict Text Entry) → lookup k es ≡ none → erase k es ≡ es
unfolding lookup erase
erase_absent k [] h = refl
erase_absent k (e ∷ es) h = ground (arith, erase_absent k es)

erase-Distinct : (k : Text) (es : Dict Text Entry) → Distinct es → Distinct (erase k es)
unfolding erase
erase-Distinct k [] d = tt
erase-Distinct k (e ∷ es) d =
    ground (arith, erase-Distinct k es, lookup-erase k e.0 es, text_beq_iff e.0 k)

insert-Distinct :
    (k : Text) (n : Entry) (es : Dict Text Entry) → Distinct es → Distinct (insert k n es)
unfolding insert lookup
insert-Distinct k n [] d = ground arith
insert-Distinct k n (e ∷ es) d = ground (
  arith,
  insert-Distinct k n es,
  lookup-insert k e.0 n es,
  text_beq_iff e.0 k,
  text_beq_iff k e.0,
)

erase-total_size :
    (k : Text) (e : Entry) (es : Dict Text Entry)
    → Distinct es
    → lookup k es ≡ some e
    → e.size_bytes + total_size (erase k es) ≡ total_size es
unfolding lookup erase total_size
erase-total_size k e [] d h = ground arith
erase-total_size k e (f ∷ es) d h =
    ground (arith, erase-total_size k e es, erase_absent k es, text_beq_iff f.0 k)

-- two maps with the same entries
abbrev Same : Dict Text Entry → Dict Text Entry → Type 0
Same es fs = (k : Text) → lookup k es ≡ lookup k fs

evict-le :
    (limit size : ℕ) (queue es : Dict Text Entry)
    → size ≡ total_size es
    → Distinct es
    → Distinct queue
    → Same queue es
    → total_size (evict limit size queue es) ≤ limit
unfolding evict total_size lookup
evict-le limit size [] [] e d dq s = omega arith
evict-le limit size [] (x ∷ es) e d dq s = absurd (ground (arith, s x.0, text_beq_iff x.0 x.0))
evict-le limit size (q ∷ queue) es e d dq s =
    let found : lookup q.0 es ≡ some q.1 = ground (arith, s q.0, text_beq_iff q.0 q.0) in
    let es' : Dict Text Entry = erase q.0 es in
    let less : size - q.1.size_bytes ≡ total_size es' =
      omega (arith, erase-total_size q.0 q.1 es d found) in
    let same : Same queue es' =
      λ k. ground (arith, lookup-erase q.0 k es, s k, text_beq_iff q.0 k) in
    ground (
      arith,
      evict-le limit (size - q.1.size_bytes) queue es' less (erase-Distinct q.0 es d) dq.1 same,
    )

swap-Same : (a b : Text × Entry) (es : Dict Text Entry) → a.0 ≢ b.0 → Same (a ∷ b ∷ es) (b ∷ a ∷ es)
unfolding lookup
swap-Same a b es h k = ground (arith, text_beq_iff a.0 k, text_beq_iff b.0 k)

-- an entry y put behind the front of a list, which has the entries of x and es
behind-Same :
    (y x front : Text × Entry) (rest es : Dict Text Entry)
    → lookup y.0 (x ∷ es) ≡ none
    → Distinct (front ∷ rest)
    → Same (front ∷ rest) (x ∷ es)
    → Distinct (front ∷ y ∷ rest) × Same (front ∷ y ∷ rest) (y ∷ x ∷ es)
unfolding lookup
behind-Same y x front rest es new d s =
    let fresh : lookup y.0 (front ∷ rest) ≡ none = s y.0 ∙ new in
    (
      ground (arith, text_beq_iff front.0 y.0, text_beq_iff y.0 front.0),
      λ k.
          ground (arith, s k, text_beq_iff front.0 y.0, text_beq_iff y.0 k, text_beq_iff front.0 k),
    )

sift-nil : (e : Text × Entry) → sift e [] ≡ (e, [])
unfolding sift
sift-nil e = refl

sift-older :
    (e f : Text × Entry) (es : Dict Text Entry)
    → ltb f.1.added_timestamp e.1.added_timestamp ≡ true
    → sift e (f ∷ es) ≡ ((sift f es).0, e ∷ (sift f es).1)
unfolding sift
sift-older e f es h = rw h

sift-newer :
    (e f : Text × Entry) (es : Dict Text Entry)
    → ltb f.1.added_timestamp e.1.added_timestamp ≡ false
    → sift e (f ∷ es) ≡ ((sift e es).0, f ∷ (sift e es).1)
unfolding sift
sift-newer e f es h = rw h

-- one run of the inner loop keeps the entries
sift-Same :
    (e : Text × Entry) (es : Dict Text Entry)
    → Distinct (e ∷ es)
    → Distinct ((sift e es).0 ∷ (sift e es).1) × Same ((sift e es).0 ∷ (sift e es).1) (e ∷ es)
unfolding lookup
sift-Same e [] d = rw (sift-nil e) (d, λ k. refl)
sift-Same e (f ∷ es) d = elim (Bool-cases (ltb f.1.added_timestamp e.1.added_timestamp)) [
  | inl older ↦
      let (dr, sr) = sift-Same f es d.1 in
      rw (sift-older e f es older) (behind-Same e f (sift f es).0 (sift f es).1 es d.0 dr sr)
  | inr newer ↦
      let de : Distinct (e ∷ es) = ground (arith, text_beq_iff f.0 e.0) in
      let (dr, sr) = sift-Same e es de in
      let new : lookup f.0 (e ∷ es) ≡ none =
        ground (arith, text_beq_iff f.0 e.0, text_beq_iff e.0 f.0) in
      let ne : f.0 ≢ e.0 = ground (arith, text_beq_iff f.0 e.0) in
      let (dd, ss) = behind-Same f e (sift e es).0 (sift e es).1 es new dr sr in
      rw (sift-newer e f es newer) (dd, λ k. ss k ∙ swap-Same f e es ne k)
]

sort-Same :
    (n : ℕ) (es : Dict Text Entry)
    → Distinct es
    → Distinct (sort_by_age n es) × Same (sort_by_age n es) es
unfolding sort_by_age lookup
sort-Same zero es d = (d, λ k. refl)
sort-Same (suc n) [] d = (d, λ k. refl)
sort-Same (suc n) (e ∷ es) d =
    let (ds, ss) = sift-Same e es d in
    let front : Text × Entry = (sift e es).0 in
    let (dr, sr) = sort-Same n (sift e es).1 ds.1 in
    ((sr front.0 ∙ ds.0, dr), λ k. ground (arith, sr k, ss k))

-- The limit: each identifier has one entry, and the entries fit.
abbrev pub IsBounded : Mempool → Type 0
IsBounded mp = Distinct mp.entries × (total_size mp.entries ≤ mp.max_size_bytes)

evict-Distinct :
    (limit size : ℕ) (queue es : Dict Text Entry)
    → Distinct es
    → Distinct (evict limit size queue es)
unfolding evict
evict-Distinct limit size [] es d = d
evict-Distinct limit size (q ∷ queue) es d = ground (
  arith,
  evict-Distinct limit (size - q.1.size_bytes) queue (erase q.0 es),
  erase-Distinct q.0 es,
)

enforce-IsBounded :
    (mp : Mempool)
    → 0 < mp.max_size_bytes
    → Distinct mp.entries
    → IsBounded (enforce_memory_limit mp)
unfolding enforce_memory_limit
enforce-IsBounded mp pos d =
    let (dq, s) = sort-Same (length mp.entries) mp.entries d in
    let queue : Dict Text Entry = sort_by_age (length mp.entries) mp.entries in
    ground (
      arith,
      evict-le mp.max_size_bytes (total_size mp.entries) queue mp.entries refl d dq s,
      evict-Distinct mp.max_size_bytes (total_size mp.entries) queue mp.entries d,
    )

-- With a memory limit above zero, a mempool with one entry for each identifier, and entries whose sizes
-- together do not exceed the limit, still is one after `AddTransaction`, whatever that returns.
pub add_transaction-IsBounded :
    (ext : External) (published : Bool) (now : ℕ) (t : Transaction) (mp : Mempool)
    → 0 < mp.max_size_bytes
    → IsBounded mp
    → IsBounded (add_transaction ext published now t mp).1
add_transaction-IsBounded ext published now t mp pos b =
    add_transaction-cases ext published now t mp IsBounded b (λ id small c.
      let n : Entry = new_entry now t mp in
      enforce-IsBounded (record mp { entries = insert id n mp.entries }) pos
        (insert-Distinct id n mp.entries b.0))
