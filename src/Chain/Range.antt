-- ===== src/Chain/Range.antt =====
-- `GetBlockRange` of lib/chain.go against the positions that it stands for.
use shadowd.Common.{
  ℕ, zero, suc, ◌+◌, ◌-◌, ◌≡◌, refl, true, Bool-cases, inl, inr, ◌⊎◌, none, some, List, [], ◌∷◌,
  length, get_elem?, ◌≤◌, ◌<◌, arith, if◌then◌else◌, nat_eq, ltb, leb,
}
use shadowd.Common.Result.{ok, err}
use shadowd.Chain.{Block}
use shadowd.Chain.Ledger.{chain_panic, range_from, block_range}

get_elem?-some : (bs : List Block) (i : ℕ) → i < length bs → (b : Block) × (get_elem? bs i ≡ some b)
get_elem?-some [] i h = absurd (omega arith)
get_elem?-some (b ∷ bs) zero h = (b, refl)
get_elem?-some (b ∷ bs) (suc i) h = get_elem?-some bs i (omega arith)

get_elem?-none : (bs : List Block) (i : ℕ) → length bs ≤ i → get_elem? bs i ≡ none
get_elem?-none [] i h = refl
get_elem?-none (b ∷ bs) zero h = absurd (omega arith)
get_elem?-none (b ∷ bs) (suc i) h = get_elem?-none bs i (omega arith)

range_from-get_elem? :
    (count i n : ℕ) (bs : List Block)
    → i + count ≤ length bs
    → get_elem? (range_from count i bs) n ≡ (if ltb n count then get_elem? bs (i + n) else none)
unfolding range_from
range_from-get_elem? zero i n bs h = ground arith
range_from-get_elem? (suc count) i zero bs h =
    let (b, e) = get_elem?-some bs i (omega arith) in
    let same : i + 0 ≡ i = omega arith in
    let first : ltb 0 (suc count) ≡ true = ground arith in rw (same, first, e, range_from) refl
range_from-get_elem? (suc count) i (suc n) bs h =
    let (b, e) = get_elem?-some bs i (omega arith) in
    let same : i + suc n ≡ i + 1 + n = omega arith in
    let less : ltb (suc n) (suc count) ≡ ltb n count = ground arith in
    rw (e, range_from, same, less) (range_from-get_elem? count (i + 1) n bs (omega arith))

-- `GetBlockRange` returns no blocks for a start behind the chain. For any other start and an end not
-- below the height before it, it returns the blocks of the heights from the start to the end, in
-- order, as far as the chain has them. For a start on the chain and any lower end it panics.
pub block_range-get_elem? :
    (start end n : ℕ) (bs : List Block)
    → ((length bs ≤ start) × (block_range start end bs ≡ ok []))
      ⊎ ((start < length bs)
          × (start ≤ end + 1)
          × ((ds : List Block) × (block_range start end bs ≡ ok ds)
              × (get_elem? ds n
                  ≡ (if leb (start + n) end then get_elem? bs (start + n) else none))))
      ⊎ ((start < length bs) × (end + 1 < start) × (block_range start end bs ≡ err chain_panic))
unfolding block_range
block_range-get_elem? start end n bs =
    let stop : ℕ = if leb (length bs) end then length bs - 1 else end in
    let count : ℕ = stop + 1 - start in
    elim (Bool-cases (leb (length bs) start)) [
      | inl past ↦ inl (ground arith, ground arith)
      | inr inside ↦ elim (Bool-cases (ltb (end + 1) start)) [
        | inl below ↦ inr (inr (ground arith, ground arith, ground arith))
        | inr order ↦ inr (
            inl (
              ground arith,
              ground arith,
              (
                range_from count start bs,
                ground arith,
                ground (
                  arith,
                  range_from-get_elem? count start n bs (ground arith),
                  get_elem?-none bs (start + n),
                ),
              ),
            ))
      ]
    ]
