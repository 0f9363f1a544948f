-- ===== src/Chain/Prune.antt =====
-- `PruneOldProofs` of lib/chain.go and the latest height of the block store.
use shadowd.Common.{
  ℕ, ◌-◌, ◌≡◌, ◌≢◌, sym, true, false, Bool-cases, inl, inr, List, [], ◌∷◌, any, length, ◌<◌, arith,
  nat_eq,
}
use mathlib.Core.Path.{subst}
use shadowd.Common.Result.{ok}
use shadowd.Chain.{Block}
use shadowd.Chain.Store.{BlockDatabase, BlockStore, latest_height, save_block, cache_block}
use shadowd.Chain.Store.Saved.{save_block-latest}
use shadowd.Chain.Ledger.{
  ChainEnv, Ledger, stripped, is_old, prune_one, prune_from, prune_old_proofs,
}

-- the latest height of a store is below a bound
abbrev pub LatestBelow : (bk : BlockDatabase) → ℕ → BlockStore bk → Type 0
LatestBelow bk bound s = (n : ℕ) × (latest_height bk s ≡ ok n) × (n < bound)

module _ (bk : BlockDatabase) (before : ℕ) where
  prune_from-ok :
      (b : Block) (bs : List Block) (s : BlockStore bk)
      → (prune_from bk before (b ∷ bs) s).0 ≡ ok tt
      → ((prune_one bk before b s).0 ≡ ok tt)
        × ((prune_from bk before bs (prune_one bk before b s).2).0 ≡ ok tt)
        × ((prune_from bk before (b ∷ bs) s).2
            ≡ (prune_from bk before bs (prune_one bk before b s).2).2)
  unfolding prune_from
  prune_from-ok b bs s h = ground arith

  prune_one-new :
      (b : Block) (s : BlockStore bk) → is_old before b ≡ false → (prune_one bk before b s).2 ≡ s
  prune_one-new b s e = ground arith

  prune_one-old :
      (b : Block) (s : BlockStore bk)
      → is_old before b ≡ true
      → (prune_one bk before b s).0 ≡ ok tt
      → LatestBelow bk before (prune_one bk before b s).2
  prune_one-old b s e h =
      let s' : BlockStore bk = cache_block bk b.index (stripped b) s in
      let saved : (save_block bk (stripped b) s').0 ≡ ok tt = ground arith in
      (b.index, ground (arith, save_block-latest bk (stripped b) s' saved), ground arith)

  -- a bound on the latest height stays
  prune_from-below :
      (bs : List Block) (s : BlockStore bk)
      → (prune_from bk before bs s).0 ≡ ok tt
      → LatestBelow bk before s
      → LatestBelow bk before (prune_from bk before bs s).2
  unfolding prune_from
  prune_from-below [] s h below = below
  prune_from-below (b ∷ bs) s h below =
      let (one, rest, e) = prune_from-ok b bs s h in
      let s' : BlockStore bk = (prune_one bk before b s).2 in
      let below' : LatestBelow bk before s' = elim (Bool-cases (is_old before b)) [
        | inl old ↦ prune_one-old b s old one
        | inr new ↦ subst (LatestBelow bk before) (sym (prune_one-new b s new)) below
      ] in
      subst (LatestBelow bk before) (sym e) (prune_from-below bs s' rest below')

  prune_from-lowers :
      (bs : List Block) (s : BlockStore bk)
      → (prune_from bk before bs s).0 ≡ ok tt
      → any (is_old before) bs ≡ true
      → LatestBelow bk before (prune_from bk before bs s).2
  prune_from-lowers [] s h found = absurd (ground arith)
  prune_from-lowers (b ∷ bs) s h found =
      let (one, rest, e) = prune_from-ok b bs s h in
      let s' : BlockStore bk = (prune_one bk before b s).2 in
      subst (LatestBelow bk before) (sym e) (elim (Bool-cases (is_old before b)) [
        | inl old ↦ prune_from-below bs s' rest (prune_one-old b s old one)
        | inr new ↦ prune_from-lowers bs s' rest (ground arith)
      ])

-- Where `PruneOldProofs` strips the proof of a block and succeeds, the latest height that the block
-- store returns afterwards is below the number of blocks less the depth, whatever it was before.
pub prune_old_proofs-latest_height :
    {c : ChainEnv} (l : Ledger c)
    → l.pruning_depth ≢ 0
    → l.pruning_depth < length l.blocks
    → any (is_old (length l.blocks - l.pruning_depth)) l.blocks ≡ true
    → (prune_old_proofs l).0 ≡ ok tt
    → LatestBelow c.bk (length l.blocks - l.pruning_depth) (prune_old_proofs l).1.store
unfolding prune_old_proofs
prune_old_proofs-latest_height {c = c} l on deep found h =
    let before : ℕ = length l.blocks - l.pruning_depth in
    let done : (prune_from c.bk before l.blocks l.store).0 ≡ ok tt = ground arith in
    let e : (prune_old_proofs l).1.store ≡ (prune_from c.bk before l.blocks l.store).2 =
      ground arith in
    subst (LatestBelow c.bk before) (sym e)
      (prune_from-lowers c.bk before l.blocks l.store done found)
