-- ===== src/Chain/Open/Loaded.antt =====
-- How many blocks `NewBlockchain` of lib/chain.go loads.
use shadowd.Common.{
  ℕ, zero, suc, ◌+◌, ◌≡◌, refl, ap, ◌∙◌, true, inl, inr, Option-cases, [], ◌∷◌, ◌++◌, length,
  length-append, arith, if◌then◌else◌,
}
use mathlib.Core.Path.{subst}
use shadowd.Common.Text.{text_eq}
use shadowd.Common.Result.{ok, Result-cases}
use shadowd.Common.State.{◌>>=◌, ◌>>◌, bind-ok}
use shadowd.Chain.{Block}
use shadowd.Chain.Store.{get_stored, has_block, latest_height}
use shadowd.Chain.Ledger.{ChainEnv, Ledger, slice, latest_block}
use shadowd.Chain.Apply.{append_block}
use shadowd.Chain.Open.{
  on_blocks, load_blocks, rebuild_token_registry, rebuild_pool_registry, load_chain, start_chain,
  fresh, read_height, new_blockchain,
}
use shadowd.Chain.Open.Keeps.{rebuilds-Preserves}

module _ {c : ChainEnv} where
  load-step :
      (count i : ℕ) (l : Ledger c)
      → (load_blocks (suc count) i l).0 ≡ ok tt
      → (b : Block) × (m : Ledger c) × (m.blocks ≡ l.blocks)
        × ((load_blocks count (i + 1) (append_block b m)).0 ≡ ok tt)
        × ((load_blocks (suc count) i l).1 ≡ (load_blocks count (i + 1) (append_block b m)).1)
  unfolding load_blocks
  load-step count i l h =
      let m : Ledger c = (on_blocks (get_stored c.bk i) l).1 in
      elim (Result-cases (get_stored c.bk i l.store).0) [
        | inl (found, e) ↦ elim (Option-cases found) [
          | inl e' ↦ absurd (ground arith)
          | inr (b, e') ↦ (b, m, refl, ground arith, ground arith)
        ]
        | inr (x, e) ↦ absurd (ground arith)
      ]

  load_none : (i : ℕ) (l : Ledger c) → length (load_blocks 0 i l).1.blocks ≡ length l.blocks + 0
  unfolding load_blocks
  load_none i l = omega arith

  load_blocks-length :
      (count i : ℕ) (l : Ledger c)
      → (load_blocks count i l).0 ≡ ok tt
      → length (load_blocks count i l).1.blocks ≡ length l.blocks + count
  load_blocks-length zero i l h = load_none i l
  load_blocks-length (suc count) i l h =
      let (b, m, kept, rest, e) = load-step count i l h in
      let more : length (m.blocks ++ (b ∷ [])) ≡ length l.blocks + 1 =
        rw kept (length-append l.blocks (b ∷ [])) in
      let ih : length (load_blocks (suc count) i l).1.blocks
          ≡ length (m.blocks ++ (b ∷ [])) + count =
        rw e (load_blocks-length count (i + 1) (append_block b m) rest) in
      omega (arith, ih, more)

  rebuilds-blocks :
      (tip : Block) (l : Ledger c)
      → ((slice {c = c} 16 tip.hash >> (rebuild_token_registry >> rebuild_pool_registry))
          l).1.blocks
        ≡ l.blocks
  rebuilds-blocks tip l =
      (rebuilds-Preserves (λ (m : Ledger c). m.blocks ≡ l.blocks) l.blocks (λ m e. e)
          (λ id height s. Unit {0}) (λ m b id s e inside listed found. tt) (λ m reg e. e)
          (λ m id d height ps made r e. e) tip).carry
        l refl

  load_chain-length :
      (height : ℕ) (l : Ledger c)
      → (load_chain height l).0 ≡ ok tt
      → length (load_chain height l).1.blocks ≡ length l.blocks + suc height
  unfolding load_chain
  load_chain-length height l h =
      let m : Ledger c = (load_blocks (suc height) 0 l).1 in
      let loaded : (load_blocks (suc height) 0 l).0 ≡ ok tt = ground arith in
      elim (Option-cases (latest_block m)) [
        | inl e ↦ absurd (ground arith)
        | inr (tip, e) ↦
            ground (arith, load_blocks-length (suc height) 0 l loaded, rebuilds-blocks tip m)
      ]

-- Where the block store has a genesis block and a latest height, `NewBlockchain` on it either fails
-- or starts with that height and one more blocks.
pub new_blockchain-length :
    {c : ChainEnv} (l : Ledger c) (height : ℕ)
    → latest_height c.bk l.store ≡ ok height
    → (has_block c.bk 0 l.store).0 ≡ ok true
    → (new_blockchain l).0 ≡ ok tt
    → length (new_blockchain l).1.blocks ≡ suc height
unfolding new_blockchain
new_blockchain-length {c = c} l height e g h =
    let m : Ledger c = record (fresh l) { store = (has_block c.bk 0 l.store).1 } in
    let read : (read_height (fresh l)).0 ≡ ok height = ground arith in
    let has : (on_blocks (has_block c.bk 0) (fresh l)).0 ≡ ok true = ground arith in
    let same : new_blockchain l ≡ load_chain height m =
      bind-ok read_height
        (λ n. on_blocks (has_block c.bk 0) >>= λ found. if found then load_chain n else start_chain)
        (fresh l) read
      ∙ bind-ok (on_blocks (has_block c.bk 0))
          (λ found. if found then load_chain height else start_chain) (fresh l) has in
    let loaded : (load_chain height m).0 ≡ ok tt = subst (λ r. r.0 ≡ ok tt) same h in
    ap (λ r. length r.1.blocks) same ∙ load_chain-length height m loaded ∙ omega arith
