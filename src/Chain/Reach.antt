-- ===== src/Chain/Reach.antt =====
-- The chain of lib/chain.go over time: what its calls may do one after another, and what holds of
-- the blocks in every state.
use shadowd.Common.{
  ℕ, suc, ◌+◌, ◌-◌, ◌≡◌, refl, sym, Bool, true, false, Bool-cases, inl, inr, ◌⊎◌, Option, none,
  some, List, [], ◌∷◌, ◌++◌, length, get_elem?, ◌≤◌, arith, if◌then◌else◌, nat_eq,
}
use mathlib.Core.Path.{subst}
use shadowd.Common.Text.{Text, bytes, text_eq}
use shadowd.Common.Word.{add64, u64_mod}
use shadowd.Common.Result.{Result, ok, Result-cases}
use shadowd.Chain.{Block, block_hash, block_record}
use shadowd.Chain.Store.{BlockDatabase, BlockStore}
use shadowd.Chain.Ledger.{
  ChainEnv, Ledger, ChainError, latest_block, get_block, vote_for, add_vote, stripped, is_old,
  prune_one, prune_from, prune_old_proofs,
}
use shadowd.Chain.Apply.{add_block}
use shadowd.Chain.Linked.{
  Follows, IsLinked, append-Follows, Follows-index, Follows-link, Outcome, add_block-Outcome,
}

Outcome-IsLinked :
    {c : ChainEnv} (b : Block) (l l' : Ledger c) (r : Result ChainError (Unit {0}))
    → IsLinked l
    → Outcome b l (r, l')
    → IsLinked l'
unfolding latest_block
Outcome-IsLinked {c = c} b l l' r f (inl (same, _)) = rw same f
Outcome-IsLinked {c = c} b l l' r f (inr ((prev, e, x), more, _)) =
    rw more (append-Follows c.sha 0 (bytes "0") l.blocks prev b f e x)

-- `AddBlock` keeps the links of the chain, whatever the block, the stores and the mempool are and
-- whatever it returns.
pub add_block-IsLinked :
    {c : ChainEnv} (pooled : Bool) (b : Block) (l : Ledger c)
    → IsLinked l
    → IsLinked (add_block pooled b l).1
add_block-IsLinked pooled b l f =
    let (r, l') = add_block pooled b l in Outcome-IsLinked b l l' r f (add_block-Outcome pooled b l)

abbrev voted : Text → Block → Block
voted vote b = record b { votes = b.votes ++ (vote ∷ []) }

vote_for-cases :
    (hash vote : Text) (d : Block) (bs bs' : List Block) (b : Block)
    → vote_for hash vote (d ∷ bs) ≡ ok (b, bs')
    → (bs' ≡ voted vote d ∷ bs)
      ⊎ ((ds : List Block) × (vote_for hash vote bs ≡ ok (b, ds)) × (bs' ≡ d ∷ ds))
unfolding vote_for
vote_for-cases hash vote d bs bs' b h = elim (Bool-cases (text_eq.beq d.hash hash)) [
  | inl e ↦ inl (ground arith)
  | inr e ↦ elim (Result-cases (vote_for hash vote bs)) [
    | inl ((x, ds), e') ↦ inr (ds, ground arith, ground arith)
    | inr (x, e') ↦ absurd (ground arith)
  ]
]

voted-Follows :
    (sha : Text → Text) (i : ℕ) (h hash vote : Text) (bs bs' : List Block) (b : Block)
    → Follows sha i h bs
    → vote_for hash vote bs ≡ ok (b, bs')
    → Follows sha i h bs'
unfolding block_hash block_record vote_for
voted-Follows sha i h hash vote [] bs' b f e = absurd (ground arith)
voted-Follows sha i h hash vote (d ∷ bs) bs' b (fi, fh, fx, f) e =
    elim (vote_for-cases hash vote d bs bs' b e) [
      | inl e' ↦ rw e' (fi, fh, fx, f)
      | inr (ds, e', e'') ↦
          rw e'' (fi, fh, fx, voted-Follows sha (add64 i 1) d.hash hash vote bs ds b f e')
    ]

pruned_head :
    (sha : Text → Text) (i : ℕ) (h : Text) (b : Block) (bs ds : List Block) (old : Bool)
    → Follows sha i h (b ∷ bs)
    → Follows sha (add64 i 1) b.hash ds
    → Follows sha i h ((if old then stripped b else b) ∷ ds)
unfolding block_hash block_record
pruned_head sha i h b bs ds true (fi, fh, fx, f) g = (fi, fh, fx, g)
pruned_head sha i h b bs ds false (fi, fh, fx, f) g = (fi, fh, fx, g)

prune_from-cases :
    (bk : BlockDatabase) (before : ℕ) (b : Block) (bs : List Block) (s : BlockStore bk)
    → let head : Block = if is_old before b then stripped b else b in
      let s' : BlockStore bk = (prune_one bk before b s).2 in
      ((prune_from bk before (b ∷ bs) s).1 ≡ head ∷ bs)
      ⊎ ((prune_from bk before (b ∷ bs) s).1 ≡ head ∷ (prune_from bk before bs s').1)
unfolding prune_from
prune_from-cases bk before b bs s = ground arith

prune_from-Follows :
    (sha : Text → Text) (bk : BlockDatabase) (i before : ℕ) (h : Text) (bs : List Block)
    (s : BlockStore bk)
    → Follows sha i h bs
    → Follows sha i h (prune_from bk before bs s).1
unfolding prune_from
prune_from-Follows sha bk i before h [] s f = tt
prune_from-Follows sha bk i before h (b ∷ bs) s f = elim (prune_from-cases bk before b bs s) [
  | inl e ↦ subst (Follows sha i h) (sym e) (pruned_head sha i h b bs bs (is_old before b) f f.3)
  | inr e ↦
      let s' : BlockStore bk = (prune_one bk before b s).2 in
      subst (Follows sha i h) (sym e) (
        pruned_head sha i h b bs (prune_from bk before bs s').1 (is_old before b) f
          (prune_from-Follows sha bk (add64 i 1) before b.hash bs s' f.3))
]

module _ {c : ChainEnv} where
  add_vote-IsLinked :
      (hash vote : Text) (l : Ledger c) → IsLinked l → IsLinked (add_vote hash vote l).1
  unfolding add_vote
  add_vote-IsLinked hash vote l f = elim (Result-cases (vote_for hash vote l.blocks)) [
    | inl ((b, bs), e) ↦
        rw (e, add_vote) (voted-Follows c.sha 0 (bytes "0") hash vote l.blocks bs b f e)
    | inr (x, e) ↦ rw (e, add_vote) f
  ]

  prune_old_proofs-IsLinked : (l : Ledger c) → IsLinked l → IsLinked (prune_old_proofs l).1
  unfolding prune_old_proofs
  prune_old_proofs-IsLinked l f = ground (
    arith,
    prune_from-Follows c.sha c.bk 0 (length l.blocks - l.pruning_depth) (bytes "0") l.blocks l.store
        f,
  )

  -- One change of the node's state: a call of the chain, or anything that leaves its blocks alone.
  pub data ChainStep : Ledger c → Ledger c → Type 0 where
    adds : (pooled : Bool) (b : Block) (l : Ledger c) → ChainStep l (add_block pooled b l).1
    votes : (hash vote : Text) (l : Ledger c) → ChainStep l (add_vote hash vote l).1
    prunes : (l : Ledger c) → ChainStep l (prune_old_proofs l).1
    elsewhere : (l l' : Ledger c) → l'.blocks ≡ l.blocks → ChainStep l l'

  pub data ChainReach (l : Ledger c) : Ledger c → Type 0 where
    here : ChainReach l l
    next : {m n : Ledger c} → ChainReach l m → ChainStep m n → ChainReach l n

  ChainStep-IsLinked : {l m : Ledger c} → ChainStep l m → IsLinked l → IsLinked m
  ChainStep-IsLinked (adds pooled b l) f = add_block-IsLinked pooled b l f
  ChainStep-IsLinked (votes hash vote l) f = add_vote-IsLinked hash vote l f
  ChainStep-IsLinked (prunes l) f = prune_old_proofs-IsLinked l f
  ChainStep-IsLinked (elsewhere l l' e) f = rw e f

  pub ChainReach-IsLinked : {l m : Ledger c} → IsLinked l → ChainReach l m → IsLinked m
  ChainReach-IsLinked f here = f
  ChainReach-IsLinked f (next r st) = ChainStep-IsLinked st (ChainReach-IsLinked f r)

-- the block after another, if there is one, names its hash
abbrev pub LinksTo : Block → Option Block → Type 0
LinksTo b none = Unit
LinksTo b (some d) = d.previous_hash ≡ b.hash

next-LinksTo :
    (b : Block) (o : Option Block)
    → ((d : Block) → o ≡ some d → d.previous_hash ≡ b.hash)
    → LinksTo b o
next-LinksTo b none f = tt
next-LinksTo b (some d) f = f d refl

-- In every state that calls of `AddBlock`, `AddVote` and `PruneOldProofs`, in any order and with any
-- results, and changes that leave the chain's blocks alone, reach from a linked chain, the block that `GetBlock` returns for a height has that height
-- as its index and the hash of its own contents, and the block after it names that hash; the chain
-- has at most 2 ^ 64 blocks.
pub ChainReach-get_block :
    {c : ChainEnv} (l m : Ledger c) (n : ℕ) (b : Block)
    → IsLinked l
    → ChainReach l m
    → length m.blocks ≤ u64_mod
    → get_block n m ≡ some b
    → (b.index ≡ n) × (b.hash ≡ block_hash c.sha b) × LinksTo b (get_block (n + 1) m)
unfolding get_block
ChainReach-get_block {c = c} l m n b f r le e =
    let g : IsLinked m = ChainReach-IsLinked f r in
    let at_n : get_elem? m.blocks n ≡ some b = ground arith in
    let at_next : (d : Block) → get_block (n + 1) m ≡ some d → get_elem? m.blocks (suc n) ≡ some d =
      λ d e'. ground arith in
    let (own, link) = Follows-link c.sha 0 n (bytes "0") m.blocks b g at_n in
    (
      omega (arith, Follows-index c.sha 0 n (bytes "0") m.blocks b g (omega arith) at_n),
      own,
      next-LinksTo b (get_block (n + 1) m) (λ d e'. link d (at_next d e')),
    )
