-- ===== src/Consensus/Commit.antt =====
-- `handleBlockVote` of lib/consensus.go on an approved block.
use shadowd.Common.{
  ℕ, ◌+◌, ◌≡◌, ◌<◌, inl, inr, refl, ap, ◌∙◌, Bool, true, none, some, [], ◌∷◌, ◌++◌, length, arith,
}
use shadowd.Common.Text.{Text, text_eq, text_beq_iff}
use shadowd.Common.Dict.{Dict, insert}
use shadowd.Common.Result.{ok}
use shadowd.Common.State.{bind-ok}
use shadowd.Chain.{Block}
use shadowd.Chain.Ledger.{ChainEnv, Ledger}
use shadowd.Chain.Apply.{add_block}
use shadowd.Chain.Linked.{add_block-Outcome}
use shadowd.Consensus.Engine.{
  EngineEnv, Engine, BlockVote, msg_block_commit, message, has_quorum, call, succeeded,
  settle_mempool, after_commit, commit_block, commit_if, handle_block_vote, count_vote,
}
use shadowd.Consensus.Quorum.{
  ExactHalf, Approved, has_quorum_iff, recorded, counted, on_pending, commit_block-blocks,
}

grown :
    {c : ChainEnv} (b : Block) (l : Ledger c)
    → (add_block true b l).0 ≡ ok tt
    → (add_block true b l).1.blocks ≡ l.blocks ++ (b ∷ [])
grown b l h = elim (add_block-Outcome true b l) [
  | inl (_, failed) ↦ absurd (failed h)
  | inr (_, more, _) ↦ more
]

module _ {e : EngineEnv} where
  approved :
      (peers : ℕ) (v : BlockVote) (b : Block) (s : Engine e)
      → s.pending_proposal ≡ some b
      → b.hash ≡ v.block_hash
      → has_quorum e.over_half (peers + 1) (recorded v s).proposal_votes ≡ true
      → handle_block_vote peers (some v) s ≡ commit_block b (recorded v s)
  unfolding commit_if
  approved peers v b s pend same q =
      on_pending peers v s
      ∙ ap (λ o. count_vote peers v o s) pend
      ∙ counted peers v b s ((text_beq_iff b.hash v.block_hash).1 same)
      ∙ ap (λ test. commit_if test b (recorded v s)) q

  commit_block-ok :
      (b : Block) (s : Engine e)
      → (add_block true b s.ledger).0 ≡ ok tt
      → commit_block b s ≡ after_commit b true (call (add_block true b) s).1
  unfolding commit_block
  commit_block-ok b s h =
      bind-ok (call (add_block true b)) (λ added. after_commit b (succeeded added)) s {a = ok tt}
        (ground arith)

  after_commit-settled :
      (b : Block) (s : Engine e)
      → ((after_commit b true s).0 ≡ ok tt)
        × ((after_commit b true s).1.pending_proposal ≡ none)
        × ((after_commit b true s).1.proposal_votes ≡ [])
        × ((after_commit b true s).1.published
            ≡ (settle_mempool b s).published
              ++ (record (message msg_block_commit (e.chain.env.now)) { block = some b } ∷ []))
  unfolding after_commit
  after_commit-settled b s = (refl, refl, refl, refl)

-- Where the pending block has the hash that a vote names, the votes recorded with that vote approve
-- it, and `AddBlock` accepts it, the vote commits it: the block is behind the chain's blocks, nothing
-- is pending, no vote is kept, and the handler returns. The comparison of float64 counts is taken
-- to be exact for fewer than 2 ^ 53 votes, which is assumed of the votes.
pub handle_block_vote-commits :
    {e : EngineEnv} (peers : ℕ) (v : BlockVote) (b : Block) (s : Engine e)
    → ExactHalf e.over_half
    → length (insert v.voter v.vote s.proposal_votes) < 9007199254740992
    → s.pending_proposal ≡ some b
    → b.hash ≡ v.block_hash
    → Approved (peers + 1) (insert v.voter v.vote s.proposal_votes)
    → (add_block true b s.ledger).0 ≡ ok tt
    → ((handle_block_vote peers (some v) s).0 ≡ ok tt)
      × ((handle_block_vote peers (some v) s).1.ledger.blocks ≡ s.ledger.blocks ++ (b ∷ []))
      × ((handle_block_vote peers (some v) s).1.pending_proposal ≡ none)
      × ((handle_block_vote peers (some v) s).1.proposal_votes ≡ [])
handle_block_vote-commits {e = e} peers v b s half few pend same agreed added =
    let votes : Dict Text Bool = insert v.voter v.vote s.proposal_votes in
    let q : has_quorum e.over_half (peers + 1) votes ≡ true =
      (has_quorum_iff e.over_half (peers + 1) votes half few).1 agreed in
    let t : Engine e = (call (add_block true b) (recorded v s)).1 in
    let whole : handle_block_vote peers (some v) s ≡ after_commit b true t =
      approved peers v b s pend same q ∙ commit_block-ok b (recorded v s) added in
    let (done, clear, none_left, _) = after_commit-settled b t in
    (
      ap (λ x. x.0) whole ∙ done,
      ap (λ x. x.1.ledger.blocks) (approved peers v b s pend same q)
          ∙ commit_block-blocks b (recorded v s)
          ∙ grown b s.ledger added,
      ap (λ x. x.1.pending_proposal) whole ∙ clear,
      ap (λ x. x.1.proposal_votes) whole ∙ none_left,
    )
