-- ===== src/Consensus/Quorum.antt =====
-- When `handleBlockVote` of lib/consensus.go commits the pending block.
use shadowd.Common.{
  ℕ, ◌+◌, ◌*◌, ◌/◌, ◌≡◌, ◌≢◌, ◌≤◌, ◌<◌, ◌↔◌, ◌⊎◌, inl, inr, refl, sym, ap, ◌∙◌, Bool, true, false,
  Bool-cases, none, some, Option-cases, List, [], ◌∷◌, ◌++◌, length, arith, nat_eq,
}
use mathlib.Core.Path.{subst}
use shadowd.Common.Text.{Text, text_eq, text_beq_iff}
use shadowd.Common.Dict.{Dict, insert}
use shadowd.Common.Result.{Result, ok, Result-cases}
use shadowd.Common.State.{bind-ok, bind-err}
use shadowd.Mempool.{remove_transaction}
use shadowd.Chain.{Block}
use shadowd.Chain.Ledger.{latest_block}
use shadowd.Chain.Apply.{add_block}
use shadowd.Chain.Linked.{Extends, add_block-Outcome}
use shadowd.Consensus.Engine.{
  EngineEnv, Engine, EngineError, BlockVote, yes_votes, has_quorum, call, succeeded, settle_mempool,
  remove_all, after_commit, commit_block, commit_if, count_vote, on_vote, handle_block_vote,
}

-- IEEE 754 division and comparison: below 2 ^ 53 the quotient of two counts is above one half exactly if
-- the real one is.
abbrev pub ExactHalf : (ℕ → ℕ → Bool) → Type 0
ExactHalf over_half =
    (agreed total : ℕ)
    → 0 < total
    → agreed ≤ total
    → total < 9007199254740992
    → (over_half agreed total ≡ true) ↔ (total < 2 * agreed)

yes_votes-le : (votes : Dict Text Bool) → yes_votes votes ≤ length votes
unfolding yes_votes
yes_votes-le [] = omega arith
yes_votes-le ((voter, v) ∷ votes) = ground (arith, yes_votes-le votes)

-- The pending block has enough votes: for a single node a yes, else votes of more than half of the nodes,
-- more than half of them yes.
abbrev pub Approved : ℕ → Dict Text Bool → Type 0
Approved nodes votes =
    ((nodes ≡ 1) × (0 < yes_votes votes))
    ⊎ ((nodes ≢ 1) × (nodes / 2 < length votes) × (length votes < 2 * yes_votes votes))

pub has_quorum_iff :
    (over_half : ℕ → ℕ → Bool) (nodes : ℕ) (votes : Dict Text Bool)
    → ExactHalf over_half
    → length votes < 9007199254740992
    → (has_quorum over_half nodes votes ≡ true) ↔ Approved nodes votes
unfolding has_quorum
has_quorum_iff over_half nodes votes half few =
    ground (arith, yes_votes-le votes, half (yes_votes votes) (length votes))

module _ {e : EngineEnv} where
  remove_all-blocks :
      (ids : List Text) (s : Engine e) → (remove_all ids s).ledger.blocks ≡ s.ledger.blocks
  unfolding remove_all
  remove_all-blocks [] s = refl
  remove_all-blocks (id ∷ ids) s =
      remove_all-blocks ids (record s {
        ledger = record (s.ledger) { mempool = remove_transaction id s.ledger.mempool };
      })

  pub settle_mempool-blocks :
      (b : Block) (s : Engine e) → (settle_mempool b s).ledger.blocks ≡ s.ledger.blocks
  settle_mempool-blocks b s = remove_all-blocks b.transactions _

  after_commit-blocks :
      (b : Block) (done : Bool) (s : Engine e)
      → (after_commit b done s).1.ledger.blocks ≡ s.ledger.blocks
  unfolding after_commit
  after_commit-blocks b false s = refl
  after_commit-blocks b true s = settle_mempool-blocks b s

  pub commit_block-blocks :
      (b : Block) (s : Engine e)
      → (commit_block b s).1.ledger.blocks ≡ (add_block true b s.ledger).1.blocks
  unfolding commit_block
  commit_block-blocks b s =
      let s' : Engine e = (call (add_block true b) s).1 in
      elim (Result-cases (call (add_block true b) s).0) [
        | inl (r, h) ↦
            ap (λ x. x.1.ledger.blocks)
              (bind-ok (call (add_block true b)) (λ added. after_commit b (succeeded added)) s h)
            ∙ after_commit-blocks b (succeeded r) s'
        | inr (x, h) ↦
            ap (λ y. y.1.ledger.blocks)
              (bind-err (call (add_block true b)) (λ added. after_commit b (succeeded added)) s h)
      ]

  -- the vote is recorded
  abbrev pub recorded : BlockVote → Engine e → Engine e
  recorded v s = record s { proposal_votes = insert v.voter v.vote s.proposal_votes }

  pub counted :
      (peers : ℕ) (v : BlockVote) (b : Block) (s : Engine e)
      → text_eq.beq b.hash v.block_hash ≡ true
      → count_vote peers v (some b) s
        ≡ commit_if
            (has_quorum e.over_half (peers + 1) (recorded v s).proposal_votes)
            b
            (recorded v s)
  unfolding count_vote
  counted peers v b s h = rw h

  pub passed_over :
      (peers : ℕ) (v : BlockVote) (b : Block) (s : Engine e)
      → text_eq.beq b.hash v.block_hash ≡ false
      → count_vote peers v (some b) s ≡ (ok tt, s)
  unfolding count_vote
  passed_over peers v b s h = rw h

  pub no_pending :
      (peers : ℕ) (v : BlockVote) (s : Engine e) → count_vote peers v none s ≡ (ok tt, s)
  unfolding count_vote
  no_pending peers v s = refl

  pub on_pending :
      (peers : ℕ) (v : BlockVote) (s : Engine e)
      → handle_block_vote peers (some v) s ≡ count_vote peers v s.pending_proposal s
  unfolding handle_block_vote on_vote
  on_pending peers v s = refl

  pub commit_if-blocks :
      (test : Bool) (b : Block) (s : Engine e)
      → ((commit_if test b s).1.ledger.blocks ≡ s.ledger.blocks)
        ⊎ ((test ≡ true)
            × ((prev : Block) × (latest_block s.ledger ≡ some prev) × Extends e.chain.sha prev b)
            × ((commit_if test b s).1.ledger.blocks ≡ s.ledger.blocks ++ (b ∷ [])))
  unfolding commit_if
  commit_if-blocks false b s = inl refl
  commit_if-blocks true b s = elim (add_block-Outcome true b s.ledger) [
    | inl (same, _) ↦ inl (commit_block-blocks b s ∙ same)
    | inr (x, more, _) ↦ inr (refl, x, commit_block-blocks b s ∙ more)
  ]

  -- what a vote did to the blocks
  abbrev pub VoteOutcome :
      ℕ → BlockVote → Engine e → Result EngineError (Unit {0}) × Engine e → Type 0
  VoteOutcome peers v s (r, s') =
      (s'.ledger.blocks ≡ s.ledger.blocks)
      ⊎ ((b : Block) × (s.pending_proposal ≡ some b)
          × (b.hash ≡ v.block_hash)
          × Approved (peers + 1) (insert v.voter v.vote s.proposal_votes)
          × ((prev : Block) × (latest_block s.ledger ≡ some prev) × Extends e.chain.sha prev b)
          × (s'.ledger.blocks ≡ s.ledger.blocks ++ (b ∷ [])))

  counted-VoteOutcome :
      (peers : ℕ) (v : BlockVote) (b : Block) (s : Engine e)
      → ExactHalf e.over_half
      → length (insert v.voter v.vote s.proposal_votes) < 9007199254740992
      → s.pending_proposal ≡ some b
      → text_eq.beq b.hash v.block_hash ≡ true
      → VoteOutcome peers v s (
          commit_if
            (has_quorum e.over_half (peers + 1) (recorded v s).proposal_votes)
            b
            (recorded v s))
  counted-VoteOutcome peers v b s half few pend h =
      let votes : Dict Text Bool = (recorded v s).proposal_votes in
      elim (commit_if-blocks (has_quorum e.over_half (peers + 1) votes) b (recorded v s)) [
        | inl same ↦ inl same
        | inr (q, x, more) ↦ inr (
          b,
          pend,
          (text_beq_iff b.hash v.block_hash).0 h,
          (has_quorum_iff e.over_half (peers + 1) votes half few).0 q,
          x,
          more,
        )
      ]

-- A vote, whatever it says and whoever sends it, leaves the chain's blocks as they are, or appends the
-- pending block that it names. It appends that block only if the votes recorded with it approve it,
-- as one yes in a network of one node, or as votes of more than half of the nodes with more than
-- half of these votes yes, and if the block extends the last one. The comparison of float64 counts
-- is taken to be exact for fewer than 2 ^ 53 votes, which is assumed of the votes.
pub handle_block_vote-VoteOutcome :
    {e : EngineEnv} (peers : ℕ) (v : BlockVote) (s : Engine e)
    → ExactHalf e.over_half
    → length (insert v.voter v.vote s.proposal_votes) < 9007199254740992
    → VoteOutcome peers v s (handle_block_vote peers (some v) s)
handle_block_vote-VoteOutcome {e = e} peers v s half few =
    subst (VoteOutcome peers v s) (sym (on_pending peers v s))
      (elim (Option-cases s.pending_proposal) [
        | inl pend ↦
            subst (VoteOutcome peers v s)
              (sym (ap (λ o. count_vote peers v o s) pend ∙ no_pending peers v s)) (inl refl)
        | inr (b, pend) ↦
            subst (VoteOutcome peers v s) (sym (ap (λ o. count_vote peers v o s) pend))
              (elim (Bool-cases (text_eq.beq b.hash v.block_hash)) [
                | inl h ↦
                    subst (VoteOutcome peers v s) (sym (counted peers v b s h))
                      (counted-VoteOutcome peers v b s half few pend h)
                | inr h ↦ subst (VoteOutcome peers v s) (sym (passed_over peers v b s h)) (inl refl)
              ])
      ])
