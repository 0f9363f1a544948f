-- ===== src/Consensus/Messages.antt =====
-- What the messages of lib/consensus.go do to the chain.
use shadowd.Common.{
  ℕ, ◌+◌, ◌≡◌, ◌⊎◌, inl, inr, refl, sym, ap, ◌∙◌, Bool, true, false, Bool-cases, Option, none, some,
  Option-cases, [], ◌∷◌, ◌++◌, arith,
}
use mathlib.Core.Path.{subst}
use shadowd.Common.Text.{Text, bytes, text_eq}
use shadowd.Common.Result.{Result-cases}
use shadowd.Common.State.{◌>>=◌, bind-ok, bind-err}
use shadowd.Chain.{Block}
use shadowd.Chain.Ledger.{Ledger, latest_block, get_block, validate_block}
use shadowd.Chain.Apply.{add_block}
use shadowd.Chain.Linked.{Extends, IsLinked, add_block-Outcome, append-Follows, validate_block-same}
use shadowd.Consensus.Engine.{
  EngineEnv, Engine, BlockProposal, BlockVote, ConsensusMessage, MessageType, msg_block_proposal,
  msg_block_vote, msg_block_commit, has_quorum, call, succeeded, on_proposal, accept_proposal,
  handle_block_proposal, vote_on_block, handle_block_vote, same_hash, settle_if,
  handle_block_commit, handle_message, handle_as, count_vote, on_vote,
}
use shadowd.Consensus.Quorum.{
  recorded, counted, on_pending, no_pending, passed_over, settle_mempool-blocks, commit_if-blocks,
}

module _ {e : EngineEnv} where
  -- the blocks are as they were, or one more that extends the last
  abbrev pub Grows : Engine e → Engine e → Type 0
  Grows s s' =
      (s'.ledger.blocks ≡ s.ledger.blocks)
      ⊎ ((b : Block) × ((prev : Block) × (latest_block s.ledger ≡ some prev)
            × Extends e.chain.sha prev b)
          × (s'.ledger.blocks ≡ s.ledger.blocks ++ (b ∷ [])))

  accept_proposal-blocks :
      (b : Block) (valid : Bool) (s : Engine e)
      → (accept_proposal b valid s).1.ledger.blocks ≡ s.ledger.blocks
  unfolding accept_proposal vote_on_block
  accept_proposal-blocks b false s = refl
  accept_proposal-blocks b true s = refl

  validated-blocks :
      (b : Block) (s : Engine e) → (call (validate_block b) s).1.ledger.blocks ≡ s.ledger.blocks
  validated-blocks b s = ap (λ (l : Ledger e.chain). l.blocks) (validate_block-same b s.ledger)

  valid-blocks :
      (b : Block) (s : Engine e)
      → ((call (validate_block b) >>= λ valid. accept_proposal b (succeeded valid))
          s).1.ledger.blocks
        ≡ s.ledger.blocks
  valid-blocks b s = elim (Result-cases (call (validate_block b) s).0) [
    | inl (r, h) ↦
        ap (λ x. x.1.ledger.blocks)
          (bind-ok (call (validate_block b)) (λ valid. accept_proposal b (succeeded valid)) s h)
        ∙ accept_proposal-blocks b (succeeded r) (call (validate_block b) s).1
        ∙ validated-blocks b s
    | inr (x, h) ↦
        ap (λ y. y.1.ledger.blocks)
          (bind-err (call (validate_block b)) (λ valid. accept_proposal b (succeeded valid)) s h)
        ∙ validated-blocks b s
  ]

  on_proposal-blocks :
      (proposer : Text) (b : Option Block) (s : Engine e)
      → (on_proposal proposer b s).1.ledger.blocks ≡ s.ledger.blocks
  unfolding on_proposal
  on_proposal-blocks proposer none s = refl
  on_proposal-blocks proposer (some b) s = ground (arith, valid-blocks b s)

  proposal-blocks :
      (p : Option BlockProposal) (s : Engine e)
      → (handle_block_proposal p s).1.ledger.blocks ≡ s.ledger.blocks
  unfolding handle_block_proposal on_proposal
  proposal-blocks none s = refl
  proposal-blocks (some p) s = on_proposal-blocks p.proposer p.block s

  no_vote :
      (peers : ℕ) (s : Engine e)
      → (handle_block_vote peers none s).1.ledger.blocks ≡ s.ledger.blocks
  unfolding handle_block_vote on_vote
  no_vote peers s = refl

  pending-Grows :
      (peers : ℕ) (v : BlockVote) (b : Block) (s : Engine e)
      → Grows s (count_vote peers v (some b) s).1
  pending-Grows peers v b s = elim (Bool-cases (text_eq.beq b.hash v.block_hash)) [
    | inr h ↦ subst (λ r. Grows s r.1) (sym (passed_over peers v b s h)) (inl refl)
    | inl h ↦
        subst (λ r. Grows s r.1) (sym (counted peers v b s h))
          (elim (commit_if-blocks (has_quorum e.over_half (peers + 1) (recorded v s).proposal_votes)
            b (recorded v s)) [ inl same ↦ inl same | inr (_, x, more) ↦ inr (b, x, more) ])
  ]

  vote-Grows :
      (peers : ℕ) (v : Option BlockVote) (s : Engine e) → Grows s (handle_block_vote peers v s).1
  vote-Grows peers none s = inl (no_vote peers s)
  vote-Grows peers (some v) s =
      subst (λ r. Grows s r.1) (sym (on_pending peers v s))
        (elim (Option-cases s.pending_proposal) [
          | inl h ↦
              subst (λ r. Grows s r.1)
                (sym (ap (λ o. count_vote peers v o s) h ∙ no_pending peers v s)) (inl refl)
          | inr (b, h) ↦
              subst (λ r. Grows s r.1) (sym (ap (λ o. count_vote peers v o s) h))
                (pending-Grows peers v b s)
        ])

  settle_if-blocks :
      (b : Block) (done : Bool) (s : Engine e)
      → (settle_if b done s).1.ledger.blocks ≡ s.ledger.blocks
  settle_if-blocks b false s = refl
  settle_if-blocks b true s = settle_mempool-blocks b s

  received-blocks :
      (b : Block) (s : Engine e)
      → ((call (add_block true b) >>= λ added. settle_if b (succeeded added)) s).1.ledger.blocks
        ≡ (add_block true b s.ledger).1.blocks
  received-blocks b s = elim (Result-cases (call (add_block true b) s).0) [
    | inl (r, h) ↦
        ap (λ x. x.1.ledger.blocks)
          (bind-ok (call (add_block true b)) (λ added. settle_if b (succeeded added)) s h)
        ∙ settle_if-blocks b (succeeded r) (call (add_block true b) s).1
    | inr (x, h) ↦
        ap (λ y. y.1.ledger.blocks)
          (bind-err (call (add_block true b)) (λ added. settle_if b (succeeded added)) s h)
  ]

  received-Grows :
      (b : Block) (s : Engine e)
      → Grows s ((call (add_block true b) >>= λ added. settle_if b (succeeded added)) s).1
  received-Grows b s = elim (add_block-Outcome true b s.ledger) [
    | inl (same, _) ↦ inl (received-blocks b s ∙ same)
    | inr (x, more, _) ↦ inr (b, x, received-blocks b s ∙ more)
  ]

  commit-Grows : (b : Option Block) (s : Engine e) → Grows s (handle_block_commit b s).1
  unfolding handle_block_commit
  commit-Grows none s = inl refl
  commit-Grows (some b) s = elim (Bool-cases (same_hash b (get_block b.index s.ledger))) [
    | inl h ↦ rw (h, handle_block_commit) (inl refl)
    | inr h ↦ rw (h, handle_block_commit) (received-Grows b s)
  ]

  Grows-IsLinked : (s s' : Engine e) → Grows s s' → IsLinked s.ledger → IsLinked s'.ledger
  unfolding latest_block
  Grows-IsLinked s s' (inl same) f = rw same f
  Grows-IsLinked s s' (inr (b, (prev, h, x), more)) f =
      rw more (append-Follows e.chain.sha 0 (bytes "0") s.ledger.blocks prev b f h x)

  handle_as-Grows :
      (peers : ℕ) (m : ConsensusMessage) (kind : MessageType) (s : Engine e)
      → Grows s (handle_as peers m kind s).1
  unfolding handle_as
  handle_as-Grows peers m msg_block_proposal s = inl (proposal-blocks m.proposal s)
  handle_as-Grows peers m msg_block_vote s = vote-Grows peers m.vote s
  handle_as-Grows peers m msg_block_commit s = commit-Grows m.block s
  handle_as-Grows peers m _ s = inl refl

-- A message, whatever it holds, leaves the blocks of a linked chain as they are or puts one block that
-- extends the last behind them, and the chain stays linked.
pub handle_message-Grows :
    {e : EngineEnv} (peers : ℕ) (m : ConsensusMessage) (s : Engine e)
    → IsLinked s.ledger
    → Grows s (handle_message peers m s).1 × IsLinked (handle_message peers m s).1.ledger
unfolding handle_message
handle_message-Grows peers m s f =
    let g : Grows s (handle_message peers m s).1 = handle_as-Grows peers m m.kind s in
    (g, Grows-IsLinked s (handle_message peers m s).1 g f)
