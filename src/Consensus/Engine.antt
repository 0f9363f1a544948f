-- ===== src/Consensus/Engine.antt =====
-- The `ConsensusEngine` of lib/consensus.go: the handlers of its messages, the proposal of a block and
-- the choice of the leader. What the handlers publish is kept as the list of the messages; the
-- peers are those that the network reports.
use shadowd.Common.{
  ℕ, suc, ◌+◌, ◌/◌, Bool, true, false, ◌&&◌, ◌||◌, Option, none, some, List, [], ◌∷◌, ◌++◌, length,
  is_empty, leb, ltb, ◌==◌, nat_eq, if◌then◌else◌,
}
use shadowd.Common.Text.{Text, text_eq}
use shadowd.Common.Dict.{Dict, insert}
use shadowd.Common.Result.{Result, ok, err}
use shadowd.Common.State.{Action, pure, gets, modify, raise_if, ◌>>=◌, ◌>>◌}
use shadowd.Tx.{Address}
use shadowd.Mempool.{update_block_height, remove_transaction}
use shadowd.Chain.{ProofOfSpace, Block}
use shadowd.Chain.Ledger.{
  ChainEnv, Ledger, ChainError, chain_panic, get_block, get_height, validate_block, propose_block,
}
use shadowd.Chain.Ledger
use shadowd.Chain.Apply.{add_block}
use shadowd.Farming.{PlotEnv}

pub record BlockProposal : Type 0 where
  pub block : Option Block
  pub proposer : Text
  pub timestamp : ℕ

pub record BlockVote : Type 0 where
  pub block_hash : Text
  pub block_index : ℕ
  pub voter : Text
  pub vote : Bool
  pub timestamp : ℕ

pub record ProofSubmission : Type 0 where
  pub block_height : ℕ
  pub proof : Option ProofOfSpace
  pub reward_address : Address
  pub submitter_id : Text

-- `ConsensusMessageType`; `unknown_type` is every other text.
pub data MessageType : Type 0 where
  msg_block_proposal msg_block_vote msg_block_commit : MessageType
  msg_proof_submission unknown_type : MessageType

pub record ConsensusMessage : Type 0 where
  pub kind : MessageType
  pub proposal : Option BlockProposal
  pub vote : Option BlockVote
  pub block : Option Block
  pub submission : Option ProofSubmission
  pub timestamp : ℕ

-- What is outside: the chain's parameters, the plots', and the comparison of the two counts of votes as
-- float64, `float64(yes)/float64(total) > MinVoteThreshold`.
pub record EngineEnv : Type 1 where
  pub chain : ChainEnv
  pub plot : PlotEnv
  pub over_half : ℕ → ℕ → Bool

pub record Engine (e : EngineEnv) : Type 0 where
  pub ledger : Ledger e.chain
  pub node_id : Text
  pub is_leader : Bool
  pub pending_proposal : Option Block
  pub proposal_votes : Dict Text Bool
  pub best_proofs : Dict ℕ ProofSubmission
  pub published : List ConsensusMessage

-- a run-time panic, the only way in which a handler fails
pub data EngineError : Type 0 where
  engine_panic : EngineError

abbrev pub Op : EngineEnv → Type 0 → Type 0
Op e A = Action (Engine e) EngineError A

abbrev pub message : MessageType → ℕ → ConsensusMessage
message kind now = record {
  kind = kind;
  proposal = none;
  vote = none;
  block = none;
  submission = none;
  timestamp = now;
}

-- the loop that counts the votes that are yes
unfoldable pub yes_votes : Dict Text Bool → ℕ
yes_votes [] = 0
yes_votes ((voter, v) ∷ votes) = if v then suc (yes_votes votes) else yes_votes votes

-- the comparison of two texts, `a < b`
unfoldable pub text_ltb : Text → Text → Bool
text_ltb [] [] = false
text_ltb [] (b ∷ bs) = true
text_ltb (a ∷ as') [] = false
text_ltb (a ∷ as') (b ∷ bs) = ltb a b || ((a == b) && text_ltb as' bs)

-- the loop of `leaderElection` over the identifiers, from the leader so far
unfoldable pub lowest : Text → List Text → Text
lowest leader [] = leader
lowest leader (p ∷ ps) = lowest (if is_empty leader || text_ltb p leader then p else leader) ps

unfoldable pub remove_all : {e : EngineEnv} → List Text → Engine e → Engine e
remove_all [] s = s
remove_all (id ∷ ids) s =
    remove_all ids
      (record s { ledger = record (s.ledger) { mempool = remove_transaction id s.ledger.mempool } })

-- what the engine sees of a call of the chain: its error as a value, its panic as a panic
abbrev pub outcome : {A : Type 0} → Result ChainError A → Result EngineError (Result ChainError A)
outcome (ok a) = ok (ok a)
outcome (err chain_panic) = err engine_panic
outcome (err x) = ok (err x)

abbrev pub succeeded : {A : Type 0} → Result ChainError A → Bool
succeeded (ok a) = true
succeeded (err x) = false

-- the test of the quorum in `handleBlockVote`, on the number of nodes and the votes
unfoldable pub has_quorum : (ℕ → ℕ → Bool) → ℕ → Dict Text Bool → Bool
has_quorum over_half nodes votes =
    if nodes == 1
    then ltb 0 (yes_votes votes)
    else leb (nodes / 2 + 1) (length votes) && over_half (yes_votes votes) (length votes)

abbrev pub same_hash : Block → Option Block → Bool
same_hash b none = false
same_hash b (some d) = d.hash == b.hash

module _ {e : EngineEnv} where
  abbrev pub slice : ℕ → Text → Op e (Unit {0})
  slice n t = raise_if (ltb (length t) n) engine_panic

  abbrev pub call : {A : Type 0} → Ledger.Op e.chain A → Op e (Result ChainError A)
  call op s = let (r, l) = op s.ledger in (outcome r, record s { ledger = l })

  -- `publishMessage`
  abbrev pub publish_message : ConsensusMessage → Op e (Unit {0})
  publish_message m = modify (λ s. record s { published = s.published ++ (m ∷ []) })

  -- one round of `leaderElection`, with the identifiers of the connected peers
  unfoldable pub elect_leader : List Text → Engine e → Engine e
  elect_leader peers s = record s { is_leader = lowest [] (s.node_id ∷ peers) == s.node_id }

  abbrev pub set_pending : Option Block → Engine e → Engine e
  set_pending b s = record s { pending_proposal = b; proposal_votes = [] }

  -- `voteOnBlock`
  unfoldable pub vote_on_block : Block → Bool → Op e (Unit {0})
  vote_on_block b approve = do
    id ← gets (λ s. s.node_id)
    let now = e.chain.env.now
    modify (λ s. record s { proposal_votes = insert id approve s.proposal_votes })
    publish_message (record (message msg_block_vote now) {
      vote = some (record {
        block_hash = b.hash;
        block_index = b.index;
        voter = id;
        vote = approve;
        timestamp = now;
      });
    })

  unfoldable pub accept_proposal : Block → Bool → Op e (Unit {0})
  accept_proposal b false = pure tt
  accept_proposal b true = do modify (set_pending (some b)); vote_on_block b true

  unfoldable pub on_proposal : Text → Option Block → Op e (Unit {0})
  unfolding accept_proposal
  on_proposal proposer none = pure tt
  on_proposal proposer (some b) = do
    slice 16 proposer
    valid ← call (validate_block b)
    accept_proposal b (succeeded valid)

  -- `handleBlockProposal`
  unfoldable pub handle_block_proposal : Option BlockProposal → Op e (Unit {0})
  unfolding on_proposal
  handle_block_proposal none = pure tt
  handle_block_proposal (some p) = on_proposal p.proposer p.block

  -- the changes to the mempool behind a block that was added
  abbrev pub settle_mempool : Block → Engine e → Engine e
  settle_mempool b s = remove_all b.transactions (record s {
    ledger = record (s.ledger) { mempool = update_block_height b.index s.ledger.mempool };
  })

  unfoldable pub after_commit : Block → Bool → Op e (Unit {0})
  after_commit b false = pure tt
  after_commit b true = do
    modify (settle_mempool b)
    modify (set_pending none)
    publish_message (record (message msg_block_commit (e.chain.env.now)) { block = some b })

  -- `commitBlock`
  unfoldable pub commit_block : Block → Op e (Unit {0})
  unfolding after_commit
  commit_block b = do added ← call (add_block true b); after_commit b (succeeded added)

  unfoldable pub commit_if : Bool → Block → Op e (Unit {0})
  commit_if false b = pure tt
  commit_if true b = commit_block b

  unfoldable pub count_vote : ℕ → BlockVote → Option Block → Op e (Unit {0})
  unfolding commit_if
  count_vote peers v none = pure tt
  count_vote peers v (some b) =
      if b.hash == v.block_hash
      then (do
        modify (λ s. record s { proposal_votes = insert v.voter v.vote s.proposal_votes })
        votes ← gets (λ s. s.proposal_votes)
        commit_if (has_quorum e.over_half (peers + 1) votes) b)
      else pure tt

  unfoldable pub on_vote : ℕ → Option BlockVote → Op e (Unit {0})
  unfolding count_vote
  on_vote peers none = pure tt
  on_vote peers (some v) = do b ← gets (λ s. s.pending_proposal); count_vote peers v b

  -- `handleBlockVote`, with the number of connected peers
  unfoldable pub handle_block_vote : ℕ → Option BlockVote → Op e (Unit {0})
  unfolding on_vote
  handle_block_vote peers v = on_vote peers v

  abbrev pub settle_if : Block → Bool → Op e (Unit {0})
  settle_if b false = pure tt
  settle_if b true = modify (settle_mempool b)

  -- `handleBlockCommit`
  unfoldable pub handle_block_commit : Option Block → Op e (Unit {0})
  handle_block_commit none = pure tt
  handle_block_commit (some b) = do
    known ← gets (λ s. same_hash b (get_block b.index s.ledger))
    if known then pure tt else (do added ← call (add_block true b); settle_if b (succeeded added))

  unfoldable pub handle_as : ℕ → ConsensusMessage → MessageType → Op e (Unit {0})
  handle_as peers m msg_block_proposal = handle_block_proposal m.proposal
  handle_as peers m msg_block_vote = handle_block_vote peers m.vote
  handle_as peers m msg_block_commit = handle_block_commit m.block
  handle_as peers m _ = pure tt

  -- `handleMessage`
  unfoldable pub handle_message : ℕ → ConsensusMessage → Op e (Unit {0})
  handle_message peers m = handle_as peers m m.kind
