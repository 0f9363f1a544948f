-- ===== src/Consensus/Proposal.antt =====
-- `proposeBlock`, `handleProofSubmission` and the submission of an own proof in `farmingLoop`, of
-- lib/consensus.go.
use shadowd.Common.{
  ℕ, ◌+◌, Bool, true, false, ◌||◌, Option, none, some, List, [], ◌∷◌, take, ltb, nat_eq,
  if◌then◌else◌,
}
use shadowd.Common.Text.{Text, bytes, text_eq}
use shadowd.Common.Word.{add64, sub64, sum64}
use shadowd.Common.Dict.{lookup, insert}
use shadowd.Common.Result.{Result, ok, err}
use shadowd.Common.State.{pure, gets, modify, ◌>>=◌, ◌>>◌}
use shadowd.Tx
use shadowd.Tx.{Address, TxInput, TxOutput, Transaction, Utxo, input_point}
use shadowd.Tx.External.{tx_id, tx_id_or_empty}
use shadowd.Tx.Builder.{new_tx_builder, set_timestamp, add_output, build}
use shadowd.Utxo.Store.{StoreError, get_utxo}
use shadowd.Mempool.{transactions}
use shadowd.Chain.{ProofOfSpace, Block}
use shadowd.Chain.Ledger.{ChainEnv, ChainError, get_height, propose_block}
use shadowd.Farming.{validate_proof_of_space}
use shadowd.Consensus.Reward.{block_reward}
use shadowd.Consensus.Engine.{
  EngineEnv, Engine, engine_panic, Op, ProofSubmission, message, msg_block_proposal,
  msg_proof_submission, call, slice, publish_message,
}

abbrev pub amount_of : Result StoreError (Option Utxo) → ℕ
amount_of (ok (some u)) = u.output.amount
amount_of _ = 0

abbrev pub named : Option Text → List Text → List Text
named none ids = ids
named (some id) ids = id ∷ ids

abbrev pub fee_of : ℕ → ℕ → ℕ
fee_of inputs outputs = if ltb outputs inputs then sub64 inputs outputs else 0

-- the distance of a submission's proof; a missing proof is a nil pointer
abbrev pub distance_of : Option ProofOfSpace → Option ℕ
distance_of none = none
distance_of (some p) = some p.distance

abbrev pub reward_tx : ChainEnv → Address → ℕ → Transaction
reward_tx c to amount = build (
    add_output c.env.ext to amount (bytes "SHADOW")
      (set_timestamp c.env.now (new_tx_builder Tx.coinbase c.env.now)))

abbrev pub proposed_block : Block → ProofSubmission → Block
proposed_block b best = record b {
  winning_proof = best.proof;
  winner_address = some best.reward_address;
}

abbrev pub in_window : ℕ → ℕ → Bool
in_window height h = if ltb h (height + 1) || ltb (height + 1 + 2) h then false else true

module _ {e : EngineEnv} where
  -- the loop over the inputs of one transaction, which drops errors
  unfoldable pub inputs_amount : List TxInput → ℕ → Op e ℕ
  inputs_amount [] total s = (ok total, s)
  inputs_amount (i ∷ is) total s =
      let (r, u) = get_utxo e.chain.env.kv (input_point i) s.ledger.utxo in
      inputs_amount is (add64 total (amount_of r))
        (record s { ledger = record (s.ledger) { utxo = u } })

  unfoldable pub tx_fees : Option Text → Transaction → ℕ → Op e ℕ
  tx_fees none t fees = pure fees
  tx_fees (some id) t fees = do
    inputs ← inputs_amount t.inputs 0
    pure (add64 fees (fee_of inputs (sum64 (λ (o : TxOutput). o.amount) 0 t.outputs)))

  -- the loop over the transactions: their identifiers and their fees
  unfoldable pub collect : List Transaction → ℕ → Op e (List Text × ℕ)
  unfolding tx_fees
  collect [] fees = pure ([], fees)
  collect (t ∷ ts) fees = do
    let id = tx_id e.chain.env.ext t
    fees' ← tx_fees id t fees
    rest ← collect ts fees'
    pure (named id (rest.0), rest.1)

  abbrev pub announce : Block → Op e (Unit {0})
  announce b = do
    id ← gets (λ s. s.node_id)
    let now = e.chain.env.now
    modify (λ s. record s { pending_proposal = some b; proposal_votes = insert id true [] })
    publish_message (record (message msg_block_proposal now) {
      proposal = some (record { block = some b; proposer = id; timestamp = now });
    })

  -- what `ProposeBlock` returns; it has no error
  abbrev pub announce_result : ProofSubmission → Result ChainError Block → Op e (Unit {0})
  announce_result best (ok b) = announce (proposed_block b best)
  announce_result best (err x) = pure tt

  unfoldable pub propose_with : ProofSubmission → Op e (Unit {0})
  propose_with best = do
    slice 16 best.submitter_id
    txs ← gets (λ s. transactions s.ledger.mempool)
    collected ← collect txs 0
    height ← gets (λ s. get_height s.ledger)
    id ← gets (λ s. s.node_id)
    let reward = reward_tx e.chain best.reward_address (add64 (block_reward height) collected.1)
    let ids = tx_id_or_empty e.chain.env.ext reward ∷ take 100 collected.0
    r ← call (propose_block ids id (some reward))
    announce_result best r

  unfoldable pub propose_if : Option ProofSubmission → Op e (Unit {0})
  unfolding propose_with
  propose_if none = pure tt
  propose_if (some best) = elim best.proof [ none ↦ pure tt | some p ↦ propose_with best ]

  -- `proposeBlock`
  unfoldable pub propose : Op e (Unit {0})
  unfolding propose_if
  propose = do best ← gets (λ s. lookup (get_height s.ledger + 1) s.best_proofs); propose_if best

  -- `bestProof == nil || distance < bestProof.Proof.Distance`
  abbrev pub beats : ℕ → Option ProofSubmission → Op e Bool
  beats distance none s = (ok true, s)
  beats distance (some best) s = elim (distance_of best.proof) [
    | none ↦ (err engine_panic, s)
    | some d ↦ (ok (ltb distance d), s)
  ]

  abbrev pub store_proof : ProofSubmission → Engine e → Engine e
  store_proof p s = record s { best_proofs = insert p.block_height p s.best_proofs }

  abbrev pub keep_best : ProofSubmission → Bool → Op e (Unit {0})
  keep_best p false = pure tt
  keep_best p true = do slice 16 p.submitter_id; modify (store_proof p)

  abbrev pub rank_proof : ProofSubmission → ℕ → Op e (Unit {0})
  rank_proof p distance = do
    best ← gets (λ s. lookup p.block_height s.best_proofs)
    better ← beats distance best
    keep_best p better

  abbrev pub window_proof : ProofSubmission → ℕ → ℕ → Op e (Unit {0})
  window_proof p distance height =
      if in_window height p.block_height then rank_proof p distance else pure tt

  unfoldable pub check_proof : ProofSubmission → Option ProofOfSpace → Op e (Unit {0})
  check_proof p none = pure tt
  check_proof p (some proof) = do
    height ← gets (λ s. get_height s.ledger)
    if validate_proof_of_space e.chain.env.ext e.plot proof
        then window_proof p proof.distance height
        else slice 16 p.submitter_id

  -- `handleProofSubmission`
  unfoldable pub handle_proof_submission : Option ProofSubmission → Op e (Unit {0})
  handle_proof_submission none = pure tt
  handle_proof_submission (some p) = check_proof p p.proof

  -- the loop of `listenForProofs` over the submissions that arrive
  unfoldable pub listen_for_proofs : List (Option ProofSubmission) → Op e (Unit {0})
  listen_for_proofs [] = pure tt
  listen_for_proofs (p ∷ ps) = do handle_proof_submission p; listen_for_proofs ps

  -- the part of `farmingLoop` behind the generation of a proof; its message goes to the proofs' topic
  abbrev pub submit_if : ProofSubmission → Bool → Op e (Unit {0})
  submit_if p false = pure tt
  submit_if p true = do
    modify (store_proof p)
    publish_message
        (record (message msg_proof_submission (e.chain.env.now)) { submission = some p })

  unfoldable pub farm_proof : Address → ProofOfSpace → Op e (Unit {0})
  farm_proof to proof = do
    height ← gets (λ s. get_height s.ledger)
    id ← gets (λ s. s.node_id)
    best ← gets (λ s. lookup (height + 1) s.best_proofs)
    better ← beats proof.distance best
    submit_if
        (record {
          block_height = height + 1;
          proof = some proof;
          reward_address = to;
          submitter_id = id;
        })
        better
