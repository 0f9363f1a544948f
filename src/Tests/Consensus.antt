-- ===== src/Tests/Consensus.antt =====
-- A vote, proofs of space, a leader, an address and a synchronisation on concrete inputs.
use shadowd.Common.{
  ◌*◌, ◌≡◌, ◌≢◌, ◌<◌, ◌↔◌, inr, refl, true, none, some, [], ◌∷◌, ◌++◌, length, arith, ltb,
}
use shadowd.Common.Text.{Text, bytes, text_beq, text_eq}
use shadowd.Common.Dict.{lookup, insert}
use shadowd.Common.Result.{ok, err}
use shadowd.Mempool.{erase_all}
use shadowd.Mempool.Purge.{purge_invalid}
use shadowd.Chain.{ProofOfSpace, block_hash, signed_decimal, decimal}
use shadowd.Chain.Store.{save_block, put, block_key_beq}
use shadowd.Chain.Ledger.{latest_block, validate_block, get_height}
use shadowd.Chain.Linked.{IsLinked}
use shadowd.Chain.Apply.{add_block, apply_block, apply_coinbase, apply_all, finish_block}
use shadowd.Farming.{PlotEnv, validate_proof_of_space, plot_proof_data}
use shadowd.Consensus.Engine.{
  EngineEnv, Engine, BlockVote, ProofSubmission, yes_votes, elect_leader, handle_block_vote,
}
use shadowd.Consensus.Quorum.{ExactHalf, Approved, VoteOutcome, handle_block_vote-VoteOutcome}
use shadowd.Consensus.Commit.{handle_block_vote-commits}
use shadowd.Consensus.Leader.{IsLowest, elect_leader_iff}
use shadowd.Consensus.Proposal.{check_proof, handle_proof_submission, listen_for_proofs}
use shadowd.Consensus.Proofs.{BestWithin, listen_for_proofs-BestWithin}
use shadowd.Addresses.{is_valid_address_type, string_with_type, parse_address}
use shadowd.Addresses.RoundTrip.{parse_address-string_with_type}
use shadowd.Sync.{too_many_rounds, Answers, sync_from_peer}
use shadowd.Sync.Rounds.{Adds, IsAnswered, sync_from_peer-ends}
use shadowd.Tests.Fixtures.{toy_ext}
use shadowd.Tests.Chain.{toy_chain, one_block, one_block-IsLinked, second}

abbrev toy_plot : PlotEnv
toy_plot = record { verify_solution = λ h k s d. true; ascii85 = λ t. t; sha256 = λ t. t }

abbrev toy_engine : EngineEnv
toy_engine = record {
  chain = toy_chain;
  plot = toy_plot;
  over_half = λ agreed total. ltb total (2 * agreed);
}

toy_half : ExactHalf toy_engine.over_half
toy_half agreed total h k small = ground arith

abbrev voting : Engine toy_engine
voting = record {
  ledger = one_block;
  node_id = bytes "a";
  is_leader = true;
  pending_proposal = some second;
  proposal_votes = (bytes "a", true) ∷ [];
  best_proofs = [];
  published = [];
}

abbrev agreement : BlockVote
agreement = record {
  block_hash = bytes "0123456789abcdef";
  block_index = 1;
  voter = bytes "b";
  vote = true;
  timestamp = 51;
}

few_votes : length (insert (bytes "b") true voting.proposal_votes) < 9007199254740992
unfolding insert text_beq
few_votes = omega arith

both_agree : Approved 2 (insert (bytes "b") true voting.proposal_votes)
unfolding insert text_beq yes_votes
both_agree = inr ((λ h. omega arith), omega arith, omega arith)

second_accepted : (add_block true second voting.ledger).0 ≡ ok tt
unfolding add_block validate_block latest_block block_hash text_beq apply_block apply_coinbase
    apply_all save_block put finish_block insert block_key_beq purge_invalid erase_all
second_accepted = refl

handle_block_vote-VoteOutcome_example :
    VoteOutcome 1 agreement voting (handle_block_vote 1 (some agreement) voting)
handle_block_vote-VoteOutcome_example =
    handle_block_vote-VoteOutcome 1 agreement voting toy_half few_votes

handle_block_vote-commits_example :
    ((handle_block_vote 1 (some agreement) voting).0 ≡ ok tt)
    × ((handle_block_vote 1 (some agreement) voting).1.ledger.blocks
        ≡ one_block.blocks ++ (second ∷ []))
    × ((handle_block_vote 1 (some agreement) voting).1.pending_proposal ≡ none)
    × ((handle_block_vote 1 (some agreement) voting).1.proposal_votes ≡ [])
handle_block_vote-commits_example =
    handle_block_vote-commits 1 agreement second voting toy_half few_votes refl refl both_agree
      second_accepted

-- a proof that the toy scheme signs
abbrev far_proof : ProofOfSpace
far_proof = record {
  challenge_hash = bytes "c";
  plot_hash = bytes "h";
  plot_public_key = bytes "k";
  plot_signature = bytes "s";
  distance = 7;
  miner_public_key = 8 ∷ [];
  miner_signature = 8 ∷ bytes "c/k/7";
}

abbrev submission : ProofSubmission
submission = record {
  block_height = 2;
  proof = some far_proof;
  reward_address = 5;
  submitter_id = bytes "0123456789abcdef";
}

far_valid : validate_proof_of_space toy_ext toy_plot far_proof ≡ true
unfolding validate_proof_of_space plot_proof_data signed_decimal decimal text_beq
far_valid = refl

heard : (listen_for_proofs (none ∷ some submission ∷ []) voting).0 ≡ ok tt
unfolding listen_for_proofs handle_proof_submission check_proof validate_proof_of_space
    plot_proof_data signed_decimal decimal text_beq get_height lookup insert
heard = refl

listen_for_proofs-BestWithin_example :
    BestWithin 2 7 (listen_for_proofs (none ∷ some submission ∷ []) voting).1
unfolding get_height
listen_for_proofs-BestWithin_example =
    listen_for_proofs-BestWithin (none ∷ some submission ∷ []) 1 submission far_proof voting heard
      refl refl far_valid refl

elect_leader_iff_example :
    ((elect_leader (bytes "b" ∷ bytes "c" ∷ []) voting).is_leader ≡ true)
    ↔ IsLowest (bytes "a") (bytes "b" ∷ bytes "c" ∷ [])
elect_leader_iff_example =
    elect_leader_iff (bytes "b" ∷ bytes "c" ∷ []) voting refl (refl, (refl, tt))

-- a hash of 32 bytes
abbrev toy_blake : Text → Text
toy_blake s = bytes "0123456789ABCDEFfedcba9876543210"

abbrev sample_address : Text
sample_address = bytes "the thirty-two bytes of an owner"

parse_address-string_with_type_example :
    (s : Text) × (string_with_type toy_blake 83 sample_address ≡ some s)
    × (parse_address toy_blake s ≡ ok (sample_address, 83))
unfolding is_valid_address_type
parse_address-string_with_type_example =
    parse_address-string_with_type toy_blake 83 sample_address (λ s. refl) refl refl (ground arith)

abbrev one_answer : Answers
one_answer n start end = some (some second ∷ [])

sync_from_peer-ends_example :
    ((sync_from_peer (some 1) one_answer one_block).0 ≢ err too_many_rounds)
    × Adds (IsAnswered one_answer) one_block (sync_from_peer (some 1) one_answer one_block).1
    × IsLinked (sync_from_peer (some 1) one_answer one_block).1
sync_from_peer-ends_example =
    sync_from_peer-ends 1 one_answer one_block (omega arith) one_block-IsLinked
