-- ===== src/Consensus.antt =====
-- lib/consensus.go: the block reward, the messages and votes, the proofs and the leader.
pub mod Reward
pub mod Engine
pub mod Quorum
pub mod Commit
pub mod Messages
pub mod Proposal
pub mod Proofs
pub mod Leader
