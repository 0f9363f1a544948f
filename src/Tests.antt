-- ===== src/Tests.antt =====
-- Concrete inputs: sample parameters and data, and each theorem applied to them.
pub mod Fixtures
pub mod Tx
pub mod Token
pub mod Pool
pub mod Utxo
pub mod Mempool
pub mod Minting
pub mod Builders
pub mod Genesis
pub mod Listing
pub mod Trading
pub mod Process
pub mod Chain
pub mod Restored
pub mod Consensus
