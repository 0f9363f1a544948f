-- ===== src/Lib.antt =====
-- shadowd, a blockchain node with custom tokens, offers and liquidity pools.
--
-- The program keeps a set of unspent outputs (UTXOs) in a key-value database behind a cache, a
-- registry of tokens and one of liquidity pools. A transaction is validated without context
-- (lib/transaction.go), waits in the mempool (lib/mempool.go), and when its block is added its
-- effects are applied to the store and the registries (`ProcessTokenTransaction` of
-- lib/utxo_store.go). The chain (lib/chain.go) validates blocks, applies and stores them
-- (lib/block_store.go) and rebuilds the registries from them at a start. The consensus engine
-- (lib/consensus.go) elects leaders, proposes blocks from the mempool, collects proofs of space
-- (lib/farming.go) and votes, and adds a block that has a quorum; the synchronisation (lib/sync.go)
-- fetches the blocks that a node misses from its peers.
--
-- Files, and the code that each models:
--   Common        what the others share: Go's uint64 (Word), strings as lists of bytes (Text), maps
--                 as association lists (Dict), error results (Result), and methods that change what
--                 they point to and may return an error (State), where a change made before an early
--                 return stays.
--   Tx            the data of lib/utxo.go and lib/transaction.go. External: the packages outside the
--                 repository as parameters, with Transaction.Hash and ID. Outputs: the functions on
--                 outputs, inputs and fees. Validate: ValidateTransaction and its validators;
--                 Validate/Accepts: what they accept.
--                 Builder: TxBuilder and CreateSimpleSendTransaction of lib/transaction_types.go,
--                 Builder/Balance: what a simple send spends and pays.
--   Token         lib/tokeninfo.go. Valid and Melt: validation, creation and melt values;
--                 Registry: the registry, and Registry/Tickers its tickers.
--   Pool          lib/liquidity.go; Registry: lib/pool_registry.go; Trade: the arithmetic of the
--                 pool cases of ProcessTokenTransaction, Trade/Product and Trade/Shares the
--                 reserves and shares.
--   Utxo          lib/utxo_store.go. Database: keys, values and the interface of the database;
--                 Store: the operations, Store/Coherent, Store/Spend and Store/Funds what they do;
--                 Transactions: StoreTransaction. Scan: the queries that iterate over the keys, with
--                 Scan/Owned on balances and Scan/Pages on the pages of transactions.
--   Process       ProcessTokenTransaction, a module for each group of cases of its switch;
--                 Pools/Swap: what the swap case does.
--   Mempool       lib/mempool.go; Purge: PurgeInvalidTransactions; Admit: the inputs of the
--                 pending transactions; Limit: their sizes.
--   Minting       lib/token_transactions.go; Context: the validator of melts, which reads the store, and
--                 ValidateTransactionWithContext; Proportions and Accepted: a built melt before it.
--   Trading       what the builders of trades share: the selection of outputs, the fee, the signature.
--                 Offers: lib/swap.go; Liquidity: lib/liquidity_tx.go; Stored: these builders with
--                 their reads of the store. Selected, Balance, Shadow and Wraps: what they spend and
--                 give back. Send: handleSendTransaction of lib/p2p_node.go; Send/Sends: its payments.
--                 Listing: handleListOffers of lib/p2p_node.go; Listing/Unused and Open: what it lists.
--   Builders      the other transactions of lib/transaction_types.go. Balance: what a batch send spends
--                 and pays; Melts: what a partial melt does; Wallet: lib/wallet.go's signed ones.
--   Genesis       lib/genesis.go: the document of the test network and its validation; Checked: what
--                 the validation accepts.
--   Chain         the blocks and their hash (lib/chain.go). Store: lib/block_store.go, Store/Saved what
--                 it holds. Ledger: ValidateBlock, Apply: AddBlock with Apply/Frame what it leaves alone,
--                 Propose: ProposeBlock, Range: the readers, Prune: PruneOldProofs, Open:
--                 NewBlockchain with the rebuilding of the registries (Open/Loaded the blocks,
--                 Open/Preserves to Open/Restored the pools). Linked and Reach: the blocks of a chain and the
--                 chains that a run of the program reaches.
--   Farming       the parts of lib/farming.go that are no input or output, and of lib/challenge.go.
--   Consensus     lib/consensus.go. Engine: the state and the handlers of votes and commits, Quorum and
--                 Commit: what a vote does; Messages: the messages, Proposal: ProposeBlock, Proofs:
--                 the submitted proofs, Leader: the election, Reward: calculateBlockReward.
--   Addresses     lib/address.go; RoundTrip: its texts.
--   Sync          lib/sync.go; Rounds: the loop of SyncFromPeer.
--   Tests         concrete inputs.
--
-- Choices. A byte string is a list of numbers, an address its 32 bytes as one number, a database key
-- a constructor with the parts of the key. A Go map is an association list, so a loop over it visits
-- the entries in the list's order. Arithmetic on uint64 is written with its remainder by 2 ^ 64;
-- theorems that need a product not to wrap say so in a hypothesis. A run-time panic of
-- ProcessTokenTransaction (a slice out of range, a division by zero, a nil pointer) is the error
-- `panic`. Fuel is used in four places: the sort of the mempool has the number of entries, of which each
-- step puts one in its place; `Chain.digits` has 20, the decimal digits of a uint64;
-- `Chain.Store.stored_from` has the number of heights that it visits; `Sync.sync_rounds` has a number
-- of rounds, with a theorem that names a number that is enough. Locks are not modelled: each method
-- holds one from its start to its end, except AddBlock, whose validation runs before its lock and is
-- modelled as run directly before the rest, and the pruning that AddBlock starts in the background
-- and is a call of its own here. A message that the engine publishes is an entry of a list; what peers
-- answer and what a farmer finds is an argument.
--
-- Not modelled: the network, the HTTP interface, the wallet's and the farmer's files, the command
-- line, the embedded genesis text and the database adapters, which are glue around packages outside the
-- repository. Of the handlers in lib/p2p_node.go those of payments and of the list of offers are modelled;
-- the others decode a request, call what is modelled here and encode the answer.
pub mod Common
pub mod Tx
pub mod Token
pub mod Pool
pub mod Utxo
pub mod Process
pub mod Mempool
pub mod Minting
pub mod Trading
pub mod Builders
pub mod Genesis
pub mod Chain
pub mod Farming
pub mod Addresses
pub mod Sync
pub mod Consensus
pub mod Tests
