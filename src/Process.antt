-- ===== src/Process.antt =====
-- `UTXOStore.ProcessTokenTransaction` in lib/utxo_store.go: the effects of a transaction on the token
-- registry, the pool registry and the UTXO set. Each case of its switch is a module.
pub mod World
pub mod Tokens
pub mod Offers
pub mod Pools
pub mod Dispatch
