-- ===== src/Utxo.antt =====
-- lib/utxo_store.go over the key-value store of lib/bolt_adapter.go. The database and the JSON form
-- of its values are an interface: BoltDB is a package outside the repository. A key of the
-- database, `prefix:part:part`, is a constructor for its prefix with the parts.
pub mod Database
pub mod Store
pub mod Scan
pub mod Transactions
