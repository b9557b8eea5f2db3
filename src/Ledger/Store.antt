-- ===== src/Ledger/Store.antt =====
-- crates/vledger-ledger/src/store.rs and entry_db.rs: the store, over its tables and its storage.
pub mod Database
pub mod Records
pub mod Storage
pub mod State
pub mod Balance
pub mod Check
pub mod Post
pub mod Reverse
pub mod Accounts
pub mod Settlement
pub mod Reconcile
pub mod Chain
pub mod Snapshot
pub mod Books
pub mod Tests
pub mod EventTests
pub mod RunTests
