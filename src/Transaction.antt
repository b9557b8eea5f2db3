-- ===== src/Transaction.antt =====
-- crates/vledger-transaction/src: transactions, their manager, and visibility.
pub mod Tx
pub mod Manager
pub mod Records
pub mod Verified
pub mod Replay
pub mod Valid
pub mod Steps
pub mod Stranded
pub mod Commit
pub mod Reuse
pub mod Idempotent
pub mod Tests
pub mod RestartTests
pub mod KeyTests
pub mod Mvcc
