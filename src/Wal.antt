-- ===== src/Wal.antt =====
-- crates/vledger-wal: the write-ahead log as a sequence of records.
pub mod Record
pub mod Writer
pub mod Recovery
pub mod Tests
