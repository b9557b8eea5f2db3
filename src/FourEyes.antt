-- ===== src/FourEyes.antt =====
-- crates/vledger-foureyes: the queue of entries that wait for a second person.
pub mod Record
pub mod File
pub mod Queue
pub mod Runs
pub mod Duties
pub mod Once
pub mod Tests
