-- ===== src/Audit.antt =====
-- crates/vledger-audit: the append-only log of security events, chained by hash.
pub mod Event
pub mod Log
pub mod Steps
pub mod Faults
pub mod Tamper
pub mod Tests
