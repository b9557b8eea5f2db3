-- ===== src/Ledger.antt =====
-- crates/vledger-ledger: amounts, accounts, currencies, journal entries and the store.
pub mod Error
pub mod Amount
pub mod Currency
pub mod Account
pub mod Entry
pub mod Store
pub mod Tests
