-- ===== src/Crypto.antt =====
-- crates/vledger-crypto: hashes and hash chains (hash.rs) and Merkle trees (merkle.rs).
pub mod Hash
pub mod Chain
pub mod Merkle
pub mod Sign
pub mod Tests
