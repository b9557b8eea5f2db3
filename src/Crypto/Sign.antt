-- ===== src/Crypto/Sign.antt =====
-- Ed25519, as crates/vledger-crypto/src/sign.rs and crates/vledger-wal/src/recovery.rs use the
-- third-party crate: a parameter of the model.
use vector_ledger.Common.{◌≡◌, Bool, true, length}
use vector_ledger.Common.Bytes.{Bytes}

pub record Ed25519 : Type 0 where
  -- The public key of a secret key, and the signature of a message.
  pub public_key : Bytes → Bytes
  pub sign : Bytes → Bytes → Bytes
  -- Whether 32 bytes are a point of the curve, and whether a signature is good.
  pub valid_key : Bytes → Bool
  pub verifies : Bytes → Bytes → Bytes → Bool

-- The documented behaviour: sizes, and a signature made with a key verifies under its public key.
pub record Honest (S : Ed25519) : Type 0 where
  pub length-public_key : (k : Bytes) → length (S.public_key k) ≡ 32
  pub length-sign : (k m : Bytes) → length (S.sign k m) ≡ 64
  pub valid : (k : Bytes) → S.valid_key (S.public_key k) ≡ true
  pub accepts : (k m : Bytes) → S.verifies (S.public_key k) m (S.sign k m) ≡ true
