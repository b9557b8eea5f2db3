-- ===== src/Crypto/Hash.antt =====
-- crates/vledger-crypto/src/hash.rs: BLAKE3 digests. BLAKE3 and the printed form of a UUID come from
-- third-party crates, so they are parameters.
use vector_ledger.Common.{ℕ, ◌≡◌, ◌∷◌, ◌++◌, length, replicate, ◌⊎◌, inl, inr, Bool-cases}
use vector_ledger.Common.Bytes.{Bytes, bytes_eq, bytes_eq_iff}

-- A digest is 32 bytes. Feeding a hasher piece by piece hashes the concatenation of the pieces.
pub record Platform : Type 0 where
  pub blake3 : Bytes → Bytes
  pub length-blake3 : (b : Bytes) → length (blake3 b) ≡ 32
  pub uuid_string : ℕ → Bytes

abbrev pub Hash : Type 0
Hash = Bytes

abbrev pub zero_hash : Hash
zero_hash = replicate 32 0

module _ (P : Platform) where
  unfoldable pub hash_bytes : Bytes → Hash
  hash_bytes b = P.blake3 b

  -- Nodes and leaves are told apart by their first byte.
  unfoldable pub hash_node : Hash → Hash → Hash
  hash_node left right = P.blake3 (1 ∷ left ++ right)

  unfoldable pub hash_leaf : Bytes → Hash
  hash_leaf b = P.blake3 (0 ∷ b)

-- Two different inputs with one digest.
abbrev pub Collision : Platform → Type 0
Collision P = (x : Bytes) × (y : Bytes) × (x ≡ y → ⊥) × (P.blake3 x ≡ P.blake3 y)

pub collide : (P : Platform) (x y : Bytes) → P.blake3 x ≡ P.blake3 y → (x ≡ y) ⊎ Collision P
collide P x y h = elim (Bool-cases (bytes_eq x y)) [
  | inl same ↦ inl ((bytes_eq_iff x y).0 same)
  | inr other ↦ inr (x, y, (λ e. cc ((bytes_eq_iff x y).1 e)), h)
]
