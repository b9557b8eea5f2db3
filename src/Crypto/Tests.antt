-- ===== src/Crypto/Tests.antt =====
-- Tests of the crypto modules, and the theorems at concrete inputs. A toy digest stands for BLAKE3:
-- the input cut or padded to 32 bytes.
use vector_ledger.Common.{
  ℕ, zero, suc, ◌≡◌, refl, ap, true, false, List, [], ◌∷◌, length, arith, some, ok, ◌⊎◌, ◌+◌, ◌*◌,
}
use vector_ledger.Common.Bytes.{Bytes, bytes_eq, to_le_bytes}
use vector_ledger.Crypto.Hash.{Platform, Hash, zero_hash, hash_leaf, hash_node, Collision}
use vector_ledger.Crypto.Chain.{
  ChainEntry, new, verify_chain, verify_chain-commits, verify_chain-error, BreaksAt,
}
use vector_ledger.Crypto.Merkle
use vector_ledger.Crypto.Merkle.{MerkleProof, merkle_root, merkle_proof}
use vector_ledger.Crypto.Merkle.Complete.{merkle_proof-verifies}
use vector_ledger.Crypto.Merkle.Sound.{verify-member, In}

abbrev pub pad : ℕ → Bytes → Bytes
pad zero b = []
pad (suc n) [] = 0 ∷ pad n []
pad (suc n) (x ∷ b) = x ∷ pad n b

pub length-pad : (n : ℕ) (b : Bytes) → length (pad n b) ≡ n
length-pad zero b = refl
length-pad (suc n) [] = ap suc (length-pad n [])
length-pad (suc n) (x ∷ b) = ap suc (length-pad n b)

-- The sum of the bytes and the length stand first, so that nearby inputs differ.
abbrev mix : ℕ → Bytes → ℕ
mix n [] = n
mix n (x ∷ b) = mix (n * 3 + x + 1) b

abbrev pub toy : Platform
toy = record {
  blake3 = λ b. pad 32 (mix 0 b ∷ b);
  length-blake3 = λ b. length-pad 32 (mix 0 b ∷ b);
  uuid_string = λ n. n ∷ [];
}

abbrev first : ChainEntry
unfolding new
first = new toy 1 zero_hash (7 ∷ [])

abbrev second : ChainEntry
unfolding new
second = new toy 2 first.chain_hash (8 ∷ [])

abbrev chain : List ChainEntry
unfolding first second
chain = first ∷ second ∷ []

chain_accepted : verify_chain toy chain ≡ ok tt
unfolding chain verify_chain bytes_eq to_le_bytes
chain_accepted = refl

verify_chain-commits_example : (chain ≡ chain) ⊎ Collision toy
unfolding chain to_le_bytes
verify_chain-commits_example =
    verify_chain-commits toy chain chain (omega arith) (omega arith) refl chain_accepted
      chain_accepted refl

-- The second entry alone does not link to the zero hash.
verify_chain-error_example : BreaksAt toy zero_hash (second ∷ []) 2 zero_hash
unfolding second verify_chain bytes_eq to_le_bytes
verify_chain-error_example = verify_chain-error toy (second ∷ []) 2 zero_hash first.chain_hash refl

abbrev pages : List Bytes
pages = (1 ∷ []) ∷ (2 ∷ []) ∷ (3 ∷ []) ∷ []

merkle_proof-verifies_example :
    (p : MerkleProof) × (merkle_proof toy pages 2 ≡ some p)
    × (p.leaf_index ≡ 2)
    × (p.leaf_hash ≡ hash_leaf toy (3 ∷ []))
    × (merkle_root toy pages ≡ some p.root)
    × (Merkle.verify toy p ≡ ok tt)
merkle_proof-verifies_example = merkle_proof-verifies toy pages 2 (3 ∷ []) refl

abbrev leaf : ℕ → Hash
unfolding hash_leaf
leaf n = hash_leaf toy (n ∷ [])

abbrev left_node : Hash
unfolding leaf hash_node
left_node = hash_node toy (leaf 1) (leaf 2)

abbrev third_proof : MerkleProof
unfolding left_node
third_proof = record {
  leaf_index = 2;
  leaf_hash = leaf 3;
  path =
      record { sibling = leaf 3; sibling_is_left = false }
      ∷ record { sibling = left_node; sibling_is_left = true }
      ∷ [];
  root = hash_node toy left_node (hash_node toy (leaf 3) (leaf 3));
}

verify-member_example : In (3 ∷ []) pages ⊎ Collision toy
unfolding third_proof merkle_root Merkle.verify bytes_eq
verify-member_example =
    verify-member toy (1 ∷ []) ((2 ∷ []) ∷ (3 ∷ []) ∷ []) (3 ∷ []) third_proof refl
      (refl, (refl, tt)) refl refl
