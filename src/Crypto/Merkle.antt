-- ===== src/Crypto/Merkle.antt =====
-- crates/vledger-crypto/src/merkle.rs: the Merkle tree over page hashes and its membership proofs.
pub mod Complete
pub mod Sound
use Prim.Native.Nat.{pred}
use vector_ledger.Common.{
  ℕ, zero, suc, ◌+◌, ◌-◌, ◌/◌, ◌%◌, ◌<◌, ◌≤◌, ◌≡◌, refl, sym, ap, ◌∙◌, Bool, true, false, List, [],
  ◌∷◌, ◌++◌, map, length, get_elem?, arith, ltb, leb, ◌==◌, if◌then◌else◌, inl, inr, ◌⊎◌, Option,
  none, some, Result, ok, err, All, min,
}
use vector_ledger.Common.Bytes.{Bytes, bytes_eq, bytes_eq_iff}
use vector_ledger.Common.Encoding.{split_equal, bytes_eq_refl}
use vector_ledger.Crypto.Hash.{Platform, Hash, zero_hash, hash_leaf, hash_node, Collision, collide}
use vector_ledger.Crypto.Chain.{CryptoError, merkle_proof_invalid}

pub record ProofStep : Type 0 where
  pub sibling : Hash
  pub sibling_is_left : Bool

pub record MerkleProof : Type 0 where
  pub leaf_index : ℕ
  pub leaf_hash : Hash
  pub path : List ProofStep
  pub root : Hash

unfoldable pub sibling_index : ℕ → ℕ → ℕ
sibling_index index len = if index % 2 == 0 then min (index + 1) (len - 1) else index - 1

-- The step of `merkle_proof` once the sibling's place is known; `none` is an index out of bounds.
unfoldable pub step_at : List Hash → ℕ → ℕ → Option ProofStep
step_at layer index sibling_index = elim (get_elem? layer sibling_index) [
  | none ↦ none
  | some h ↦ some (record { sibling = h; sibling_is_left = ltb sibling_index index })
]

unfoldable pub proof_step : List Hash → ℕ → Option ProofStep
proof_step layer index = step_at layer index (sibling_index index (length layer))

module _ (P : Platform) where
  -- Two steps of the loop's index take two entries off the layer; the last of an odd layer is
  -- paired with itself.
  unfoldable pub next_layer : List Hash → List Hash
  unfolding hash_node
  next_layer [] = []
  next_layer (l ∷ []) = hash_node P l l ∷ []
  next_layer (l ∷ r ∷ rest) = hash_node P l r ∷ next_layer rest

  -- The loop of `merkle_root`, with a bound on its rounds. `none`: the bound is too small, or the
  -- layer is empty, where `layer[0]` panics.
  unfoldable pub climb : ℕ → List Hash → Option Hash
  unfolding next_layer
  climb f [] = none
  climb f (h ∷ []) = some h
  climb zero (h ∷ i ∷ rest) = none
  climb (suc f) (h ∷ i ∷ rest) = climb f (next_layer (h ∷ i ∷ rest))

  abbrev pub leaves : List Bytes → List Hash
  unfolding hash_leaf
  leaves items = map (hash_leaf P) items

  unfoldable pub merkle_root : List Bytes → Option Hash
  unfolding climb leaves
  merkle_root [] = some zero_hash
  merkle_root (i ∷ items) = climb (length (i ∷ items)) (leaves (i ∷ items))

  abbrev pub step_hash : Hash → ProofStep → Hash
  unfolding hash_node
  step_hash current s =
      if s.sibling_is_left then hash_node P s.sibling current else hash_node P current s.sibling

  unfoldable pub walk : Hash → List ProofStep → Hash
  unfolding step_hash
  walk current [] = current
  walk current (s ∷ path) = walk (step_hash current s) path

  unfoldable pub verify : MerkleProof → Result CryptoError (Unit {0})
  unfolding walk
  verify p = if bytes_eq (walk p.leaf_hash p.path) p.root then ok tt else err merkle_proof_invalid

  abbrev pub prepend : Option ProofStep → Option (List ProofStep) → Option (List ProofStep)
  prepend (some s) (some p) = some (s ∷ p)
  prepend _ _ = none

  unfoldable pub proof_path : ℕ → List Hash → ℕ → Option (List ProofStep)
  unfolding next_layer proof_step
  proof_path f [] index = none
  proof_path f (h ∷ []) index = some []
  proof_path zero (h ∷ i ∷ rest) index = none
  proof_path (suc f) (h ∷ i ∷ rest) index =
      prepend (proof_step (h ∷ i ∷ rest) index)
        (proof_path f (next_layer (h ∷ i ∷ rest)) (index / 2))

  abbrev pub assemble : ℕ → Option Hash → Option (List ProofStep) → Option Hash → Option MerkleProof
  assemble leaf_index (some leaf_hash) (some path) (some root) =
      some (record { leaf_index = leaf_index; leaf_hash = leaf_hash; path = path; root = root })
  assemble _ _ _ _ = none

  unfoldable pub merkle_proof : List Bytes → ℕ → Option MerkleProof
  unfolding proof_path merkle_root leaves
  merkle_proof items leaf_index =
      if leb (length items) leaf_index
      then none
      else assemble leaf_index (get_elem? (leaves items) leaf_index)
          (proof_path (length items) (leaves items) leaf_index) (merkle_root items)
