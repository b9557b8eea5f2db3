-- ===== src/Crypto/Merkle/Complete.antt =====
-- merkle.rs: `merkle_proof` yields a proof that verifies, for every item.
use vector_ledger.Common.{
  ℕ, zero, suc, ◌+◌, ◌/◌, ◌<◌, ◌≤◌, ◌≡◌, refl, ◌∙◌, true, false, List, [], ◌∷◌, length, get_elem?,
  arith, some, ok, length-map, leb,
}
use vector_ledger.Common.Bytes.{Bytes}
use vector_ledger.Common.Encoding.{bytes_eq_refl}
use vector_ledger.Crypto.Hash.{Platform, Hash, hash_leaf}
use vector_ledger.Crypto.Merkle.{
  ProofStep, MerkleProof, next_layer, climb, leaves, merkle_root, step_hash, walk, verify,
  sibling_index, step_at, proof_step, proof_path, merkle_proof,
}

sibling_index-shift :
    (i n : ℕ) → i < n → sibling_index (suc (suc i)) (suc (suc n)) ≡ suc (suc (sibling_index i n))
unfolding sibling_index
sibling_index-shift i n h = ground arith

proof_step_lem :
    (layer : List Hash) (i : ℕ)
    → proof_step layer i ≡ step_at layer i (sibling_index i (length layer))
unfolding proof_step
proof_step_lem layer i = refl

proof_step-shift :
    (l r : Hash) (rest : List Hash) (i : ℕ)
    → i < length rest
    → proof_step (l ∷ r ∷ rest) (suc (suc i)) ≡ proof_step rest i
unfolding step_at
proof_step-shift l r rest i h =
    rw (proof_step_lem (l ∷ r ∷ rest) (suc (suc i)), proof_step_lem rest i)
      (rw (sibling_index-shift i (length rest) h) (ground arith))

in_range {ℓ} : {A : Type ℓ} (xs : List A) (i : ℕ) {a : A} → get_elem? xs i ≡ some a → i < length xs
in_range [] i h = cc
in_range (x ∷ xs) zero h = omega arith
in_range (x ∷ xs) (suc i) h = omega (arith, in_range xs i h)

half-suc-suc : (i : ℕ) → suc (suc i) / 2 ≡ suc (i / 2)
half-suc-suc i = omega arith

module _ (P : Platform) where
  length-next_layer :
      (layer : List Hash)
      → length (next_layer P layer) + length (next_layer P layer) ≤ length layer + 1
  unfolding next_layer
  length-next_layer [] = omega arith
  length-next_layer (l ∷ []) = omega arith
  length-next_layer (l ∷ r ∷ rest) = omega (arith, length-next_layer rest)

  -- One step of a proof goes from an entry of a layer to its parent in the next.
  proof_step-next :
      (layer : List Hash) (i : ℕ) (h : Hash)
      → get_elem? layer i ≡ some h
      → (s : ProofStep) × (proof_step layer i ≡ some s)
        × (get_elem? (next_layer P layer) (i / 2) ≡ some (step_hash P h s))
  unfolding next_layer proof_step step_at sibling_index step_hash
  proof_step-next [] i h e = cc
  proof_step-next (l ∷ []) zero h e =
      (record { sibling = l; sibling_is_left = false }, refl, ground arith)
  proof_step-next (l ∷ []) (suc i) h e = cc
  proof_step-next (l ∷ r ∷ rest) zero h e =
      (record { sibling = r; sibling_is_left = false }, ground arith, ground arith)
  proof_step-next (l ∷ r ∷ rest) (suc zero) h e =
      (record { sibling = l; sibling_is_left = true }, refl, ground arith)
  proof_step-next (l ∷ r ∷ rest) (suc (suc i)) h e =
      let (s, found, parent) = proof_step-next rest i h e in
      (s, proof_step-shift l r rest i (in_range rest i e) ∙ found, rw (half-suc-suc i) parent)

  -- With as many rounds as the layer is long, both loops end, and the path leads from the entry to
  -- the root.
  path_leads :
      (f : ℕ) (layer : List Hash) (i : ℕ) (h : Hash)
      → get_elem? layer i ≡ some h
      → length layer ≤ suc f
      → (path : List ProofStep) × (root : Hash) × (proof_path P f layer i ≡ some path)
        × (climb P f layer ≡ some root)
        × (walk P h path ≡ root)
  unfolding proof_path climb walk
  path_leads f [] i h e n = cc
  path_leads f (x ∷ []) zero h e n = ([], x, refl, refl, ground arith)
  path_leads f (x ∷ []) (suc i) h e n = cc
  path_leads zero (x ∷ y ∷ rest) i h e n = absurd (omega arith)
  path_leads (suc f) (x ∷ y ∷ rest) i h e n =
      let (s, found, parent) = proof_step-next (x ∷ y ∷ rest) i h e in
      let (path, root, p, c, w) =
        path_leads f (next_layer P (x ∷ y ∷ rest)) (i / 2) (step_hash P h s) parent
          (omega (arith, length-next_layer (x ∷ y ∷ rest))) in
      (s ∷ path, root, rw (found, p), c, w)

  leaf_at :
      (items : List Bytes) (i : ℕ) (d : Bytes)
      → get_elem? items i ≡ some d
      → get_elem? (leaves P items) i ≡ some (hash_leaf P d)
  unfolding leaves
  leaf_at [] i d e = cc
  leaf_at (x ∷ items) zero d e = ground arith
  leaf_at (x ∷ items) (suc i) d e = leaf_at items i d e

  -- Every item has a proof: for an index in range `merkle_proof` succeeds, the proof names the
  -- index, the digest of the item and the Merkle root, and it verifies.
  pub merkle_proof-verifies :
      (items : List Bytes) (i : ℕ) (d : Bytes)
      → get_elem? items i ≡ some d
      → (p : MerkleProof) × (merkle_proof P items i ≡ some p)
        × (p.leaf_index ≡ i)
        × (p.leaf_hash ≡ hash_leaf P d)
        × (merkle_root P items ≡ some p.root)
        × (verify P p ≡ ok tt)
  unfolding merkle_proof merkle_root verify
  merkle_proof-verifies [] i d e = cc
  merkle_proof-verifies (x ∷ items) i d e =
      let leaf = leaf_at (x ∷ items) i d e in
      let (path, root, p, c, w) =
        path_leads (length (x ∷ items)) (leaves P (x ∷ items)) i (hash_leaf P d) leaf
          (omega (arith, length-map (hash_leaf P) items)) in
      let inside : leb (length (x ∷ items)) i ≡ false = ground (arith, in_range (x ∷ items) i e) in
      (
        record { leaf_index = i; leaf_hash = hash_leaf P d; path = path; root = root },
        rw inside (rw (leaf, p, c) refl),
        refl,
        refl,
        c,
        rw (w, bytes_eq_refl root) refl,
      )
