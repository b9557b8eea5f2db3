-- ===== src/Crypto/Merkle/Sound.antt =====
-- merkle.rs: a proof that verifies against the root of some items is about one of the items, unless
-- BLAKE3 has collided.
use mathlib.Core.Path.{subst}
use vector_ledger.Common.{
  ℕ, zero, suc, ◌≡◌, refl, sym, ap, ◌∙◌, List, [], ◌∷◌, ◌++◌, length, arith, inl, inr, ◌⊎◌, some,
  ok, All, Bool-cases,
}
use vector_ledger.Common.Bytes.{Bytes, bytes_eq_iff}
use vector_ledger.Common.Encoding.{split_equal}
use vector_ledger.Crypto.Hash.{Platform, Hash, hash_leaf, hash_node, Collision, collide}
use vector_ledger.Crypto.Merkle.{
  ProofStep, MerkleProof, next_layer, climb, leaves, merkle_root, step_hash, walk, verify,
}

-- Membership that keeps the place.
abbrev pub In : Bytes → List Bytes → Type 0
In x [] = ⊥
In x (y ∷ ys) = (x ≡ y) ⊎ In x ys

abbrev Digest : Hash → Type 0
Digest h = length h ≡ 32

abbrev pub StepFits : ProofStep → Type 0
StepFits s = length s.sibling ≡ 32

-- A list is empty or ends in an entry.
last_cases :
    (xs : List ProofStep)
    → (xs ≡ []) ⊎ ((front : List ProofStep) × (last : ProofStep) × (xs ≡ front ++ last ∷ []))
last_cases [] = inl refl
last_cases (x ∷ xs) = inr (elim (last_cases xs) [
  | inl empty ↦ ([], x, ap (◌∷◌ x) empty)
  | inr (front, last, e) ↦ (x ∷ front, last, ap (◌∷◌ x) e)
])

All-snoc :
    (xs : List ProofStep) (x : ProofStep)
    → All StepFits (xs ++ x ∷ [])
    → All StepFits xs × StepFits x
All-snoc [] x h = (tt, h.0)
All-snoc (y ∷ ys) x h = let (front, last) = All-snoc ys x h.1 in ((h.0, front), last)

module _ (P : Platform) where
  leaf_ne_node : (d : Bytes) (l r : Hash) → hash_leaf P d ≡ hash_node P l r → Collision P
  unfolding hash_leaf hash_node
  leaf_ne_node d l r h = elim (collide P (0 ∷ d) (1 ∷ l ++ r) h) [
    | inl e ↦ cc
    | inr collision ↦ collision
  ]

  leaf_eq : (c d : Bytes) → hash_leaf P c ≡ hash_leaf P d → (c ≡ d) ⊎ Collision P
  unfolding hash_leaf
  leaf_eq c d h = elim (collide P (0 ∷ c) (0 ∷ d) h) [
    | inl e ↦ inl (cc)
    | inr collision ↦ inr collision
  ]

  node_eq :
      (a b l r : Hash)
      → Digest a
      → Digest l
      → hash_node P a b ≡ hash_node P l r
      → ((a ≡ l) × (b ≡ r)) ⊎ Collision P
  unfolding hash_node
  node_eq a b l r da dl h = elim (collide P (1 ∷ a ++ b) (1 ∷ l ++ r) h) [
    | inl e ↦ inl (split_equal a l b r (da ∙ sym dl) (cc))
    | inr collision ↦ inr collision
  ]

  Digest-node : (l r : Hash) → Digest (hash_node P l r)
  unfolding hash_node
  Digest-node l r = P.length-blake3 _

  Digest-leaf : (d : Bytes) → Digest (hash_leaf P d)
  unfolding hash_leaf
  Digest-leaf d = P.length-blake3 _

  Digest-step : (h : Hash) (s : ProofStep) → Digest (step_hash P h s)
  unfolding step_hash
  Digest-step h s = elim (Bool-cases s.sibling_is_left) [
    | inl left ↦ rw left (Digest-node s.sibling h)
    | inr right ↦ rw right (Digest-node h s.sibling)
  ]

  Digest-walk : (h : Hash) (path : List ProofStep) → Digest h → Digest (walk P h path)
  unfolding walk
  Digest-walk h [] d = d
  Digest-walk h (s ∷ path) d = Digest-walk (step_hash P h s) path (Digest-step h s)

  walk-snoc :
      (h : Hash) (path : List ProofStep) (s : ProofStep)
      → walk P h (path ++ s ∷ []) ≡ step_hash P (walk P h path) s
  unfolding walk
  walk-snoc h [] s = refl
  walk-snoc h (t ∷ path) s = walk-snoc (step_hash P h t) path s

  Digests-leaves : (items : List Bytes) → All Digest (leaves P items)
  unfolding leaves
  Digests-leaves [] = tt
  Digests-leaves (d ∷ items) = (Digest-leaf d, Digests-leaves items)

  Digests-next : (layer : List Hash) → All Digest (next_layer P layer)
  unfolding next_layer
  Digests-next [] = tt
  Digests-next (l ∷ []) = (Digest-node l l, tt)
  Digests-next (l ∷ r ∷ rest) = (Digest-node l r, Digests-next rest)

  -- An entry of the next layer is the digest of two entries of this one.
  parent_of :
      (v : Hash) (layer : List Hash)
      → All Digest layer
      → In v (next_layer P layer)
      → (l : Hash) × (r : Hash) × In l layer × In r layer × Digest l × (v ≡ hash_node P l r)
  unfolding next_layer
  parent_of v [] d i = absurd i
  parent_of v (l ∷ []) d (inl e) = (l, l, inl refl, inl refl, d.0, e)
  parent_of v (l ∷ []) d (inr i) = absurd i
  parent_of v (l ∷ r ∷ rest) d (inl e) = (l, r, inl refl, inr (inl refl), d.0, e)
  parent_of v (l ∷ r ∷ rest) d (inr i) =
      let (a, b, ia, ib, da, e) = parent_of v rest d.1.1 i in
      (a, b, inr (inr ia), inr (inr ib), da, e)

  -- From the leaf `d`, a path whose result stands in the layer proves membership.
  abbrev Sound : List Bytes → Bytes → List Hash → Type 0
  Sound items d layer =
      (path : List ProofStep)
      → All StepFits path
      → In (walk P (hash_leaf P d) path) layer
      → In d items ⊎ Collision P

  In-leaves :
      (items : List Bytes) (v : Hash)
      → In v (leaves P items)
      → (c : Bytes) × In c items × (v ≡ hash_leaf P c)
  unfolding leaves
  In-leaves [] v i = absurd i
  In-leaves (c ∷ items) v (inl e) = (c, inl refl, e)
  In-leaves (c ∷ items) v (inr i) = let (b, ib, e) = In-leaves items v i in (b, inr ib, e)

  step_node :
      (h : Hash) (s : ProofStep)
      → (l : Hash) × (r : Hash) × (step_hash P h s ≡ hash_node P l r)
        × (((l ≡ h) × (r ≡ s.sibling)) ⊎ ((l ≡ s.sibling) × (r ≡ h)))
  unfolding step_hash
  step_node h s = elim (Bool-cases s.sibling_is_left) [
    | inl left ↦ (s.sibling, h, rw left refl, inr (refl, refl))
    | inr right ↦ (h, s.sibling, rw right refl, inl (refl, refl))
  ]

  Sound-leaves : (items : List Bytes) (d : Bytes) → Sound items d (leaves P items)
  unfolding walk
  Sound-leaves items d path fits i =
      let (c, ic, e) = In-leaves items (walk P (hash_leaf P d) path) i in
      elim (last_cases path) [
        | inl empty ↦
            let direct : hash_leaf P d ≡ hash_leaf P c =
              sym (ap (walk P (hash_leaf P d)) empty) ∙ e in
            elim (leaf_eq d c direct) [
              | inl same ↦ inl (subst (λ x. In x items) (sym same) ic)
              | inr collision ↦ inr collision
            ]
        | inr (front, last, split) ↦
            let (l, r, n, _) = step_node (walk P (hash_leaf P d) front) last in
            inr (
              leaf_ne_node c l r (
                sym e
                ∙ ap (walk P (hash_leaf P d)) split
                ∙ walk-snoc (hash_leaf P d) front last
                ∙ n))
      ]

  Sound-next :
      (items : List Bytes) (d : Bytes) (layer : List Hash)
      → All Digest layer
      → Sound items d layer
      → Sound items d (next_layer P layer)
  unfolding walk
  Sound-next items d layer digests sound path fits i =
      let (a, b, ia, ib, da, e) = parent_of (walk P (hash_leaf P d) path) layer digests i in
      elim (last_cases path) [
        | inl empty ↦ inr (leaf_ne_node d a b (sym (ap (walk P (hash_leaf P d)) empty) ∙ e))
        | inr (front, last, split) ↦
            let h = walk P (hash_leaf P d) front in
            let (ff, fl) = All-snoc front last (subst (All StepFits) split fits) in
            let (l, r, n, sides) = step_node h last in
            let dh = Digest-walk (hash_leaf P d) front (Digest-leaf d) in
            let dl : Digest l = elim sides [
              | inl (p, q) ↦ ap length p ∙ dh
              | inr (p, q) ↦ ap length p ∙ fl
            ] in
            let nodes =
              sym n
              ∙ sym (walk-snoc (hash_leaf P d) front last)
              ∙ sym (ap (walk P (hash_leaf P d)) split)
              ∙ e in
            elim (node_eq l r a b dl da nodes) [
              | inr collision ↦ inr collision
              | inl (left, right) ↦ sound front ff (elim sides [
                | inl (p, q) ↦ subst (λ x. In x layer) (sym left ∙ p) ia
                | inr (p, q) ↦ subst (λ x. In x layer) (sym right ∙ q) ib
              ])
            ]
      ]

  Sound-climb :
      (f : ℕ) (items : List Bytes) (d : Bytes) (layer : List Hash) (root : Hash)
      → All Digest layer
      → Sound items d layer
      → climb P f layer ≡ some root
      → (path : List ProofStep) → All StepFits path
      → walk P (hash_leaf P d) path ≡ root
      → In d items ⊎ Collision P
  unfolding climb
  Sound-climb f items d [] root digests sound c path fits w = cc
  Sound-climb f items d (h ∷ []) root digests sound c path fits w =
      let same : h ≡ root = cc in sound path fits (inl (w ∙ sym same))
  Sound-climb zero items d (h ∷ i ∷ rest) root digests sound c path fits w = cc
  Sound-climb (suc f) items d (h ∷ i ∷ rest) root digests sound c path fits w =
      Sound-climb f items d (next_layer P (h ∷ i ∷ rest)) root (Digests-next (h ∷ i ∷ rest))
        (Sound-next items d (h ∷ i ∷ rest) digests sound) c path fits w

  -- Nothing but an item has a proof: if a proof whose leaf hash is that of `d`, and whose siblings
  -- are digests of 32 bytes, verifies against the Merkle root of a non-empty list of items, then `d`
  -- is one of the items, or BLAKE3 has collided.
  pub verify-member :
      (item : Bytes) (items : List Bytes) (d : Bytes) (p : MerkleProof)
      → p.leaf_hash ≡ hash_leaf P d
      → All StepFits p.path
      → merkle_root P (item ∷ items) ≡ some p.root
      → verify P p ≡ ok tt
      → In d (item ∷ items) ⊎ Collision P
  unfolding merkle_root verify
  verify-member item items d p leaf fits root accepted =
      let reached : walk P p.leaf_hash p.path ≡ p.root =
        ground (arith, bytes_eq_iff (walk P p.leaf_hash p.path) p.root) in
      Sound-climb (length (item ∷ items)) (item ∷ items) d (leaves P (item ∷ items)) p.root
        (Digests-leaves (item ∷ items)) (Sound-leaves (item ∷ items) d) root p.path fits
        (ap (λ h. walk P h p.path) (sym leaf) ∙ reached)
