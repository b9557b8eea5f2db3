-- ===== src/Crypto/Chain.antt =====
-- crates/vledger-crypto/src/hash.rs: hash chains. A failure keeps the digests that the source prints
-- in hexadecimal.
use vector_ledger.Common.{
  ℕ, ◌<◌, ◌^◌, ◌≡◌, ◌≢◌, refl, sym, ap, ◌∙◌, Bool, false, not, List, [], ◌∷◌, ◌++◌, length, arith,
  if◌then◌else◌, inl, inr, ◌⊎◌, Bool-cases, Result, ok, err, All,
}
use vector_ledger.Common.Bytes.{Bytes, bytes_eq, bytes_eq_iff, to_le_bytes}
use vector_ledger.Common.Encoding.{split_equal, u64-Splits, bytes_eq_refl}
use vector_ledger.Crypto.Hash.{Platform, Hash, zero_hash, hash_bytes, Collision, collide}

pub record ChainEntry : Type 0 where
  pub sequence : ℕ
  pub prev_hash : Hash
  pub content_hash : Hash
  pub chain_hash : Hash

pub data CryptoError : Type 0 where
  hash_chain_broken : ℕ → Hash → Hash → CryptoError
  merkle_proof_invalid : CryptoError

module _ (P : Platform) where
  -- The three updates of the hasher hash the concatenation.
  unfoldable pub compute_chain_hash : ℕ → Hash → Hash → Hash
  compute_chain_hash sequence prev_hash content_hash =
      P.blake3 (to_le_bytes 8 sequence ++ (prev_hash ++ content_hash))

  unfoldable pub new : ℕ → Hash → Bytes → ChainEntry
  unfolding hash_bytes compute_chain_hash
  new sequence prev_chain_hash content = record {
    sequence = sequence;
    prev_hash = prev_chain_hash;
    content_hash = hash_bytes P content;
    chain_hash = compute_chain_hash sequence prev_chain_hash (hash_bytes P content);
  }

  unfoldable pub verify : ChainEntry → Bool
  unfolding compute_chain_hash
  verify e = bytes_eq (compute_chain_hash e.sequence e.prev_hash e.content_hash) e.chain_hash

  -- The loop of `verify_chain`, from a chain hash on.
  unfoldable pub verify_from : Hash → List ChainEntry → Result CryptoError (Unit {0})
  unfolding verify
  verify_from prev [] = ok tt
  verify_from prev (e ∷ es) =
      let rest = verify_from e.chain_hash es in
      if not (verify e)
      then err (hash_chain_broken e.sequence prev e.chain_hash)
      else if not (bytes_eq e.prev_hash prev)
      then err (hash_chain_broken e.sequence prev e.prev_hash)
      else rest

  unfoldable pub verify_chain : List ChainEntry → Result CryptoError (Unit {0})
  unfolding verify_from
  verify_chain es = verify_from zero_hash es

-- The chain hash that the next entry has to name.
abbrev pub tip : Hash → List ChainEntry → Hash
tip prev [] = prev
tip prev (e ∷ es) = tip e.chain_hash es

-- What the Rust types guarantee: a `u64` and digests of 32 bytes.
pub record EntryFits (e : ChainEntry) : Type 0 where
  pub sequence : e.sequence < 256 ^ 8
  pub prev_hash : length e.prev_hash ≡ 32
  pub content_hash : length e.content_hash ≡ 32

module _ (P : Platform) where
  -- One accepted entry: its chain hash is right, it links, and the rest is accepted.
  verify_from-cons :
      (prev : Hash) (e : ChainEntry) (es : List ChainEntry)
      → verify_from P prev (e ∷ es) ≡ ok tt
      → (compute_chain_hash P e.sequence e.prev_hash e.content_hash ≡ e.chain_hash)
        × (e.prev_hash ≡ prev)
        × (verify_from P e.chain_hash es ≡ ok tt)
  unfolding verify_from verify
  verify_from-cons prev e es h = ground (
    arith,
    bytes_eq_iff (compute_chain_hash P e.sequence e.prev_hash e.content_hash) e.chain_hash,
    bytes_eq_iff e.prev_hash prev,
  )

  ChainEntry-eq :
      (d e : ChainEntry)
      → d.sequence ≡ e.sequence
      → d.prev_hash ≡ e.prev_hash
      → d.content_hash ≡ e.content_hash
      → d.chain_hash ≡ e.chain_hash
      → d ≡ e
  ChainEntry-eq d e s p c h = ground arith

  same_link :
      (d e : ChainEntry)
      → EntryFits d
      → EntryFits e
      → compute_chain_hash P d.sequence d.prev_hash d.content_hash ≡ d.chain_hash
      → compute_chain_hash P e.sequence e.prev_hash e.content_hash ≡ e.chain_hash
      → d.chain_hash ≡ e.chain_hash
      → (d ≡ e) ⊎ Collision P
  unfolding compute_chain_hash
  same_link d e fd fe hd he h = elim (collide P _ _ (hd ∙ h ∙ sym he)) [
    | inr collision ↦ inr collision
    | inl same ↦
        let (seqs, rest) = u64-Splits 8 d.sequence e.sequence fd.sequence fe.sequence _ _ same in
        let (prevs, contents) =
          split_equal d.prev_hash e.prev_hash d.content_hash e.content_hash
            (fd.prev_hash ∙ sym fe.prev_hash) rest in
        inl (ChainEntry-eq d e seqs prevs contents h)
  ]

  chains_agree :
      (p q : Hash) (ds es : List ChainEntry)
      → All EntryFits ds
      → All EntryFits es
      → length ds ≡ length es
      → verify_from P p ds ≡ ok tt
      → verify_from P q es ≡ ok tt
      → tip p ds ≡ tip q es
      → ((p ≡ q) × (ds ≡ es)) ⊎ Collision P
  chains_agree p q [] [] fd fe n vd ve h = inl (h, refl)
  chains_agree p q [] (e ∷ es) fd fe n vd ve h = absurd (omega arith)
  chains_agree p q (d ∷ ds) [] fd fe n vd ve h = absurd (omega arith)
  chains_agree p q (d ∷ ds) (e ∷ es) fd fe n vd ve h =
      let (hd, ld, rd) = verify_from-cons p d ds vd in
      let (he, le, re) = verify_from-cons q e es ve in
      elim (chains_agree d.chain_hash e.chain_hash ds es fd.1 fe.1 (omega arith) rd re h) [
        | inr collision ↦ inr collision
        | inl (heads, tails) ↦ elim (same_link d e fd.0 fe.0 hd he heads) [
          | inr collision ↦ inr collision
          | inl same ↦ inl (sym ld ∙ ap (λ (x : ChainEntry). x.prev_hash) same ∙ le, cc)
        ]
      ]

  -- The last chain hash commits to the whole history: two chains of one length, with digests of 32
  -- bytes and `u64` sequence numbers, that `verify_chain` accepts and that end in one chain hash are
  -- equal entry for entry, or BLAKE3 has collided.
  pub verify_chain-commits :
      (ds es : List ChainEntry)
      → All EntryFits ds
      → All EntryFits es
      → length ds ≡ length es
      → verify_chain P ds ≡ ok tt
      → verify_chain P es ≡ ok tt
      → tip zero_hash ds ≡ tip zero_hash es
      → (ds ≡ es) ⊎ Collision P
  unfolding verify_chain
  verify_chain-commits ds es fd fe n vd ve h =
      elim (chains_agree zero_hash zero_hash ds es fd fe n vd ve h) [
        | inl (_, same) ↦ inl same
        | inr collision ↦ inr collision
      ]

  new-verifies :
      (prev : Hash) (seq : ℕ) (content : Bytes)
      → verify_from P prev (new P seq prev content ∷ []) ≡ ok tt
  unfolding verify_from new
  new-verifies prev seq content = rw (bytes_eq_refl _, bytes_eq_refl _)

  verify_from-snoc :
      (prev : Hash) (es : List ChainEntry) (seq : ℕ) (content : Bytes)
      → verify_from P prev (es ++ new P seq (tip prev es) content ∷ []) ≡ verify_from P prev es
  unfolding verify_from
  verify_from-snoc prev [] seq content = new-verifies prev seq content
  verify_from-snoc prev (e ∷ es) seq content =
      rw (verify_from-snoc e.chain_hash es seq content) refl

  -- Appending the entry that `ChainEntry::new` makes from the last chain hash leaves the verdict of
  -- `verify_chain` as it was: an accepted chain stays accepted, and a broken one keeps its error.
  pub verify_chain-append :
      (es : List ChainEntry) (seq : ℕ) (content : Bytes)
      → verify_chain P (es ++ new P seq (tip zero_hash es) content ∷ []) ≡ verify_chain P es
  unfolding verify_chain
  verify_chain-append es seq content = verify_from-snoc zero_hash es seq content

  -- An entry that is wrong after the previous chain hash `prev`: its own chain hash is not the one
  -- its fields give, or it names another predecessor.
  abbrev pub Broken : Hash → ChainEntry → Type 0
  Broken prev e = (verify P e ≡ false) ⊎ (e.prev_hash ≢ prev)

  -- Where a chain breaks: after an accepted part, whose last chain hash is the one expected.
  abbrev pub BreaksAt : Hash → List ChainEntry → ℕ → Hash → Type 0
  BreaksAt prev es seq expected =
      (good : List ChainEntry) × (bad : ChainEntry) × (rest : List ChainEntry) × (es
        ≡ good ++ bad ∷ rest)
      × (verify_from P prev good ≡ ok tt)
      × (bad.sequence ≡ seq)
      × (tip prev good ≡ expected)
      × Broken (tip prev good) bad

  broken_at :
      (prev : Hash) (es : List ChainEntry) (seq : ℕ) (expected actual : Hash)
      → verify_from P prev es ≡ err (hash_chain_broken seq expected actual)
      → BreaksAt prev es seq expected
  unfolding verify_from
  broken_at prev [] seq expected actual h = cc
  broken_at prev (e ∷ es) seq expected actual h = elim (Bool-cases (verify P e)) [
    | inr wrong ↦ ([], e, es, refl, refl, ground arith, ground arith, inl wrong)
    | inl right ↦ elim (Bool-cases (bytes_eq e.prev_hash prev)) [
      | inr off ↦ (
        [],
        e,
        es,
        refl,
        refl,
        ground arith,
        ground arith,
        inr (λ s. cc (sym off ∙ (bytes_eq_iff e.prev_hash prev).1 s)),
      )
      | inl linked ↦
          let later : verify_from P e.chain_hash es ≡ err (hash_chain_broken seq expected actual) =
            ground arith in
          let (good, bad, rest, split, accepted, at, last, why) =
            broken_at e.chain_hash es seq expected actual later in
          (e ∷ good, bad, rest, ap (◌∷◌ e) split, rw right (rw linked accepted), at, last, why)
    ]
  ]

  -- The error of `verify_chain` points at the first broken entry: the entries before it are
  -- accepted and end in the expected hash, and that entry's own chain hash is wrong or it does not
  -- name the expected predecessor.
  pub verify_chain-error :
      (es : List ChainEntry) (seq : ℕ) (expected actual : Hash)
      → verify_chain P es ≡ err (hash_chain_broken seq expected actual)
      → BreaksAt zero_hash es seq expected
  unfolding verify_chain
  verify_chain-error es seq expected actual h = broken_at zero_hash es seq expected actual h
