-- ===== src/Ledger/Entry/Tamper.antt =====
-- What the hashes of an entry (entry.rs) protect: they verify after finalisation, and two entries
-- that verify under one chain hash have one content, or else BLAKE3 has collided.
use vector_ledger.Common.{
  ℕ, ◌<◌, ◌^◌, ◌≡◌, ◌≢◌, sym, ◌∙◌, true, false, arith, inl, inr, ◌⊎◌, Bool-cases, length,
}
use vector_ledger.Common.Bytes.{bytes_eq, bytes_eq_iff}
use vector_ledger.Common.Int.{IsI64}
use vector_ledger.Crypto.Hash.{Platform, Hash, zero_hash, Collision, collide}
use vector_ledger.Ledger.Account.{DateTime}
use vector_ledger.Ledger.Entry.{JournalEntry}
use vector_ledger.Ledger.Entry.Canonical.{canonical_bytes, nanos}
use vector_ledger.Ledger.Entry.Hashes.{
  chain_input, link, precompute_content_hash, finalize_chain_hash, finalize_hashes, verify_hashes,
}
use vector_ledger.Ledger.Entry.Injective.{
  Fits, SameContent, HasTimes, SameTimes, canonical_bytes-content, canonical_bytes-injective,
}
use vector_ledger.Common.Encoding.{split_equal, u64-Splits, bytes_eq_refl}

module _ (P : Platform) where
  -- Verification, as two equations.
  pub verify_hashes_iff :
      (e : JournalEntry)
      → verify_hashes P e ≡ true
      → (P.blake3 (canonical_bytes e) ≡ e.content_hash)
        × (P.blake3 (chain_input P e e.prev_hash) ≡ e.chain_hash)
  unfolding verify_hashes
  verify_hashes_iff e h = ground (
    arith,
    bytes_eq_iff (P.blake3 (canonical_bytes e)) e.content_hash,
    bytes_eq_iff (P.blake3 (chain_input P e e.prev_hash)) e.chain_hash,
  )

  -- An entry whose content hash is unset verifies once its chain hash is finalised.
  pub verify-finalize_chain_hash :
      (e : JournalEntry) (prev : Hash)
      → e.content_hash ≡ zero_hash
      → verify_hashes P (finalize_chain_hash P e prev) ≡ true
  unfolding verify_hashes finalize_chain_hash canonical_bytes
  verify-finalize_chain_hash e prev unset =
      rw ((bytes_eq_iff e.content_hash zero_hash).1 unset) (simp bytes_eq_refl)

  -- Whatever an entry held before, it verifies once `finalize_hashes` has completed it.
  pub verify-finalize_hashes :
      (e : JournalEntry) (prev : Hash) → verify_hashes P (finalize_hashes P e prev) ≡ true
  unfolding verify_hashes finalize_hashes canonical_bytes
  verify-finalize_hashes e prev =
      elim (Bool-cases (bytes_eq (P.blake3 (canonical_bytes e)) zero_hash)) [
        | inl same ↦ rw same (simp bytes_eq_refl)
        | inr other ↦ rw other (simp bytes_eq_refl)
      ]

  finalize_keeps :
      (e : JournalEntry) (prev : Hash)
      → e.content_hash ≢ zero_hash
      → finalize_chain_hash P e prev ≡ link P e prev
  unfolding finalize_chain_hash
  finalize_keeps e prev set = elim (Bool-cases (bytes_eq e.content_hash zero_hash)) [
    | inl same ↦ absurd (set ((bytes_eq_iff e.content_hash zero_hash).0 same))
    | inr other ↦ rw other
  ]

  -- What the store does to an entry whose content hash was computed in advance.
  abbrev pub assigned : JournalEntry → ℕ → DateTime → JournalEntry
  unfolding precompute_content_hash
  assigned e seq now = record e {
    sequence = seq;
    posted_at = now;
    content_hash = P.blake3 (canonical_bytes e);
  }

  assigned-Fits :
      (e : JournalEntry) (seq : ℕ) (now : DateTime)
      → Fits e
      → seq < 256 ^ 8
      → IsI64 (nanos now)
      → (h c : Hash) (prev : Hash)
      → Fits (record e {
        sequence = seq;
        posted_at = now;
        content_hash = h;
        prev_hash = prev;
        chain_hash = c;
      })
  assigned-Fits e seq now f fs fn h c prev = record {
    id = f.id;
    sequence = fs;
    effective_at = f.effective_at;
    posted_at = fn;
    description = f.description;
    domain = f.domain;
    external_ref = f.external_ref;
    idempotency_key = f.idempotency_key;
    reverses_entry_id = f.reverses_entry_id;
    reversed_by_entry_id = f.reversed_by_entry_id;
    approved_by = f.approved_by;
    metadata = f.metadata;
    line_count = f.line_count;
    lines = f.lines;
  }

  -- The hashes do not matter for the sizes.
  pub finalize_hashes-Fits :
      (e : JournalEntry) (prev : Hash) → Fits e → Fits (finalize_hashes P e prev)
  unfolding finalize_hashes
  finalize_hashes-Fits e prev f =
      elim (Bool-cases (bytes_eq (P.blake3 (canonical_bytes e)) zero_hash)) [
        | inl same ↦
            rw same (assigned-Fits e e.sequence e.posted_at f f.sequence f.posted_at _ _ prev)
        | inr other ↦
            rw other (assigned-Fits e e.sequence e.posted_at f f.sequence f.posted_at _ _ prev)
      ]

  stale_content :
      (e : JournalEntry) (seq : ℕ) (now : DateTime) (prev : Hash)
      → Fits e
      → seq < 256 ^ 8
      → IsI64 (nanos now)
      → seq ≢ e.sequence
      → verify_hashes P (link P (assigned e seq now) prev) ≡ true
      → Collision P
  unfolding assigned
  stale_content e seq now prev f fs fn moved v =
      let final = link P (assigned e seq now) prev in
      elim (collide P (canonical_bytes final) (canonical_bytes e) (verify_hashes_iff final v).0) [
        | inr collision ↦ collision
        | inl bytes ↦ absurd (
            moved
              (canonical_bytes-content final e (assigned-Fits e seq now f fs fn _ _ prev) f
                bytes).sequence)
      ]

  -- A content hash computed before the store assigns the sequence number goes stale: if the hash
  -- is not zero and the assigned number differs from the one hashed, the entry that
  -- `finalize_chain_hash` completes fails `verify_hashes`, or BLAKE3 has collided. The entry and
  -- the assigned values are taken to fit the encoding.
  pub precomputed_hash_is_stale :
      (e : JournalEntry) (seq : ℕ) (now : DateTime) (prev : Hash)
      → Fits e
      → seq < 256 ^ 8
      → IsI64 (nanos now)
      → seq ≢ e.sequence
      → P.blake3 (canonical_bytes e) ≢ zero_hash
      → let posted = record (precompute_content_hash P e) { sequence = seq; posted_at = now } in
        (verify_hashes P (finalize_chain_hash P posted prev) ≡ false) ⊎ Collision P
  unfolding precompute_content_hash
  precomputed_hash_is_stale e seq now prev f fs fn moved set =
      rw (finalize_keeps (assigned e seq now) prev set)
        (elim (Bool-cases (verify_hashes P (link P (assigned e seq now) prev))) [
          | inl v ↦ inr (stale_content e seq now prev f fs fn moved v)
          | inr broken ↦ inl broken
        ])

  -- A chain hash commits to the whole entry: two entries that verify and have one chain hash agree
  -- on every field but the content hash, which follows from the others, or BLAKE3 has collided. Both
  -- previous hashes must be of 32 bytes, and both entries must fit the encoding: ids of 16 bytes, a
  -- `u64` sequence number, `i64` amounts, fewer than 2^32 lines, and texts shorter than 2^32 - 1
  -- bytes; and their times must be instants that chrono gives `i64` nanoseconds for, since all other
  -- instants are hashed as 0.
  pub chain_hash_commits :
      (d e : JournalEntry)
      → Fits d
      → Fits e
      → HasTimes d
      → HasTimes e
      → length d.prev_hash ≡ 32
      → length e.prev_hash ≡ 32
      → verify_hashes P d ≡ true
      → verify_hashes P e ≡ true
      → d.chain_hash ≡ e.chain_hash
      → (SameContent d e × SameTimes d e × (d.prev_hash ≡ e.prev_hash)) ⊎ Collision P
  chain_hash_commits d e fd fe td te ld le vd ve h =
      let (cd, hd) = verify_hashes_iff d vd in
      let (ce, he) = verify_hashes_iff e ve in
      elim (collide P (chain_input P d d.prev_hash) (chain_input P e e.prev_hash)
        (hd ∙ h ∙ sym he)) [
          | inr collision ↦ inr collision
          | inl same ↦
              let (seqs, rest) =
                u64-Splits 8 d.sequence e.sequence fd.sequence fe.sequence _ _ same in
              let (prevs, contents) =
                split_equal d.prev_hash e.prev_hash d.content_hash e.content_hash (ld ∙ sym le)
                  rest in
              elim (collide P (canonical_bytes d) (canonical_bytes e) (cd ∙ contents ∙ sym ce)) [
                | inr collision ↦ inr collision
                | inl bytes ↦
                    let (same, times) = canonical_bytes-injective d e fd fe td te bytes in
                    inl (same, times, prevs)
              ]
        ]
