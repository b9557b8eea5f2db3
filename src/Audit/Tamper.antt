-- ===== src/Audit/Tamper.antt =====
-- What a verified audit log (log.rs) commits to.
use vector_ledger.Common.{
  ℕ, ◌<◌, ◌^◌, ◌+◌, ◌≡◌, refl, sym, ap, ◌∙◌, List, [], ◌∷◌, ◌++◌, true, ok, inl, inr, ◌⊎◌, arith,
  map, length, All,
}
use vector_ledger.Common.Bytes.{Bytes, bytes_eq_iff, to_le_bytes}
use vector_ledger.Common.Encoding.{split_equal, u64-Splits}
use vector_ledger.Crypto.Hash.{Collision, collide}
use vector_ledger.Audit.Event.{
  AuditEvent, Encoders, zero_hash_text, verify, canonical_bytes, content_hex, chain_hex,
}
use vector_ledger.Audit.Log.{
  Line, blank, whole, malformed, unreadable, AuditLog, verify_lines, verify_chain, file_lines,
}
use vector_ledger.Audit.Steps.{chain_tip, verify_lines-rest, counted-ok}

-- The events of a file, its blank and spoiled lines left out.
abbrev pub line_events : List Line → List AuditEvent
line_events [] = []
line_events (blank ∷ ls) = line_events ls
line_events (whole e ∷ ls) = e ∷ line_events ls
line_events (malformed ∷ ls) = line_events ls
line_events (unreadable ∷ ls) = line_events ls

abbrev pub events : AuditLog → List AuditEvent
events log = line_events (file_lines log.file)

-- A Rust `u64`.
abbrev pub IsU64 : AuditEvent → Type 0
IsU64 e = e.sequence < 256 ^ 8

-- `hex::encode` prints two characters for a byte, and different bytes differently.
pub record Hexadecimal (C : Encoders) : Type 0 where
  pub hex_length : (b : Bytes) → length (C.hex_encode b) ≡ length b + length b
  pub hex_injective : (x y : Bytes) → C.hex_encode x ≡ C.hex_encode y → x ≡ y

module _ (C : Encoders) where
  -- Two events with the same sequence number, hashes and canonical bytes.
  abbrev pub Same : AuditEvent → AuditEvent → Type 0
  Same d e =
      (d.sequence ≡ e.sequence)
      × (d.prev_hash ≡ e.prev_hash)
      × (d.content_hash ≡ e.content_hash)
      × (d.chain_hash ≡ e.chain_hash)
      × (canonical_bytes C d ≡ canonical_bytes C e)

  abbrev pub AllSame : List AuditEvent → List AuditEvent → Type 0
  AllSame [] [] = Unit {0}
  AllSame [] (e ∷ es) = ⊥
  AllSame (d ∷ ds) [] = ⊥
  AllSame (d ∷ ds) (e ∷ es) = Same d e × AllSame ds es

  -- An accepted event: both hashes are those that its fields give.
  verify-hashes :
      (e : AuditEvent)
      → verify C e ≡ true
      → (content_hex C e ≡ e.content_hash)
        × (chain_hex C e.sequence e.prev_hash (content_hex C e) ≡ e.chain_hash)
  unfolding verify
  verify-hashes e h = ground (
    arith,
    bytes_eq_iff (content_hex C e) e.content_hash,
    bytes_eq_iff (chain_hex C e.sequence e.prev_hash (content_hex C e)) e.chain_hash,
  )

  module _ (H : Hexadecimal C) where
    length-chain_hex : (n : ℕ) (prev content : Bytes) → length (chain_hex C n prev content) ≡ 64
    unfolding chain_hex
    length-chain_hex n prev content = omega (
      arith,
      H.hex_length (C.platform.blake3 (to_le_bytes 8 n ++ prev ++ content)),
      C.platform.length-blake3 (to_le_bytes 8 n ++ prev ++ content),
    )

    length-chain_hash : (e : AuditEvent) → verify C e ≡ true → length e.chain_hash ≡ 64
    length-chain_hash e h =
        ap length (sym (verify-hashes e h).1)
        ∙ length-chain_hex e.sequence e.prev_hash (content_hex C e)

    collide_hex :
        (x y : Bytes)
        → C.hex_encode (C.platform.blake3 x) ≡ C.hex_encode (C.platform.blake3 y)
        → (x ≡ y) ⊎ Collision C.platform
    collide_hex x y h = collide C.platform x y (H.hex_injective _ _ h)

    Same-hashes :
        (d e : AuditEvent)
        → IsU64 d
        → IsU64 e
        → length d.prev_hash ≡ length e.prev_hash
        → verify C d ≡ true
        → verify C e ≡ true
        → d.chain_hash ≡ e.chain_hash
        → Same d e ⊎ Collision C.platform
    unfolding chain_hex content_hex to_le_bytes
    Same-hashes d e fd fe len vd ve h =
        let (cd, hd) = verify-hashes d vd in
        let (ce, he) = verify-hashes e ve in
        elim (collide_hex _ _ (hd ∙ h ∙ sym he)) [
          | inr collision ↦ inr collision
          | inl same ↦
              let (seqs, rest) = u64-Splits 8 d.sequence e.sequence fd fe _ _ same in
              let (prevs, contents) = split_equal d.prev_hash e.prev_hash _ _ len rest in
              elim (collide_hex _ _ contents) [
                | inr collision ↦ inr collision
                | inl bytes ↦ inl (seqs, prevs, sym cd ∙ contents ∙ ce, h, bytes)
              ]
        ]

    chains_agree :
        (p q : Bytes) (ds es : List AuditEvent) (n : ℕ)
        → All IsU64 ds
        → All IsU64 es
        → length p ≡ 64
        → length q ≡ 64
        → verify_lines C p (map whole ds) ≡ ok n
        → verify_lines C q (map whole es) ≡ ok n
        → chain_tip p ds ≡ chain_tip q es
        → ((p ≡ q) × AllSame ds es) ⊎ Collision C.platform
    unfolding verify_lines
    chains_agree p q [] [] n fd fe lp lq vd ve h = inl (h, tt)
    chains_agree p q [] (e ∷ es) n fd fe lp lq vd ve h =
        let (right, linked, rest) = verify_lines-rest C q e (map whole es) n ve in
        let (m, inner, count) = counted-ok C _ n rest in absurd (ground arith)
    chains_agree p q (d ∷ ds) [] n fd fe lp lq vd ve h =
        let (right, linked, rest) = verify_lines-rest C p d (map whole ds) n vd in
        let (m, inner, count) = counted-ok C _ n rest in absurd (ground arith)
    chains_agree p q (d ∷ ds) (e ∷ es) n fd fe lp lq vd ve h =
        let (rd, ld, td) = verify_lines-rest C p d (map whole ds) n vd in
        let (re, le, te) = verify_lines-rest C q e (map whole es) n ve in
        let (m, id, cd) = counted-ok C _ n td in
        let (k, ie, ce) = counted-ok C _ n te in
        let from_d = (bytes_eq_iff d.prev_hash p).0 ld in
        let from_e = (bytes_eq_iff e.prev_hash q).0 le in
        let same_count : k ≡ m = omega arith in
        let sizes : length d.prev_hash ≡ length e.prev_hash =
          ap length from_d ∙ lp ∙ sym lq ∙ ap length (sym from_e) in
        elim (chains_agree d.chain_hash e.chain_hash ds es m fd.1 fe.1 (length-chain_hash d rd)
          (length-chain_hash e re) id (ie ∙ ap ok same_count) h) [
            | inr collision ↦ inr collision
            | inl (heads, tails) ↦ elim (Same-hashes d e fd.0 fe.0 sizes rd re heads) [
              | inr collision ↦ inr collision
              | inl same ↦ inl (sym from_d ∙ same.1 ∙ from_e, (same, tails))
            ]
          ]

    accepted_events :
        (prev : Bytes) (ls : List Line) (n : ℕ)
        → verify_lines C prev ls ≡ ok n
        → (verify_lines C prev (map whole (line_events ls)) ≡ ok n)
    unfolding verify_lines
    accepted_events prev [] n h = h
    accepted_events prev (blank ∷ ls) n h = accepted_events prev ls n h
    accepted_events prev (malformed ∷ ls) n h = cc
    accepted_events prev (unreadable ∷ ls) n h = cc
    accepted_events prev (whole e ∷ ls) n h =
        let (right, linked, rest) = verify_lines-rest C prev e ls n h in
        let (m, inner, count) = counted-ok C _ n rest in
        rw right (rw linked (rw (accepted_events e.chain_hash ls m inner) (rw count refl)))

    -- The chain hash of the last event commits to the whole log: two logs that `verify_chain` accepts
    -- with one count of events, whose last events have one chain hash, agree event for event in the
    -- sequence numbers, the hashes and the canonical bytes that the content hashes are over, or BLAKE3
    -- has collided. The sequence numbers are those of a `u64`, and `hex::encode` behaves as documented.
    pub verify_chain-pins :
        (log log' : AuditLog) (n : ℕ)
        → All IsU64 (events log)
        → All IsU64 (events log')
        → verify_chain C true log ≡ ok n
        → verify_chain C true log' ≡ ok n
        → chain_tip zero_hash_text (events log) ≡ chain_tip zero_hash_text (events log')
        → AllSame (events log) (events log') ⊎ Collision C.platform
    unfolding verify_chain
    verify_chain-pins log log' n f f' v v' h =
        elim (chains_agree zero_hash_text zero_hash_text (events log) (events log') n f f' refl refl
          (accepted_events zero_hash_text (file_lines log.file) n v)
          (accepted_events zero_hash_text (file_lines log'.file) n v') h) [
            | inl (_, same) ↦ inl same
            | inr collision ↦ inr collision
          ]
