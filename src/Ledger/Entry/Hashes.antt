-- ===== src/Ledger/Entry/Hashes.antt =====
-- The content hash and the chain hash of an entry (entry.rs).
use vector_ledger.Common.{Bool, false, ◌++◌, if◌then◌else◌, not}
use vector_ledger.Common.Bytes.{Bytes, bytes_eq, to_le_bytes}
use vector_ledger.Crypto.Hash.{Platform, Hash, zero_hash, hash_bytes}
use vector_ledger.Ledger.Entry.{JournalEntry}
use vector_ledger.Ledger.Entry.Canonical.{canonical_bytes}

module _ (P : Platform) where
  -- The three updates of the hasher: sequence, previous hash, content hash.
  abbrev pub chain_input : JournalEntry → Hash → Bytes
  chain_input e prev = to_le_bytes 8 e.sequence ++ (prev ++ e.content_hash)

  unfoldable pub precompute_content_hash : JournalEntry → JournalEntry
  unfolding hash_bytes
  precompute_content_hash e = record e { content_hash = hash_bytes P (canonical_bytes e) }

  -- A content hash that is still zero is computed here.
  abbrev pub fill_content_hash : JournalEntry → JournalEntry
  fill_content_hash e = if bytes_eq e.content_hash zero_hash then precompute_content_hash e else e

  abbrev pub link : JournalEntry → Hash → JournalEntry
  link e prev = record e { prev_hash = prev; chain_hash = P.blake3 (chain_input e prev) }

  unfoldable pub finalize_chain_hash : JournalEntry → Hash → JournalEntry
  unfolding precompute_content_hash
  finalize_chain_hash e prev = link (fill_content_hash e) prev

  unfoldable pub finalize_hashes : JournalEntry → Hash → JournalEntry
  unfolding precompute_content_hash finalize_chain_hash
  finalize_hashes e prev = finalize_chain_hash (precompute_content_hash e) prev

  unfoldable pub verify_hashes : JournalEntry → Bool
  unfolding hash_bytes
  verify_hashes e =
      if not (bytes_eq (hash_bytes P (canonical_bytes e)) e.content_hash)
      then false
      else bytes_eq (P.blake3 (chain_input e e.prev_hash)) e.chain_hash
