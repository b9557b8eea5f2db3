-- ===== src/Ledger/Store/Chain.antt =====
-- crates/vledger-ledger/src/store.rs: verification of the hash chain over the rows of the index.
pub mod Range
use vector_ledger.Common.{
  ℕ, suc, ◌+◌, ◌-◌, ◌^◌, List, [], ◌∷◌, Bool, true, false, not, Option, none, some, unwrap_or,
  Result, ok, err, if◌then◌else◌, ◌>>=◌,
}
use vector_ledger.Common.Bytes.{bytes_eq}
use vector_ledger.Crypto.Hash.{Platform, Hash, zero_hash}
use vector_ledger.Ledger.Entry.{JournalEntry}
use vector_ledger.Ledger.Entry.Hashes.{verify_hashes}
use vector_ledger.Ledger.Error.{LedgerError}
use vector_ledger.Ledger.Store.Database.{Reads, stream_all, scan_range}
use vector_ledger.Ledger.Store.State.{LedgerStore, World}

module _ (P : Platform) where
  -- The loop of both verifications, from the expected hash and a count of what was accepted.
  unfoldable pub verify_rows : Hash → ℕ → List JournalEntry → Result LedgerError (ℕ × Hash)
  unfolding verify_hashes bytes_eq
  verify_rows prev n [] = ok (n, prev)
  verify_rows prev n (e ∷ es) =
      let rest = verify_rows e.chain_hash (suc n) es in
      if not (verify_hashes P e)
      then err (LedgerError.hash_chain_broken e.sequence)
      else if not (bytes_eq e.prev_hash prev)
      then err (LedgerError.chain_linkage_broken e.sequence)
      else rest

  abbrev after_rows : Reads → Result LedgerError (ℕ × Hash) → Result LedgerError (Unit {0})
  after_rows reads (err e) = err e
  after_rows none (ok x) = ok tt
  after_rows (some n) (ok x) = err LedgerError.serialization

  -- An error of SQLite comes after the rows that were read.
  unfoldable pub verify_chain_integrity : Reads → LedgerStore → Result LedgerError (Unit {0})
  unfolding verify_rows stream_all
  verify_chain_integrity reads s =
      after_rows reads (verify_rows zero_hash 0 (stream_all reads s.entry_db))

  abbrev verify_scanned : List JournalEntry → Result LedgerError (ℕ × Hash)
  unfolding verify_rows
  verify_scanned [] = ok (0, zero_hash)
  verify_scanned (e ∷ es) = verify_rows e.prev_hash 0 (e ∷ es)

  -- The count and the last chain hash; an open end is the largest `u64`.
  unfoldable pub verify_chain_range :
      World → Option ℕ → Option ℕ → LedgerStore → Result LedgerError (ℕ × Hash)
  unfolding scan_range verify_scanned
  verify_chain_range w from to s =
      scan_range w.finds_entry (unwrap_or from 1) (unwrap_or to (2 ^ 64 - 1)) s.entry_db
      >>= verify_scanned
