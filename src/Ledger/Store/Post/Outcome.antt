-- ===== src/Ledger/Store/Post/Outcome.antt =====
-- How a call of `post_entry` (store.rs) ends, and what it has changed by then.
use vector_ledger.Common.{
  ℕ, ◌+◌, ◌%◌, ◌^◌, ◌≡◌, none, some, Result, ok, err, Result-cases, Option-cases, inl, inr,
}
use vector_ledger.Common.Action.{bind_from, zoom_result}
use vector_ledger.Common.Bytes.{Bytes}
use vector_ledger.Crypto.Hash.{Platform}
use vector_ledger.Crypto.Sign.{Ed25519}
use vector_ledger.Ledger.Entry.{JournalEntry}
use vector_ledger.Ledger.Entry.Hashes.{finalize_chain_hash}
use vector_ledger.Ledger.Entry.Validate.{validate}
use vector_ledger.Ledger.Error.{LedgerError}
use vector_ledger.Ledger.Store.Check.{check_lines, check_totals}
use vector_ledger.Ledger.Store.Post.{
  known_key, take_sequence, entry_written, write_entry, post_new, post_entry,
}
use vector_ledger.Ledger.Store.Records.{Bincode, encode}
use vector_ledger.Ledger.Store.State.{LedgerStore, World}
use vector_ledger.Ledger.Store.Storage.{Storage}

-- The store after a sequence number is taken and the storage has changed.
abbrev pub numbered : LedgerStore → Storage → LedgerStore
numbered s d = record s { storage = d; next_sequence = (s.next_sequence + 1) % 2 ^ 64 }

module _ (P : Platform) where
  -- The entry with the next number, the time and its hashes.
  abbrev pub finalized : World → JournalEntry → LedgerStore → JournalEntry
  finalized w e s =
      finalize_chain_hash P (record e { sequence = s.next_sequence; posted_at = w.now })
        s.last_chain_hash

-- The ends of a write: an error, with the number lost; or the entry is durable and counted.
pub data Written (P : Platform) (w : World) (e : JournalEntry) (s : LedgerStore)
    : Result LedgerError ℕ × LedgerStore → Type 0 where
  lost : (x : LedgerError) (d : Storage) → Written P w e s (err x, numbered s d)
  written :
      (bytes : Bytes) (d : Storage)
      → Written P w e s
          (ok s.next_sequence, entry_written w bytes (finalized P w e s) (numbered s d))

module _ (P : Platform) (S : Ed25519) (B : Bincode) where
  stored-Written :
      (w : World) (e : JournalEntry) (s : LedgerStore) (bytes : Bytes)
      (x : Result LedgerError (ℕ × ℕ) × Storage)
      → Written P w e s (
          bind_from
            (λ _ (t : LedgerStore).
              (ok s.next_sequence, entry_written w bytes (finalized P w e s) t))
            (zoom_result (λ e. e) (λ d s. record s { storage = d }) (numbered s s.storage) x))
  stored-Written w e s bytes (ok a, d) = Written.written bytes d
  stored-Written w e s bytes (err x, d) = Written.lost x d

  pub write_entry-Written :
      (w : World) (e : JournalEntry) (s : LedgerStore) → Written P w e s (write_entry P S B w e s)
  unfolding write_entry take_sequence
  write_entry-Written w e s = elim (Result-cases (encode B.entry (finalized P w e s))) [
    | inl (bytes, h) ↦ rw h (stored-Written w e s bytes _)
    | inr (x, h) ↦ rw h (Written.lost x s.storage)
  ]

-- The ends of a call: an error with no change; the answer of a known key with no change; or, for an
-- entry that passed every check, the end of its write.
pub data Posted (P : Platform) (w : World) (e : JournalEntry) (s : LedgerStore)
    : Result LedgerError ℕ × LedgerStore → Type 0 where
  refused : (x : LedgerError) → Posted P w e s (err x, s)
  known :
      (n : ℕ)
      → validate e ≡ ok tt
      → known_key w e.idempotency_key s ≡ some n
      → Posted P w e s (ok n, s)
  passed :
      (x : Result LedgerError ℕ × LedgerStore)
      → validate e ≡ ok tt
      → known_key w e.idempotency_key s ≡ none
      → check_lines s.currency_registry s.accounts e.approved_by e.lines ≡ ok tt
      → check_totals s.accounts s.balance_cache e.lines ≡ ok tt
      → Written P w e s x
      → Posted P w e s x

module _ (P : Platform) (S : Ed25519) (B : Bincode) where
  post_new-Posted :
      (w : World) (e : JournalEntry) (s : LedgerStore)
      → validate e ≡ ok tt
      → known_key w e.idempotency_key s ≡ none
      → Posted P w e s (post_new P S B w e s)
  unfolding post_new
  post_new-Posted w e s v k =
      elim (Result-cases (check_lines s.currency_registry s.accounts e.approved_by e.lines)) [
        | inr (x, h) ↦ rw h (Posted.refused x)
        | inl (u, h) ↦ rw h (elim (Result-cases (check_totals s.accounts s.balance_cache e.lines)) [
          | inr (x, h') ↦ rw h' (Posted.refused x)
          | inl (u, h') ↦ rw h' (Posted.passed _ v k h h' (write_entry-Written P S B w e s))
        ])
      ]

  -- Every call of `post_entry` ends in one of the ways of `Posted`.
  pub post_entry-Posted :
      (w : World) (e : JournalEntry) (s : LedgerStore) → Posted P w e s (post_entry P S B w e s)
  unfolding post_entry
  post_entry-Posted w e s = elim (Result-cases (validate e)) [
    | inr (x, v) ↦ rw v (Posted.refused x)
    | inl (u, v) ↦ elim (Option-cases (known_key w e.idempotency_key s)) [
      | inl k ↦ rw v (rw k (post_new-Posted w e s v k))
      | inr (n, k) ↦ rw v (rw k (Posted.known n v k))
    ]
  ]
