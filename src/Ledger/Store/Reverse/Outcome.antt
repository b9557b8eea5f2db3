-- ===== src/Ledger/Store/Reverse/Outcome.antt =====
-- How a call of `reverse_entry` (store.rs) ends, and what it does to the balances.
use vector_ledger.Common.{◌≡◌, inl, inr, Result, ok, err, Result-cases}
use vector_ledger.Common.Action.{bind_from, zoom_result}
use vector_ledger.Common.Bytes.{Bytes}
use vector_ledger.Common.Dict.{lookup}
use vector_ledger.Crypto.Hash.{Platform}
use vector_ledger.Crypto.Sign.{Ed25519}
use vector_ledger.Ledger.Account.{Uuid}
use vector_ledger.Ledger.Entry.{JournalEntry}
use vector_ledger.Ledger.Entry.Hashes.{finalize_hashes}
use vector_ledger.Ledger.Error.{LedgerError}
use vector_ledger.Ledger.Store.Post.{take_sequence}
use vector_ledger.Ledger.Store.Post.Outcome.{numbered}
use vector_ledger.Ledger.Store.Records.{Bincode, encode}
use vector_ledger.Ledger.Store.Reverse.{
  find_original, check_status, check_holds, check_reversed, reversal_entry, reversal_written,
  reversal_event, write_reversal, reverse_entry,
}
use vector_ledger.Ledger.Store.State.{LedgerStore, World}
use vector_ledger.Ledger.Store.Storage.{Storage}

module _ (P : Platform) where
  -- The reversal of an entry, with its number and its hashes.
  abbrev pub reversed_as : World → Uuid → Bytes → Bytes → JournalEntry → LedgerStore → JournalEntry
  reversed_as w a description domain original s =
      finalize_hashes P
        (record (reversal_entry P w a description domain original) {
          sequence = s.next_sequence;
          posted_at = w.now;
        })
        s.last_chain_hash

-- The ends of a call: an error with no change; an error with the number lost; or the reversal of an
-- entry that passed every check.
pub data Reversed (P : Platform) (w : World) (a : Uuid) (description domain : Bytes)
    (s : LedgerStore) : Result LedgerError Uuid × LedgerStore → Type 0 where
  refused : (x : LedgerError) → Reversed P w a description domain s (err x, s)
  lost :
      (x : LedgerError) (original : JournalEntry) (d : Storage)
      → find_original w a s ≡ ok original
      → check_holds s.legal_hold_accounts original.lines ≡ ok tt
      → check_reversed a (lookup a s.reversal_event_index) ≡ ok tt
      → Reversed P w a description domain s (err x, numbered s d)
  written :
      (original : JournalEntry) (d : Storage)
      → find_original w a s ≡ ok original
      → check_status a original.status ≡ ok tt
      → check_holds s.legal_hold_accounts original.lines ≡ ok tt
      → check_reversed a (lookup a s.reversal_event_index) ≡ ok tt
      → Reversed P w a description domain s (
        ok (reversed_as P w a description domain original s).id,
        reversal_written w a (reversed_as P w a description domain original s) (numbered s d),
      )

module _ (P : Platform) (S : Ed25519) (B : Bincode) where
  stored-Reversed :
      (w : World) (a : Uuid) (description domain : Bytes) (s : LedgerStore)
      (original : JournalEntry) (x : Result LedgerError (Unit {0}) × Storage)
      → find_original w a s ≡ ok original
      → check_status a original.status ≡ ok tt
      → check_holds s.legal_hold_accounts original.lines ≡ ok tt
      → check_reversed a (lookup a s.reversal_event_index) ≡ ok tt
      → Reversed P w a description domain s (
          bind_from
            (λ _ (t : LedgerStore). (
              ok (reversed_as P w a description domain original s).id,
              reversal_written w a (reversed_as P w a description domain original s) t,
            ))
            (zoom_result (λ e. e) (λ d s. record s { storage = d }) (numbered s s.storage) x))
  stored-Reversed w a description domain s o (ok u, d) f c h r = Reversed.written o d f c h r
  stored-Reversed w a description domain s o (err x, d) f c h r = Reversed.lost x o d f h r

  write_reversal-Reversed :
      (w : World) (a : Uuid) (description domain : Bytes) (s : LedgerStore)
      (original : JournalEntry)
      → find_original w a s ≡ ok original
      → check_status a original.status ≡ ok tt
      → check_holds s.legal_hold_accounts original.lines ≡ ok tt
      → check_reversed a (lookup a s.reversal_event_index) ≡ ok tt
      → Reversed P w a description domain s
          (write_reversal P S B w a (reversal_entry P w a description domain original) s)
  unfolding write_reversal take_sequence
  write_reversal-Reversed w a description domain s o f c h r =
      let e = reversed_as P w a description domain o s in
      elim (Result-cases (encode B.entry e)) [
        | inr (x, q) ↦ rw q (Reversed.lost x o s.storage f h r)
        | inl (bytes, q) ↦ elim (Result-cases (encode B.reversal (reversal_event a e))) [
          | inr (x, q') ↦ rw q (rw q' (Reversed.lost x o s.storage f h r))
          | inl (bytes', q') ↦ rw q (rw q' (stored-Reversed w a description domain s o _ f c h r))
        ]
      ]

  -- Every call of `reverse_entry` ends in one of the ways of `Reversed`.
  pub reverse_entry-Reversed :
      (w : World) (a : Uuid) (description domain : Bytes) (s : LedgerStore)
      → Reversed P w a description domain s (reverse_entry P S B w a description domain s)
  unfolding reverse_entry
  reverse_entry-Reversed w a description domain s = elim (Result-cases (find_original w a s)) [
    | inr (x, f) ↦ rw f (Reversed.refused x)
    | inl (o, f) ↦ elim (Result-cases (check_status a o.status)) [
      | inr (x, c) ↦ rw f (rw c (Reversed.refused x))
      | inl (u, c) ↦ elim (Result-cases (check_holds s.legal_hold_accounts o.lines)) [
        | inr (x, h) ↦ rw f (rw c (rw h (Reversed.refused x)))
        | inl (u, h) ↦ elim (Result-cases (check_reversed a (lookup a s.reversal_event_index))) [
          | inr (x, r) ↦ rw f (rw c (rw h (rw r (Reversed.refused x))))
          | inl (u, r) ↦
              rw f (rw c (rw h (rw r (write_reversal-Reversed w a description domain s o f c h r))))
        ]
      ]
    ]
  ]
