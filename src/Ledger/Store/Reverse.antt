-- ===== src/Ledger/Store/Reverse.antt =====
-- crates/vledger-ledger/src/store.rs: `reverse_entry`.
pub mod Outcome
pub mod Once
use vector_ledger.Common.{
  ℕ, ◌++◌, List, [], ◌∷◌, Bool, true, false, Option, none, some, if◌then◌else◌, ◌==◌, Result, ok,
  err, ok_or, is_some, length, suc,
}
use vector_ledger.Common.Action.{◌>>=◌, ◌>>◌, pure, lift, gets, modify, inspect}
use vector_ledger.Common.Bytes.{Bytes, codes}
use vector_ledger.Common.Dict.{Dict, lookup, insert, member}
use vector_ledger.Crypto.Hash.{Platform, Hash, zero_hash}
use vector_ledger.Crypto.Sign.{Ed25519}
use vector_ledger.Ledger.Account.{Uuid, DateTime}
use vector_ledger.Ledger.Entry.{JournalEntry, JournalLine, DrCr}
use vector_ledger.Ledger.Entry.Hashes.{finalize_hashes}
use vector_ledger.Ledger.Error.{EntryStatus, LedgerError}
use vector_ledger.Ledger.Store.Balance.{update_lines}
use vector_ledger.Ledger.Store.Database.{EntryDb, stream_all, get_by_sequence}
use vector_ledger.Ledger.Store.Post.{take_sequence, index_entry}
use vector_ledger.Ledger.Store.Records.{
  Bincode, ReversalEvent, encode, table_entries, table_reversal_events,
}
use vector_ledger.Ledger.Store.State.{LedgerStore, World, Call, on_storage}
use vector_ledger.Ledger.Store.Storage.{persist_row_pair}

-- The last row with an id, of those that the scan reads.
unfoldable pub last_with_id : Uuid → Option JournalEntry → List JournalEntry → Option JournalEntry
last_with_id a found [] = found
last_with_id a found (e ∷ es) = last_with_id a (if e.id == a then some e else found) es

abbrev pub row_or_missing :
    Uuid → Result LedgerError (Option JournalEntry) → Result LedgerError JournalEntry
row_or_missing a (err e) = err e
row_or_missing a (ok row) = ok_or row (LedgerError.entry_not_found a)

-- A second query, by the sequence number of the row that the scan found.
unfoldable pub fetch :
    World → Uuid → Option JournalEntry → EntryDb → Result LedgerError JournalEntry
unfolding get_by_sequence
fetch w a none db = err (LedgerError.entry_not_found a)
fetch w a (some e) db = row_or_missing a (get_by_sequence w.finds_entry e.sequence db)

unfoldable pub find_original : World → Uuid → LedgerStore → Result LedgerError JournalEntry
unfolding last_with_id stream_all fetch
find_original w a s = fetch w a (last_with_id a none (stream_all w.reads s.entry_db)) s.entry_db

unfoldable pub check_status : Uuid → EntryStatus → Result LedgerError (Unit {0})
check_status a EntryStatus.posted = ok tt
check_status a other = err (LedgerError.cannot_reverse a other)

-- The loop over the lines, in the set of the accounts under a hold.
unfoldable pub check_holds : List Uuid → List JournalLine → Result LedgerError (Unit {0})
unfolding member
check_holds held [] = ok tt
check_holds held (l ∷ ls) =
    let rest = check_holds held ls in
    if member l.account_id held
    then err (LedgerError.account_under_legal_hold l.account_id)
    else rest

unfoldable pub check_reversed : Uuid → Option Uuid → Result LedgerError (Unit {0})
check_reversed a none = ok tt
check_reversed a (some r) = err (LedgerError.already_reversed a r)

abbrev pub flip : DrCr → DrCr
flip DrCr.debit = DrCr.credit
flip DrCr.credit = DrCr.debit

-- The printed form of an id comes from the platform. The ids of the new lines are drawn in order.
unfoldable pub flip_lines : Platform → (ℕ → Uuid) → ℕ → List JournalLine → List JournalLine
flip_lines P ids n [] = []
flip_lines P ids n (l ∷ ls) =
    record l {
      id = ids n;
      dr_cr = flip l.dr_cr;
      memo = some (codes "Reversal of line " ++ P.uuid_string l.id);
    }
    ∷ flip_lines P ids (suc n) ls

-- The id of the entry is the first one drawn after those of the lines.
unfoldable pub reversal_entry :
    Platform → World → Uuid → Bytes → Bytes → JournalEntry → JournalEntry
unfolding flip_lines
reversal_entry P w a description domain original = record {
  id = w.fresh_id (length original.lines);
  sequence = 0;
  status = EntryStatus.reversal;
  description = description;
  lines = flip_lines P w.fresh_id 0 original.lines;
  effective_at = w.now;
  posted_at = w.now;
  external_ref = none;
  idempotency_key = none;
  reverses_entry_id = some a;
  reversed_by_entry_id = none;
  domain = domain;
  content_hash = zero_hash;
  prev_hash = zero_hash;
  chain_hash = zero_hash;
  approved_by = none;
  metadata = none;
}

-- The lines count whatever the status: it is `Reversal`.
unfoldable pub reversal_written : World → Uuid → JournalEntry → LedgerStore → LedgerStore
unfolding update_lines index_entry insert
reversal_written w a e s = record s {
  last_chain_hash = e.chain_hash;
  reversal_event_index = insert a e.id s.reversal_event_index;
  balance_cache = update_lines s.accounts e.lines s.balance_cache;
  entry_db = index_entry w e s.entry_db;
}

abbrev pub reversal_event : Uuid → JournalEntry → ReversalEvent
reversal_event a e = record {
  original_entry_id = a;
  reversal_entry_id = e.id;
  reversed_at = e.posted_at;
}

module _ (P : Platform) (S : Ed25519) (B : Bincode) where
  unfoldable pub write_reversal : World → Uuid → JournalEntry → Call Uuid
  unfolding take_sequence finalize_hashes encode persist_row_pair reversal_written
  write_reversal w a reversal = do
    seq ← take_sequence
    e ← gets (λ (s : LedgerStore).
        finalize_hashes P (record reversal { sequence = seq; posted_at = w.now }) s.last_chain_hash)
    entry_bytes ← lift (encode B.entry e)
    event_bytes ← lift (encode B.reversal (reversal_event a e))
    on_storage (
        persist_row_pair P S w.takes_page table_entries entry_bytes (some e.prev_hash)
          table_reversal_events event_bytes)
    modify (reversal_written w a e)
    pure e.id

  unfoldable pub reverse_entry : World → Uuid → Bytes → Bytes → Call Uuid
  unfolding find_original check_status check_holds lookup check_reversed reversal_entry
      write_reversal
  reverse_entry w a description domain = do
    original ← inspect (find_original w a)
    lift (check_status a original.status)
    inspect (λ (s : LedgerStore). check_holds s.legal_hold_accounts original.lines)
    inspect (λ (s : LedgerStore). check_reversed a (lookup a s.reversal_event_index))
    write_reversal w a (reversal_entry P w a description domain original)

unfoldable pub is_reversed : Uuid → LedgerStore → Bool
unfolding lookup
is_reversed a s = is_some (lookup a s.reversal_event_index)

unfoldable pub reversed_by : Uuid → LedgerStore → Option Uuid
unfolding lookup
reversed_by a s = lookup a s.reversal_event_index
