-- ===== src/Ledger/Store/Post.antt =====
-- crates/vledger-ledger/src/store.rs: `post_entry` and `import_entry_direct`.
pub mod Outcome
pub mod Effect
pub mod Funds
use vector_ledger.Common.{
  ℕ, ◌+◌, ◌%◌, ◌^◌, List, [], ◌∷◌, Bool, true, false, Option, none, some, if◌then◌else◌, ok,
}
use vector_ledger.Common.Action.{◌>>=◌, ◌>>◌, pure, lift, gets, modify, inspect}
use vector_ledger.Common.Bytes.{Bytes, bytes_eq}
use vector_ledger.Common.Dict.{Dict, lookup}
use vector_ledger.Crypto.Hash.{Platform}
use vector_ledger.Crypto.Sign.{Ed25519}
use vector_ledger.Ledger.Account.{Uuid, Account, is_active}
use vector_ledger.Ledger.Entry.{JournalEntry, JournalLine}
use vector_ledger.Ledger.Entry.Hashes.{finalize_chain_hash}
use vector_ledger.Ledger.Entry.Validate.{validate}
use vector_ledger.Ledger.Error.{LedgerError}
use vector_ledger.Ledger.Store.Balance.{update_entry}
use vector_ledger.Ledger.Store.Check.{check_lines, check_totals, check_import}
use vector_ledger.Ledger.Store.Database.{EntryDb, find_key, insert_entry, insert_account_entry}
use vector_ledger.Ledger.Store.Records.{Bincode, encode, table_entries}
use vector_ledger.Ledger.Store.State.{LedgerStore, World, Call, on_storage}
use vector_ledger.Ledger.Store.Storage.{persist_row}
use vector_ledger.Wal.Record.{MutationKind}

abbrev pub answer_key : Bool → Option ℕ → Option ℕ
answer_key works none = none
answer_key works (some n) = some (if works then n else 0)

-- The sequence number that is answered for a known idempotency key; `none` if the entry is to be
-- posted. A failing search for the key counts as not found, one for the number answers 0.
unfoldable pub known_key : World → Option Bytes → LedgerStore → Option ℕ
unfolding find_key
known_key w none s = none
known_key w (some key) s =
    if w.finds_key then answer_key w.finds_sequence (find_key key s.entry_db.entries) else none

-- `next_sequence.fetch_add(1)`.
unfoldable pub take_sequence : Call ℕ
take_sequence s = (ok s.next_sequence, record s { next_sequence = (s.next_sequence + 1) % 2 ^ 64 })

-- The links from the accounts of the lines, after the row.
unfoldable pub link_lines : World → ℕ → List JournalLine → EntryDb → EntryDb
unfolding insert_account_entry
link_lines w n [] db = db
link_lines w n (l ∷ ls) db =
    link_lines w n ls (insert_account_entry (w.links l.account_id) l.account_id n db)

abbrev link_if : World → JournalEntry → Bool × EntryDb → EntryDb
unfolding link_lines
link_if w e (true, db) = link_lines w e.sequence e.lines db
link_if w e (false, db) = db

-- The index after a write: errors of SQLite are only logged.
unfoldable pub index_entry : World → JournalEntry → EntryDb → EntryDb
unfolding insert_entry link_if
index_entry w e db = link_if w e (insert_entry w.insert e db)

-- What changes in memory and in the index once an entry is durable.
unfoldable pub entry_written : World → Bytes → JournalEntry → LedgerStore → LedgerStore
unfolding update_entry index_entry
entry_written w bytes e s = record s {
  last_committed_entry_bytes = some bytes;
  last_chain_hash = e.chain_hash;
  balance_cache = update_entry s.accounts e s.balance_cache;
  entry_db = index_entry w e s.entry_db;
}

module _ (P : Platform) (S : Ed25519) (B : Bincode) where
  -- Steps 5 to 7: the sequence number, the hashes, the durable write, and the state.
  unfoldable pub write_entry : World → JournalEntry → Call ℕ
  unfolding take_sequence finalize_chain_hash encode persist_row entry_written
  write_entry w entry = do
    seq ← take_sequence
    e ← gets (λ (s : LedgerStore).
        finalize_chain_hash P (record entry { sequence = seq; posted_at = w.now })
          s.last_chain_hash)
    bytes ← lift (encode B.entry e)
    on_storage
        (persist_row P S w.takes_page table_entries bytes MutationKind.insert (some e.prev_hash))
    modify (entry_written w bytes e)
    pure seq

  -- Steps 3 to 7.
  unfoldable pub post_new : World → JournalEntry → Call ℕ
  unfolding check_lines check_totals write_entry
  post_new w entry = do
    inspect (λ (s : LedgerStore).
        check_lines s.currency_registry s.accounts entry.approved_by entry.lines)
    inspect (λ (s : LedgerStore). check_totals s.accounts s.balance_cache entry.lines)
    write_entry w entry

  abbrev answer_or_post : World → JournalEntry → Option ℕ → Call ℕ
  unfolding post_new
  answer_or_post w entry none = post_new w entry
  answer_or_post w entry (some seq) = pure seq

  unfoldable pub post_entry : World → JournalEntry → Call ℕ
  unfolding validate known_key answer_or_post
  post_entry w entry = do
    lift (validate entry)
    known ← gets (known_key w entry.idempotency_key)
    answer_or_post w entry known

  -- Only the chain goes on: neither the balances nor the index learn of the entry.
  unfoldable pub import_new : World → JournalEntry → Call ℕ
  unfolding check_import take_sequence finalize_chain_hash encode persist_row
  import_new w entry = do
    inspect (λ (s : LedgerStore). check_import s.accounts entry.lines)
    seq ← take_sequence
    e ← gets (λ (s : LedgerStore).
        finalize_chain_hash P (record entry { sequence = seq; posted_at = w.now })
          s.last_chain_hash)
    bytes ← lift (encode B.entry e)
    on_storage
        (persist_row P S w.takes_page table_entries bytes MutationKind.insert (some e.prev_hash))
    modify (λ (s : LedgerStore). record s { last_chain_hash = e.chain_hash })
    pure seq

  abbrev skip_or_import : World → JournalEntry → Option ℕ → Call ℕ
  unfolding import_new
  skip_or_import w entry none = import_new w entry
  skip_or_import w entry (some seq) = pure 0

  -- An entry whose key is known is skipped, with the answer 0.
  unfoldable pub import_entry_direct : World → JournalEntry → Call ℕ
  unfolding validate known_key skip_or_import
  import_entry_direct w entry = do
    lift (validate entry)
    known ← gets (known_key w entry.idempotency_key)
    skip_or_import w entry known
