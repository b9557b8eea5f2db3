-- ===== src/Ledger/Store/Settlement.antt =====
-- crates/vledger-ledger/src/store.rs: the settlement lifecycle, and the status that an entry shows.
use vector_ledger.Common.{Option, none, some, ok_or}
use vector_ledger.Common.Action.{◌>>=◌, ◌>>◌, lift, modify, inspect}
use vector_ledger.Common.Bytes.{Bytes}
use vector_ledger.Common.Dict.{lookup, insert}
use vector_ledger.Crypto.Hash.{Platform}
use vector_ledger.Crypto.Sign.{Ed25519}
use vector_ledger.Ledger.Account.{Uuid}
use vector_ledger.Ledger.Entry.{JournalEntry}
use vector_ledger.Ledger.Error.{EntryStatus, LedgerError}
use vector_ledger.Ledger.Store.Database.{stream_all}
use vector_ledger.Ledger.Store.Records.{Bincode, SettlementEvent, encode, table_settlement_events}
use vector_ledger.Ledger.Store.Reverse.{last_with_id, check_holds}
use vector_ledger.Ledger.Store.State.{LedgerStore, World, Call, on_storage}
use vector_ledger.Ledger.Store.Storage.{persist_row}
use vector_ledger.Wal.Record.{MutationKind}

abbrev status_of_row : Option JournalEntry → EntryStatus
status_of_row none = EntryStatus.posted
status_of_row (some e) = e.status

-- `effective_status`, its three sources in order.
abbrev pub effective_of : Option EntryStatus → Option Uuid → Option JournalEntry → EntryStatus
effective_of (some status) reversal row = status
effective_of none (some r) row = EntryStatus.reversed
effective_of none none row = status_of_row row

unfoldable pub effective_status : World → Uuid → LedgerStore → EntryStatus
unfolding lookup last_with_id stream_all
effective_status w a s =
    effective_of (lookup a s.settlement_event_index) (lookup a s.reversal_event_index)
      (last_with_id a none (stream_all w.reads s.entry_db))

abbrev pub settlement_event : World → Uuid → EntryStatus → Option Bytes → SettlementEvent
settlement_event w a status notes = record {
  entry_id = a;
  new_status = status;
  settled_at = w.now;
  notes = notes;
}

module _ (P : Platform) (S : Ed25519) (B : Bincode) where
  unfoldable pub apply_settlement_event :
      World → Uuid → EntryStatus → Option Bytes → Call (Unit {0})
  unfolding last_with_id stream_all check_holds encode persist_row insert
  apply_settlement_event w a status notes = do
    row ← inspect (λ (s : LedgerStore).
        ok_or (last_with_id a none (stream_all w.reads s.entry_db)) (LedgerError.entry_not_found a))
    inspect (λ (s : LedgerStore). check_holds s.legal_hold_accounts row.lines)
    bytes ← lift (encode B.settlement (settlement_event w a status notes))
    on_storage (persist_row P S w.takes_page table_settlement_events bytes MutationKind.insert none)
    modify (λ (s : LedgerStore). record s {
      settlement_event_index = insert a status s.settlement_event_index;
    })

  unfoldable pub mark_pending : World → Uuid → Option Bytes → Call (Unit {0})
  unfolding apply_settlement_event
  mark_pending w a notes = apply_settlement_event w a EntryStatus.pending notes

  unfoldable pub mark_settled : World → Uuid → Option Bytes → Call (Unit {0})
  unfolding apply_settlement_event
  mark_settled w a notes = apply_settlement_event w a EntryStatus.settled notes

  unfoldable pub mark_failed : World → Uuid → Option Bytes → Call (Unit {0})
  unfolding apply_settlement_event
  mark_failed w a notes = apply_settlement_event w a EntryStatus.failed notes
