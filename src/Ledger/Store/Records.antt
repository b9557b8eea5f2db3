-- ===== src/Ledger/Store/Records.antt =====
-- crates/vledger-ledger/src/store.rs: what the store writes beside accounts and entries, and the
-- bincode encoding of its rows, which comes from a third-party crate and is a parameter.
use vector_ledger.Common.{ℕ, List, Option, ok_or, Result}
use vector_ledger.Common.Bytes.{Bytes}
use vector_ledger.Common.Int.{ℤ}
use vector_ledger.Ledger.Account.{Uuid, DateTime, Account}
use vector_ledger.Ledger.Entry.{JournalEntry}
use vector_ledger.Ledger.Error.{EntryStatus, LedgerError}

pub record ReversalEvent : Type 0 where
  pub original_entry_id : Uuid
  pub reversal_entry_id : Uuid
  pub reversed_at : DateTime

pub record SettlementEvent : Type 0 where
  pub entry_id : Uuid
  pub new_status : EntryStatus
  pub settled_at : DateTime
  pub notes : Option Bytes

pub record ReconciliationDiscrepancy : Type 0 where
  pub account_id : Uuid
  pub account_code : Bytes
  pub cached_balance : ℤ
  pub recomputed_balance : ℤ
  pub delta : ℤ

-- The text of the discrepancies in JSON stands as the discrepancies.
pub record ReconciliationRecord : Type 0 where
  pub id : Uuid
  pub run_at : DateTime
  pub entries_scanned : ℕ
  pub accounts_checked : ℕ
  pub discrepancy_count : ℕ
  pub discrepancy_json : List ReconciliationDiscrepancy
  pub ledger_sequence_at_run : ℕ
  pub chain_tip_at_run : Bytes

-- The bincode crate, for one type; `none` is an error.
pub record Codec (A : Type 0) : Type 0 where
  pub encode_to_vec : A → Option Bytes
  pub decode_from_slice : Bytes → Option A

pub record Bincode : Type 0 where
  pub account : Codec Account
  pub entry : Codec JournalEntry
  pub reversal : Codec ReversalEvent
  pub settlement : Codec SettlementEvent
  pub reconciliation : Codec ReconciliationRecord

unfoldable pub encode : {A : Type 0} → Codec A → A → Result LedgerError Bytes
encode c a = ok_or (c.encode_to_vec a) LedgerError.serialization

unfoldable pub decode : {A : Type 0} → Codec A → Bytes → Result LedgerError A
decode c b = ok_or (c.decode_from_slice b) LedgerError.serialization

abbrev pub table_accounts : ℕ
table_accounts = 0

abbrev pub table_entries : ℕ
table_entries = 1

abbrev pub table_reversal_events : ℕ
table_reversal_events = 2

abbrev pub table_settlement_events : ℕ
table_settlement_events = 3

abbrev pub table_reconciliation_events : ℕ
table_reconciliation_events = 4
