-- ===== src/Ledger/Store/State.antt =====
-- crates/vledger-ledger/src/store.rs: the state of `LedgerStore`, and what a call takes from the
-- world outside. The lock file and the path of the directory are left out.
use vector_ledger.Common.{ℕ, List, [], Bool, Option, Fault}
use vector_ledger.Common.Action.{Action, zoom}
use vector_ledger.Common.Bytes.{Bytes}
use vector_ledger.Common.Dict.{Dict, value_at}
use vector_ledger.Common.Int.{ℤ}
use vector_ledger.Crypto.Hash.{Hash, zero_hash}
use vector_ledger.Ledger.Account.{Uuid, DateTime, Account}
use vector_ledger.Ledger.Currency.{CurrencyRegistry, new_registry}
use vector_ledger.Ledger.Error.{EntryStatus, LedgerError}
use vector_ledger.Ledger.Store.Database.{EntryDb, Reads}
use vector_ledger.Ledger.Store.Records.{ReconciliationRecord}
use vector_ledger.Ledger.Store.Storage.{Storage}

-- `storage` holds the transaction manager, the page store and the page cursors.
pub record LedgerStore : Type 0 where
  pub storage : Storage
  pub entry_db : EntryDb
  pub accounts : Dict Account
  pub balance_cache : Dict ℤ
  pub next_sequence : ℕ
  pub last_chain_hash : Hash
  pub reversal_event_index : Dict Uuid
  pub settlement_event_index : Dict EntryStatus
  pub reconciliation_history : List ReconciliationRecord
  pub legal_hold_accounts : List Uuid
  pub currency_registry : CurrencyRegistry
  pub last_committed_entry_bytes : Option Bytes

-- What one call meets: the time, the new ids that it draws, whether the page store takes a page, and
-- what SQLite does with each kind of statement. The faults of the log stand in its environment.
pub record World : Type 0 where
  pub now : DateTime
  pub fresh_id : ℕ → Uuid
  pub takes_page : ℕ → Bool
  pub finds_key : Bool
  pub finds_sequence : Bool
  pub finds_entry : Bool
  pub insert : Fault
  pub links : Uuid → Bool
  pub upserts : Bool
  pub reads : Reads

abbrev pub Call : Type 0 → Type 0
Call A = Action LedgerStore LedgerError A

abbrev pub on_storage : {A : Type 0} → Action Storage LedgerError A → Call A
on_storage m = zoom (λ (s : LedgerStore). s.storage) (λ d s. record s { storage = d }) (λ e. e) m

unfoldable pub balance : Uuid → LedgerStore → ℤ
unfolding value_at
balance a s = value_at a s.balance_cache

unfoldable pub chain_tip : LedgerStore → Hash
chain_tip s = s.last_chain_hash

-- The store that `open` makes of a new directory, over its storage.
unfoldable pub empty_store : Storage → LedgerStore
unfolding new_registry
empty_store d = record {
  storage = d;
  entry_db = record { entries = []; account_entries = []; accounts = [] };
  accounts = [];
  balance_cache = [];
  next_sequence = 1;
  last_chain_hash = zero_hash;
  reversal_event_index = [];
  settlement_event_index = [];
  reconciliation_history = [];
  legal_hold_accounts = [];
  currency_registry = new_registry;
  last_committed_entry_bytes = Option.none;
}
