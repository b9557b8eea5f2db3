-- ===== src/Ledger/Error.antt =====
-- crates/vledger-ledger/src/error.rs. Ids stand where the source prints them into the message. `page`
-- and `serialization` stand without their text; two texts that the store gives are told apart.
use vector_ledger.Common.{ℕ}
use vector_ledger.Common.Int.{ℤ}
use vector_ledger.Common.Bytes.{Bytes}
use vector_ledger.Transaction.Tx.{TxError}

-- Lifecycle status of a journal entry (entry.rs).
pub data EntryStatus : Type 0 where
  posted reversed reversal pending_approval rejected pending settled failed : EntryStatus

pub data LedgerError : Type 0 where
  transaction : TxError → LedgerError
  page serialization : LedgerError
  unbalanced_entry : ℤ → ℤ → LedgerError
  too_few_lines : ℕ → LedgerError
  insufficient_funds : ℕ → ℤ → ℤ → LedgerError
  account_not_found account_closed account_under_legal_hold entry_not_found : ℕ → LedgerError
  currency_mismatch : Bytes → Bytes → LedgerError
  cannot_reverse : ℕ → EntryStatus → LedgerError
  already_reversed : ℕ → ℕ → LedgerError
  exposure_limit_exceeded : ℕ → ℤ → ℤ → LedgerError
  four_eyes_required : LedgerError
  precision_violation : Bytes → ℕ → ℤ → ℤ → LedgerError
  hash_chain_broken chain_linkage_broken : ℕ → LedgerError
