-- ===== src/Ledger/Entry.antt =====
-- crates/vledger-ledger/src/entry.rs: journal lines and journal entries. The children model
-- validation, the canonical bytes, the hashes and the builder.
pub mod Validate
pub mod Canonical
pub mod Splits
pub mod Injective
pub mod Hashes
pub mod Tamper
pub mod Builder
pub mod Tests
use vector_ledger.Common.{ℕ, List, Option}
use vector_ledger.Common.Int.{ℤ, neg}
use vector_ledger.Common.Bytes.{Bytes}
use vector_ledger.Crypto.Hash.{Hash}
use vector_ledger.Ledger.Account.{Uuid, DateTime}
use vector_ledger.Ledger.Amount.{Amount, as_i128}
use vector_ledger.Ledger.Error.{EntryStatus}

pub data DrCr : Type 0 where
  debit credit : DrCr

pub record JournalLine : Type 0 where
  pub id : Uuid
  pub account_id : Uuid
  pub currency_code : Bytes
  pub amount : Amount
  pub dr_cr : DrCr
  pub memo : Option Bytes

-- An amount as credits count it: debits are negative.
abbrev pub signed : DrCr → ℤ → ℤ
signed DrCr.credit x = x
signed DrCr.debit x = neg x

unfoldable pub signed_amount : JournalLine → ℤ
signed_amount l = signed l.dr_cr (as_i128 l.amount)

pub record JournalEntry : Type 0 where
  pub id : Uuid
  pub sequence : ℕ
  pub status : EntryStatus
  pub description : Bytes
  pub lines : List JournalLine
  pub effective_at : DateTime
  pub posted_at : DateTime
  pub external_ref : Option Bytes
  pub idempotency_key : Option Bytes
  pub reverses_entry_id : Option Uuid
  pub reversed_by_entry_id : Option Uuid
  pub domain : Bytes
  pub content_hash : Hash
  pub prev_hash : Hash
  pub chain_hash : Hash
  pub approved_by : Option Bytes
  pub metadata : Option Bytes
