-- ===== src/Wal/Record.antt =====
-- crates/vledger-wal/src/record.rs and error.rs: the records of the write-ahead log. The payload of
-- a record stands as the value that bincode, a third-party crate, writes and reads; `none` is a
-- payload that does not decode. The magic number, the version and the CRC-32 belong to the byte
-- format, which the reader checks before recovery sees a record.
use vector_ledger.Common.{ℕ, Option}
use vector_ledger.Common.Bytes.{Bytes}
use vector_ledger.Common.Int.{ℤ}
use vector_ledger.Crypto.Hash.{Hash}

pub data MutationKind : Type 0 where
  insert update delete : MutationKind

pub record DataPayload : Type 0 where
  pub table_id : ℕ
  pub page_id : ℕ
  pub slot_id : ℕ
  pub mutation : MutationKind
  pub row_data : Bytes
  pub row_hash : Hash
  pub prev_hash : Option Hash

pub record CommitPayload : Type 0 where
  pub record_count : ℕ
  pub tx_hash : Hash
  pub signature : Bytes
  pub signer_pubkey : Bytes

pub record CheckpointPayload : Type 0 where
  pub last_committed_sequence : ℕ
  pub page_merkle_root : Hash
  pub root_signature : Bytes
  pub signer_pubkey : Bytes

-- `RecordType` with the payload of each type.
pub data Body : Type 0 where
  begin : Option Bytes → Body
  row : Option DataPayload → Body
  commit : Option CommitPayload → Body
  rollback schema segment_header : Body
  checkpoint : CheckpointPayload → Body

pub record WalRecord : Type 0 where
  pub tx_id : ℕ
  pub sequence : ℕ
  pub timestamp_ns : ℤ
  pub body : Body

-- The messages and the sizes in the errors are left out.
pub data WalError : Type 0 where
  io checksum_mismatch bad_magic truncated_record serialization segment_full segment_sealed :
      WalError
  recovery_failed encryption decryption : WalError
  unsupported_version unknown_record_type transaction_not_found signature_invalid : ℕ → WalError

-- What the reader finds at a place of the log: a record, a place that fails the checks of a torn
-- write (checksum, length, magic number, decryption), or another error.
pub data Slot : Type 0 where
  whole : WalRecord → Slot
  torn : Slot
  unreadable : WalError → Slot
