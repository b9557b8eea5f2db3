-- ===== src/FourEyes/Record.antt =====
-- crates/vledger-foureyes/src/record.rs and error.rs.
use vector_ledger.Common.{ℕ, Option}
use vector_ledger.Common.Bytes.{Bytes}
use vector_ledger.Common.Int.{ℤ}

pub data ApprovalStatus : Type 0 where
  pending approved rejected : ApprovalStatus

-- Times are nanoseconds since the epoch.
pub record ApprovalRecord : Type 0 where
  pub id : ℕ
  pub status : ApprovalStatus
  pub submitter_id : Bytes
  pub approver_id : Option Bytes
  pub reject_reason : Option Bytes
  pub submitted_at : ℤ
  pub decided_at : Option ℤ
  pub entry_payload_hex : Bytes
  pub description : Bytes
  pub domain : Bytes

pub data FourEyesError : Type 0 where
  io : FourEyesError
  not_found : ℕ → FourEyesError
  not_pending : ℕ → Bytes → FourEyesError
  self_approval post_failed serialisation : Bytes → FourEyesError
