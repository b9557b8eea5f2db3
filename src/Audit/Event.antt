-- ===== src/Audit/Event.antt =====
-- crates/vledger-audit/src/event.rs and error.rs: the events of the audit log with their two hashes.
-- What serde_json, hex and chrono compute is a parameter; a string is its bytes, a UUID its number.
use vector_ledger.Common.{
  ℕ, Bool, List, ◌∷◌, [], ◌++◌, Option, unwrap_or, Result, ok, err, replicate, not, if◌then◌else◌,
  false,
}
use vector_ledger.Common.Bytes.{Bytes, bytes_eq, to_le_bytes}
use vector_ledger.Common.Int.{ℤ, pos, i64_as_u64}
use vector_ledger.Crypto.Hash.{Platform}

pub data AuditEventKind : Type 0 where
  query_executed :
      (sql : Bytes) (caller_id : Bytes) (rows_affected : ℕ) (duration_ms : ℕ) → AuditEventKind
  entry_posted :
      (entry_id : ℕ) (entry_sequence : ℕ) (domain : Bytes) (amount_sum : ℤ) (caller_id : Bytes)
      → AuditEventKind
  account_created :
      (account_id : ℕ) (account_code : Bytes) (domain : Bytes) (caller_id : Bytes) → AuditEventKind
  account_closed : (account_id : ℕ) (caller_id : Bytes) → AuditEventKind
  key_rotated : (key_id : Bytes) (caller_id : Bytes) → AuditEventKind
  replication_event : (lsn : ℕ) (direction : Bytes) (peer : Bytes) → AuditEventKind
  auth_event : (caller_id : Bytes) (success : Bool) (peer_addr : Bytes) → AuditEventKind
  four_eyes_submitted :
      (approval_id : ℕ) (entry_id : ℕ) (submitter : Bytes) (domain : Bytes) → AuditEventKind
  four_eyes_approved : (approval_id : ℕ) (approver : Bytes) → AuditEventKind
  four_eyes_rejected : (approval_id : ℕ) (approver : Bytes) (reason : Bytes) → AuditEventKind
  backup_created : (path : Bytes) (size_bytes : ℕ) (caller_id : Bytes) → AuditEventKind
  key_rotation_started : (key_ids : List Bytes) (caller_id : Bytes) → AuditEventKind
  server_started : (bind_addr : Bytes) (version : Bytes) → AuditEventKind

-- The time of an event is in nanoseconds since 1970.
pub record AuditEvent : Type 0 where
  pub sequence : ℕ
  pub ts : ℤ
  pub event : AuditEventKind
  pub content_hash : Bytes
  pub chain_hash : Bytes
  pub prev_hash : Bytes

-- The reason of a broken chain, as the source words it.
pub data Reason : Type 0 where
  hash_mismatch : Reason
  prev_hash_mismatch : (expected actual : Bytes) → Reason

pub data AuditError : Type 0 where
  io : AuditError
  serialisation : Bytes → AuditError
  chain_broken : ℕ → Reason → AuditError

-- `serde_json::to_string` gives the text or an error, here as its message; chrono gives no nanoseconds
-- for a time that an `i64` does not hold.
pub record Encoders : Type 0 where
  pub platform : Platform
  pub hex_encode : Bytes → Bytes
  pub kind_json : AuditEventKind → Result Bytes Bytes
  pub event_json : AuditEvent → Result Bytes Bytes
  pub timestamp_nanos_opt : ℤ → Option ℤ

-- 64 times the character 0.
abbrev pub zero_hash_text : Bytes
zero_hash_text = replicate 64 48

-- `{"serialization_error":"`, the message, `"}`.
abbrev pub json_or_error : Result Bytes Bytes → Bytes
json_or_error (ok json) = json
json_or_error (err message) =
    (123 ∷ 34 ∷ 115 ∷ 101 ∷ 114 ∷ 105 ∷ 97 ∷ 108 ∷ 105 ∷ 122 ∷ 97 ∷ 116 ∷ 105 ∷ 111 ∷ 110 ∷ [])
    ++ (95 ∷ 101 ∷ 114 ∷ 114 ∷ 111 ∷ 114 ∷ 34 ∷ 58 ∷ 34 ∷ [])
    ++ message
    ++ 34 ∷ 125 ∷ []

module _ (C : Encoders) where
  unfoldable pub canonical_bytes : AuditEvent → Bytes
  canonical_bytes e =
      to_le_bytes 8 e.sequence
      ++ to_le_bytes 8 (i64_as_u64 (unwrap_or (C.timestamp_nanos_opt e.ts) (pos 0)))
      ++ json_or_error (C.kind_json e.event)

  -- `hex::encode(blake3::hash(..))` of the canonical bytes.
  unfoldable pub content_hex : AuditEvent → Bytes
  unfolding canonical_bytes
  content_hex e = C.hex_encode (C.platform.blake3 (canonical_bytes e))

  -- The three updates of the hasher hash the concatenation.
  unfoldable pub chain_hex : ℕ → Bytes → Bytes → Bytes
  chain_hex sequence prev content =
      C.hex_encode (C.platform.blake3 (to_le_bytes 8 sequence ++ prev ++ content))

  unfoldable pub finalise : Bytes → AuditEvent → AuditEvent
  unfolding content_hex chain_hex
  finalise prev_chain_hash e = record e {
    content_hash = content_hex e;
    prev_hash = prev_chain_hash;
    chain_hash = chain_hex e.sequence prev_chain_hash (content_hex e);
  }

  unfoldable pub verify : AuditEvent → Bool
  unfolding content_hex chain_hex
  verify e =
      if not (bytes_eq (content_hex e) e.content_hash)
      then false
      else bytes_eq (chain_hex e.sequence e.prev_hash (content_hex e)) e.chain_hash
