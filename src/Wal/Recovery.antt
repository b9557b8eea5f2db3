-- ===== src/Wal/Recovery.antt =====
-- crates/vledger-wal/src/recovery.rs: what a scan of the log delivers. `master_key` and the start
-- segment choose the slots; `skip_row_data_for_table` is `None` in every caller.
pub mod Crash
pub mod Signature
pub mod Batch
use vector_ledger.Common.{
  ℕ, ◌+◌, ◌^◌, ◌%◌, List, [], ◌∷◌, ◌++◌, Bool, true, false, not, ◌&&◌, ◌||◌, Option, none, some,
  if◌then◌else◌, length, replicate, ltb, ◌==◌, unwrap_or, Result, ok, err, ◌>>=◌, ◌>>◌, fail_if,
  ok_or,
}
use vector_ledger.Common.Bytes.{Bytes, bytes_eq, to_le_bytes}
use vector_ledger.Common.Dict.{Dict, lookup, insert, remove, or_default}
use vector_ledger.Crypto.Hash.{Platform, Hash}
use vector_ledger.Crypto.Sign.{Ed25519}
use vector_ledger.Wal.Record.{DataPayload, CommitPayload, Body, WalRecord, WalError, Slot}

pub record CommittedTransaction : Type 0 where
  pub tx_id : ℕ
  pub commit_record : WalRecord
  pub data_payloads : List DataPayload
  pub data_records : List WalRecord

pub record RecoveryResult : Type 0 where
  pub discarded_tx_count : ℕ
  pub last_sequence : ℕ
  pub torn_write_detected : Bool

-- `decode_data_payload`: the payload of a Data record, if it decodes.
abbrev pub decode_data_payload : WalRecord → Option DataPayload
decode_data_payload r = elim r.body [ Body.row p ↦ p | _ ↦ none ]

abbrev pub decode_commit_payload : WalRecord → Result WalError CommitPayload
decode_commit_payload r = elim r.body [
  | Body.commit p ↦ ok_or p WalError.serialization
  | _ ↦ err WalError.serialization
]

-- The row hashes, in order; an error if a payload does not decode.
unfoldable pub row_hashes : List WalRecord → Result WalError Bytes
row_hashes [] = ok []
row_hashes (r ∷ rs) = do
  p ← ok_or (decode_data_payload r) WalError.serialization
  rest ← row_hashes rs
  ok (p.row_hash ++ rest)

-- The payloads that decode.
unfoldable pub decoded : List WalRecord → List DataPayload
decoded [] = []
decoded (r ∷ rs) = elim (decode_data_payload r) [ some p ↦ p ∷ decoded rs | none ↦ decoded rs ]

module _ (S : Ed25519) where
  -- A key or a signature of another size than Ed25519's passes unchecked.
  unfoldable pub check_signature : WalRecord → CommitPayload → Result WalError (Unit {0})
  check_signature r p =
      if bytes_eq p.signer_pubkey [] || bytes_eq p.signer_pubkey (replicate 32 0)
      then ok tt
      else if not (length p.signature == 64) || not (length p.signer_pubkey == 32)
      then ok tt
      else if not (S.valid_key p.signer_pubkey)
      then err (WalError.signature_invalid r.sequence)
      else if S.verifies p.signer_pubkey (p.tx_hash ++ to_le_bytes 4 p.record_count) p.signature
      then ok tt
      else err (WalError.signature_invalid r.sequence)

  unfoldable pub verify_commit_signature : WalRecord → Result WalError (Unit {0})
  unfolding check_signature
  verify_commit_signature r = do p ← decode_commit_payload r; check_signature r p

module _ (P : Platform) (S : Ed25519) where
  unfoldable pub verify_commit_full : WalRecord → List WalRecord → Result WalError (Unit {0})
  unfolding verify_commit_signature
  verify_commit_full r records = do
    p ← decode_commit_payload r
    fail_if (not (p.record_count == length records % 2 ^ 32))
        (WalError.signature_invalid r.sequence)
    hashes ← row_hashes records
    fail_if (not (bytes_eq (P.blake3 hashes) p.tx_hash)) (WalError.signature_invalid r.sequence)
    verify_commit_signature S r

-- The variables of the scan; `state` is what the callback has made so far.
pub record Scan (T : Type 0) : Type 0 where
  pub pending_payloads : Dict (List DataPayload)
  pub pending_raw : Dict (List WalRecord)
  pub last_sequence : ℕ
  pub state : T

abbrev pub start : {T : Type 0} → T → Scan T
start t = record { pending_payloads = []; pending_raw = []; last_sequence = 0; state = t }

abbrev pub noted : {T : Type 0} → WalRecord → Scan T → Scan T
noted r s = record s {
  last_sequence = if ltb s.last_sequence r.sequence then r.sequence else s.last_sequence;
}

abbrev pub finish : {T : Type 0} → Scan T × Bool → T × RecoveryResult
finish (s, torn) = (
  s.state,
  record {
    discarded_tx_count = length s.pending_payloads + length s.pending_raw;
    last_sequence = s.last_sequence;
    torn_write_detected = torn;
  },
)

unfoldable pub push {ℓ} : {V : Type ℓ} → ℕ → V → Dict (List V) → Dict (List V)
unfolding lookup insert
push k v d = insert k (unwrap_or (lookup k d) [] ++ v ∷ []) d

unfoldable pub push_decoded :
    ℕ → Option DataPayload → Dict (List DataPayload) → Dict (List DataPayload)
unfolding push
push_decoded k none d = d
push_decoded k (some p) d = push k p d

-- `map_err(E::from)`.
abbrev pub from_wal : {E A : Type 0} → (WalError → E) → Result WalError A → Result E A
from_wal from (ok a) = ok a
from_wal from (err e) = err (from e)

module _ (P : Platform) (S : Ed25519) {T E : Type 0} (from : WalError → E) (verify : Bool)
    (on_commit : T → CommittedTransaction → Result E T) where
  unfoldable pub commit_verified : WalRecord → List WalRecord → Scan T → Result E (Scan T)
  unfolding remove verify_commit_full
  commit_verified r raw s = do
    from_wal from (verify_commit_full P S r raw)
    t ← on_commit s.state (record {
      tx_id = r.tx_id;
      commit_record = r;
      data_payloads = decoded raw;
      data_records = raw;
    })
    ok (record s { pending_raw = remove r.tx_id s.pending_raw; state = t })

  unfoldable pub commit_plain : WalRecord → List DataPayload → Scan T → Result E (Scan T)
  unfolding remove
  commit_plain r payloads s = do
    t ←
        on_commit s.state (record {
          tx_id = r.tx_id;
          commit_record = r;
          data_payloads = payloads;
          data_records = [];
        })
    ok (record s { pending_payloads = remove r.tx_id s.pending_payloads; state = t })

  -- The `match` on the record type.
  unfoldable pub on_body : WalRecord → Body → Scan T → Result E (Scan T)
  unfolding or_default push remove commit_verified commit_plain
  on_body r (Body.begin d) s =
      if verify
      then ok (record s { pending_raw = or_default [] r.tx_id s.pending_raw })
      else ok (record s { pending_payloads = or_default [] r.tx_id s.pending_payloads })
  on_body r (Body.row p) s =
      if verify
      then ok (record s { pending_raw = push r.tx_id r s.pending_raw })
      else ok (record s { pending_payloads = push_decoded r.tx_id p s.pending_payloads })
  on_body r (Body.commit p) s =
      if verify
      then commit_verified r (unwrap_or (lookup r.tx_id s.pending_raw) []) s
      else commit_plain r (unwrap_or (lookup r.tx_id s.pending_payloads) []) s
  on_body r Body.rollback s = ok (record s {
    pending_payloads = remove r.tx_id s.pending_payloads;
    pending_raw = remove r.tx_id s.pending_raw;
  })
  on_body r Body.schema s = ok s
  on_body r Body.segment_header s = ok s
  on_body r (Body.checkpoint p) s = ok s

  unfoldable pub scan_record : WalRecord → Scan T → Result E (Scan T)
  unfolding on_body
  scan_record r s = on_body r r.body (noted r s)

  -- The loop over the reader, with whether it was stopped by a torn write.
  unfoldable pub scan : List Slot → Scan T → Result E (Scan T × Bool)
  unfolding scan_record
  scan [] s = ok (s, false)
  scan (Slot.torn ∷ log) s = ok (s, true)
  scan (Slot.unreadable e ∷ log) s = err (from e)
  scan (Slot.whole r ∷ log) s = do s' ← scan_record r s; scan log s'

  unfoldable pub recover_streaming : List Slot → T → Result E (T × RecoveryResult)
  unfolding scan
  recover_streaming log t = do r ← scan log (start t); ok (finish r)
