-- ===== src/Wal/Tests.antt =====
-- Tests of the log and of recovery, and the theorems at concrete inputs.
use vector_ledger.Common.{
  ◌>>=◌, if◌then◌else◌, ◌==◌, ℕ, ◌≡◌, refl, true, false, List, [], ◌∷◌, ◌++◌, map, none, some, ok,
  Result,
}
use vector_ledger.Common.Bytes.{Bytes, bytes_eq, to_le_bytes}
use vector_ledger.Common.Encoding.{bytes_eq_refl}
use vector_ledger.Common.Int.{pos}
use vector_ledger.Crypto.Sign.{Ed25519, Honest}
use vector_ledger.Crypto.Tests.{pad, toy, length-pad}
use vector_ledger.Wal.Record.{MutationKind, DataPayload, Body, WalRecord, WalError, Slot}
use vector_ledger.Wal.Writer.{WalWriter, WalSyncMode, Environment, Outcome}
use vector_ledger.Wal.Recovery.{
  row_hashes, CommittedTransaction, decoded, verify_commit_full, recover_streaming,
}
use vector_ledger.Wal.Recovery.Batch.{
  collect_all, recover_with_options, recover_with_options-recover_streaming, sorted,
}
use vector_ledger.Wal.Recovery.Crash.{outcome, recover_streaming-Unfinished}
use vector_ledger.Wal.Recovery.Signature.{alter, alter_record, verify_commit_full-alter_record}

-- A toy signature: the public key and the message, cut or padded to 64 bytes.
abbrev pub toy_signatures : Ed25519
unfolding bytes_eq
toy_signatures = record {
  public_key = λ k. pad 32 k;
  sign = λ k m. pad 64 (pad 32 k ++ m);
  valid_key = λ k. true;
  verifies = λ k m s. bytes_eq s (pad 64 (k ++ m));
}

pub toy_signatures-Honest : Honest toy_signatures
unfolding toy_signatures
toy_signatures-Honest = record {
  length-public_key = λ k. length-pad 32 k;
  length-sign = λ k m. length-pad 64 (pad 32 k ++ m);
  valid = λ k. refl;
  accepts = λ k m. bytes_eq_refl (pad 64 (pad 32 k ++ m));
}

-- A disk that writes everything, but tears the write of record 9.
abbrev pub disk : Environment
disk = record {
  outcome = λ n. if n == 9 then Outcome.partly else Outcome.written;
  clock = λ n. pos n;
  sync_works = λ n. true;
}

abbrev pub writer_at : ℕ → WalWriter
writer_at n = record {
  log = [];
  sequence = n;
  sync_mode = WalSyncMode.group_commit;
  dirty = false;
  synced = 0;
  disk = disk;
}

abbrev payload : ℕ → DataPayload
payload n = record {
  table_id = 1;
  page_id = 0;
  slot_id = n;
  mutation = MutationKind.insert;
  row_data = n ∷ [];
  row_hash = toy.blake3 (n ∷ []);
  prev_hash = none;
}

abbrev slot : ℕ → ℕ → Body → WalRecord
slot tx_id n body = record { tx_id = tx_id; sequence = n; timestamp_ns = pos n; body = body }

abbrev commit_of : Bytes → WalRecord
commit_of hashes = slot 1 3 (
    Body.commit (
      some (record {
        record_count = 1;
        tx_hash = toy.blake3 hashes;
        signature = [];
        signer_pubkey = [];
      })))

abbrev row_of_one : WalRecord
row_of_one = slot 1 2 (Body.row (some (payload 7)))

abbrev log : List Slot
log =
    Slot.whole (slot 1 1 (Body.begin none))
    ∷ Slot.whole row_of_one
    ∷ Slot.whole (commit_of (toy.blake3 (7 ∷ [])))
    ∷ []

abbrev tail : List Slot
tail =
    Slot.whole (slot 2 4 (Body.begin none))
    ∷ Slot.whole (slot 2 5 (Body.row (some (payload 8))))
    ∷ Slot.torn
    ∷ []

-- The callback collects the ids.
abbrev pub collect : List ℕ → CommittedTransaction → Result WalError (List ℕ)
collect ids t = ok (ids ++ t.tx_id ∷ [])

abbrev recovered : List Slot → Result WalError (List ℕ)
unfolding toy_signatures recover_streaming
recovered slots = outcome (recover_streaming toy toy_signatures (λ e. e) true collect slots [])

log_recovered : recovered log ≡ ok (1 ∷ [])
unfolding recovered recover_streaming bytes_eq to_le_bytes toy_signatures row_hashes
log_recovered = refl

recover_streaming-Unfinished_example : recovered (log ++ tail) ≡ recovered log
unfolding recovered
recover_streaming-Unfinished_example =
    recover_streaming-Unfinished toy toy_signatures (λ e. e) true collect log tail []
      ((λ i. i), ((λ i. i), (tt, tt)))

verify_commit_full-alter_record_example :
    (verify_commit_full toy toy_signatures
        (commit_of (toy.blake3 (7 ∷ [])))
        (map (alter_record (λ p. 9 ∷ [])) (row_of_one ∷ []))
      ≡ verify_commit_full toy toy_signatures (commit_of (toy.blake3 (7 ∷ []))) (row_of_one ∷ []))
    × (decoded (map (alter_record (λ p. 9 ∷ [])) (row_of_one ∷ []))
        ≡ map (alter (λ p. 9 ∷ [])) (decoded (row_of_one ∷ [])))
verify_commit_full-alter_record_example =
    verify_commit_full-alter_record (λ p. 9 ∷ []) toy toy_signatures
      (commit_of (toy.blake3 (7 ∷ []))) (row_of_one ∷ [])

recover_with_options-recover_streaming_example :
    recover_with_options toy toy_signatures true log
    ≡ (recover_streaming toy toy_signatures (λ e. e) true collect_all log [] >>= λ r. ok (sorted r))
recover_with_options-recover_streaming_example =
    recover_with_options-recover_streaming toy toy_signatures log
