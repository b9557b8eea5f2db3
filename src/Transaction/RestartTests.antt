-- ===== src/Transaction/RestartTests.antt =====
-- Tests of a restart on a log with an unfinished transaction.
use vector_ledger.Common.{ℕ, ◌≡◌, refl, arith, true, List, [], ◌∷◌, none, some, ok, err}
use vector_ledger.Common.Int.{pos}
use vector_ledger.Common.Dict.{lookup, insert}
use vector_ledger.Crypto.Hash.{hash_bytes}
use vector_ledger.Crypto.Tests.{toy}
use vector_ledger.Wal.Record.{MutationKind, Body, WalRecord, WalError, Slot}
use vector_ledger.Wal.Writer.{append}
use vector_ledger.Wal.Recovery.{Scan, scan, recover_streaming, push}
use vector_ledger.Wal.Recovery.Crash.{outcome}
use vector_ledger.Wal.Tests.{toy_signatures, writer_at, collect}
use vector_ledger.Transaction.Tx.{Transaction, push_mutation}
use vector_ledger.Transaction.Tx
use vector_ledger.Transaction.Manager.{
  TransactionManager, begin, add_mutation, commit, open_with_signing_and_mode, put_active,
  get_active,
}
use vector_ledger.Transaction.Steps.{Step, Reachable, IsValid, Reachable-IsValid}
use vector_ledger.Transaction.Reuse.{commit-unrecoverable}

abbrev row : WalRecord
row = record {
  tx_id = 1;
  sequence = 2;
  timestamp_ns = pos 2;
  body = Body.row (
      some (record {
        table_id = 1;
        page_id = 0;
        slot_id = 0;
        mutation = MutationKind.insert;
        row_data = 4 ∷ [];
        row_hash = toy.blake3 (4 ∷ []);
        prev_hash = none;
      }));
}

-- A Begin and a Data record, and no Commit record.
abbrev unfinished : List Slot
unfinished =
    Slot.whole (record { tx_id = 1; sequence = 1; timestamp_ns = pos 1; body = Body.begin none })
    ∷ Slot.whole row
    ∷ []

abbrev restarted : TransactionManager
restarted = record {
  wal = record (writer_at 2) { log = unfinished };
  next_tx_id = 1;
  active = [];
  committed_idempotency_keys = [];
  last_committed_tx_id = 0;
  signing_key = none;
}

restarted_opened :
    open_with_signing_and_mode toy toy_signatures (record (writer_at 2) { log = unfinished }) none
    ≡ ok restarted
unfolding open_with_signing_and_mode recover_streaming
restarted_opened = refl

abbrev begun : TransactionManager
unfolding begin
begun = (begin none restarted).1

abbrev filled : TransactionManager
unfolding begun add_mutation
filled = (add_mutation toy toy_signatures 1 1 0 0 MutationKind.insert (7 ∷ []) none begun).1

filled-IsValid : IsValid toy toy_signatures filled
unfolding filled begun
filled-IsValid = Reachable-IsValid toy toy_signatures filled (
    Reachable.stepped _ _
      (Reachable.stepped _ _ (Reachable.opens _ _ restarted restarted_opened)
        (Step.begins none restarted))
      (Step.adds 1 1 0 0 MutationKind.insert (7 ∷ []) none begun))

abbrev transaction : Transaction
transaction = record {
  tx_id = 1;
  snapshot_tx_id = 1;
  state = Tx.active;
  started_at = pos 3;
  description = none;
  mutations =
      record {
        table_id = 1;
        page_id = 0;
        slot_id = 0;
        kind = MutationKind.insert;
        row_data = 7 ∷ [];
        row_hash = toy.blake3 (7 ∷ []);
        prev_hash = none;
      }
      ∷ [];
  hasher = toy.blake3 (7 ∷ []);
  idempotency_key = none;
}

filled-lookup : lookup 1 filled.active ≡ some transaction
unfolding filled begun begin append put_active get_active add_mutation lookup insert push_mutation
    hash_bytes
filled-lookup = refl

-- The scan of the log before the commit.
abbrev scanned : Scan (List ℕ)
scanned = record {
  pending_payloads = [];
  pending_raw = (1, row ∷ []) ∷ [];
  last_sequence = 3;
  state = [];
}

commit-unrecoverable_example :
    (seq : ℕ) × (outcome (
        recover_streaming toy toy_signatures
          (λ e. e)
          true
          collect
          (commit toy toy_signatures 1 filled).1.wal.log
          [])
      ≡ err (WalError.signature_invalid seq))
unfolding filled begun begin append put_active get_active add_mutation lookup insert push_mutation
    hash_bytes commit scan push
commit-unrecoverable_example =
    commit-unrecoverable toy toy_signatures (λ e. e) collect 1 transaction filled scanned []
      filled-IsValid filled-lookup refl refl refl (λ e. absurd (ground arith)) (omega arith)
