-- ===== src/Transaction/Tests.antt =====
-- Tests of transactions, and the theorems at concrete inputs.
use vector_ledger.Transaction.Manager.{rollback}
use vector_ledger.Common.{◌≡◌, refl, ℕ, true, List, [], ◌∷◌, map, none, some, ok}
use vector_ledger.Common.Int.{pos}
use vector_ledger.Common.Dict.{lookup, insert}
use vector_ledger.Crypto.Hash.{hash_bytes}
use vector_ledger.Crypto.Tests.{toy}
use vector_ledger.Wal.Record.{MutationKind, WalError}
use vector_ledger.Wal.Writer.{append}
use vector_ledger.Wal.Recovery.{CommittedTransaction, Scan, scan, recover_streaming}
use vector_ledger.Wal.Recovery.Crash.{outcome}
use vector_ledger.Wal.Tests.{toy_signatures, toy_signatures-Honest, writer_at, collect}
use vector_ledger.Transaction.Tx.{TxError, Transaction, push_mutation}
use vector_ledger.Transaction.Tx
use vector_ledger.Transaction.Manager.{
  TransactionManager, begin, add_mutation, commit, payload_of, open_with_signing_and_mode,
  put_active, get_active,
}
use vector_ledger.Transaction.Mvcc.{
  or_earlier, sees, is_visible, RowVersion, latest_visible, IsLatest, latest_visible-IsLatest,
}
use vector_ledger.Transaction.Steps.{Step, Reachable, IsValid, Reachable-IsValid}
use vector_ledger.Transaction.Stranded.{Call, Called, IsSound, Called-IsSound}
use vector_ledger.Transaction.Commit.{
  Committed, commit-Committed, commit-recovered, commit_error-recovered,
}

-- A manager on an empty log whose next record has the given number.
abbrev pub fresh : ℕ → TransactionManager
fresh n = record {
  wal = writer_at n;
  next_tx_id = 1;
  active = [];
  committed_idempotency_keys = [];
  last_committed_tx_id = 0;
  signing_key = some (5 ∷ []);
}

abbrev begun : ℕ → TransactionManager
unfolding begin
begun n = (begin none (fresh n)).1

abbrev filled : ℕ → TransactionManager
unfolding begun add_mutation
filled n = (add_mutation toy toy_signatures 1 1 0 0 MutationKind.insert (7 ∷ []) none (begun n)).1

pub fresh_opened :
    (n : ℕ)
    → open_with_signing_and_mode toy toy_signatures (writer_at n) (some (5 ∷ [])) ≡ ok (fresh n)
unfolding open_with_signing_and_mode recover_streaming
fresh_opened n = refl

fresh_filled : (n : ℕ) → Reachable toy toy_signatures (filled n)
unfolding filled begun
fresh_filled n =
    Reachable.stepped _ _
      (Reachable.stepped _ _ (Reachable.opens (writer_at n) _ (fresh n) (fresh_opened n))
        (Step.begins none (fresh n)))
      (Step.adds 1 1 0 0 MutationKind.insert (7 ∷ []) none (begun n))

-- The rollback is record 9, whose write is torn: the transaction stays in the table.
Called-IsSound_example : IsSound toy toy_signatures (rollback 1 (filled 7)).1
unfolding filled begun
Called-IsSound_example = Called-IsSound toy toy_signatures (rollback 1 (filled 7)).1 (
    Called.then_call _ _
      (Called.then_call _ _
        (Called.then_call _ _ (Called.opens (writer_at 7) _ (fresh 7) (fresh_opened 7))
          (Call.begins none (fresh 7)))
        (Call.adds 1 1 0 0 MutationKind.insert (7 ∷ []) none (begun 7)))
      (Call.rolls_back 1 (filled 7)))

-- The transaction as it stands in the table.
abbrev transaction : ℕ → Transaction
transaction now = record {
  tx_id = 1;
  snapshot_tx_id = 1;
  state = Tx.active;
  started_at = pos now;
  description = none;
  mutations =
      record {
        table_id = 1;
        page_id = 0;
        slot_id = 0;
        kind = MutationKind.insert;
        row_data = 7 ∷ [];
        row_hash = toy.blake3 (7 ∷ []);
        prev_hash = none;
      }
      ∷ [];
  hasher = toy.blake3 (7 ∷ []);
  idempotency_key = none;
}

filled-IsValid : (n : ℕ) → IsValid toy toy_signatures (filled n)
filled-IsValid n = Reachable-IsValid toy toy_signatures (filled n) (fresh_filled n)

filled_0 : lookup 1 (filled 0).active ≡ some (transaction 1)
unfolding filled begun begin append put_active get_active add_mutation lookup insert push_mutation
    hash_bytes
filled_0 = refl

filled_6 : lookup 1 (filled 6).active ≡ some (transaction 7)
unfolding filled begun begin append put_active get_active add_mutation lookup insert push_mutation
    hash_bytes
filled_6 = refl

commit-Committed_example :
    Committed toy toy_signatures 1
      (transaction 1)
      (filled 0)
      (commit toy toy_signatures 1 (filled 0))
unfolding filled begun begin append put_active get_active add_mutation lookup insert push_mutation
    hash_bytes
commit-Committed_example =
    commit-Committed toy toy_signatures 1 (transaction 1) (filled 0) (filled-IsValid 0) filled_0
      refl

-- The scan of the log before the commit.
abbrev scanned : Scan (List ℕ)
scanned = record {
  pending_payloads = [];
  pending_raw = (1, []) ∷ [];
  last_sequence = 1;
  state = [];
}

commit-recovered_example :
    (d : CommittedTransaction) × (d.tx_id ≡ 1)
    × (d.data_payloads ≡ map payload_of (transaction 1).mutations)
    × (outcome (
          recover_streaming toy toy_signatures
            (λ e. e)
            true
            collect
            (commit toy toy_signatures 1 (filled 0)).1.wal.log
            [])
        ≡ collect [] d)
unfolding filled begun begin append put_active get_active add_mutation lookup insert push_mutation
    hash_bytes commit scan
commit-recovered_example =
    commit-recovered toy toy_signatures (λ e. e) collect toy_signatures-Honest 1 (transaction 1)
      (filled 0) scanned [] (filled-IsValid 0) filled_0 refl refl refl refl

-- The write of the Commit record is torn.
commit_error-recovered_example :
    outcome (
      recover_streaming toy toy_signatures
        (λ e. e)
        true
        collect
        (commit toy toy_signatures 1 (filled 6)).1.wal.log
        [])
    ≡ outcome (recover_streaming toy toy_signatures (λ e. e) true collect (filled 6).wal.log [])
unfolding filled begun begin append put_active get_active add_mutation lookup insert push_mutation
    hash_bytes commit
commit_error-recovered_example =
    commit_error-recovered toy toy_signatures (λ e. e) collect true 1 (transaction 7) (filled 6)
      (TxError.wal WalError.io) [] (filled-IsValid 6) filled_6 refl refl refl

abbrev version : ℕ → ℕ → RowVersion
version created deleted = record {
  tx_id_created = created;
  tx_id_deleted = deleted;
  row_sequence = 0;
  row_data = [];
  data_hash = [];
  prev_hash = [];
}

abbrev versions : List RowVersion
versions = version 1 0 ∷ version 3 0 ∷ version 8 0 ∷ []

latest_of_versions : latest_visible versions 7 ≡ some (version 3 0)
unfolding latest_visible or_earlier sees is_visible
latest_of_versions = refl

latest_visible-IsLatest_example : IsLatest 7 versions (latest_visible versions 7)
latest_visible-IsLatest_example = latest_visible-IsLatest versions 7
