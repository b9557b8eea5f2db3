-- ===== src/Transaction/KeyTests.antt =====
-- Tests of idempotency keys.
use vector_ledger.Common.{ℕ, ◌≡◌, refl, none, some, ok}
use vector_ledger.Common.Bytes.{codes}
use vector_ledger.Common.Int.{pos}
use vector_ledger.Common.Dict.{lookup, insert, remove}
use vector_ledger.Crypto.Tests.{toy}
use vector_ledger.Wal.Writer.{append}
use vector_ledger.Wal.Tests.{toy_signatures, writer_at}
use vector_ledger.Transaction.Tx.{
  TxError, Transaction, with_idempotency_key, mark_committed, tx_hash,
}
use vector_ledger.Transaction.Tx
use vector_ledger.Transaction.Manager.{
  TransactionManager, begin, set_idempotency_key, commit, put_active, get_active, drop_active,
  contains,
}
use vector_ledger.Transaction.Steps.{Step, Reachable, IsValid, Reachable-IsValid}
use vector_ledger.Transaction.Idempotent.{commit-idempotent}
use vector_ledger.Transaction.Tests.{fresh, fresh_opened}

abbrev one_begun : TransactionManager
unfolding begin
one_begun = (begin none (fresh 0)).1

abbrev two_begun : TransactionManager
unfolding one_begun begin
two_begun = (begin none one_begun).1

abbrev one_keyed : TransactionManager
unfolding two_begun set_idempotency_key
one_keyed = (set_idempotency_key 1 (codes "k") two_begun).1

-- Two transactions with one key.
abbrev two_keyed : TransactionManager
unfolding one_keyed set_idempotency_key
two_keyed = (set_idempotency_key 2 (codes "k") one_keyed).1

two_keyed-IsValid : IsValid toy toy_signatures two_keyed
unfolding two_keyed one_keyed two_begun one_begun
two_keyed-IsValid = Reachable-IsValid toy toy_signatures two_keyed (
    Reachable.stepped _ _
      (Reachable.stepped _ _
        (Reachable.stepped _ _
          (Reachable.stepped _ _ (Reachable.opens (writer_at 0) _ (fresh 0) (fresh_opened 0))
            (Step.begins none (fresh 0)))
          (Step.begins none one_begun))
        (Step.sets_key 1 (codes "k") two_begun))
      (Step.sets_key 2 (codes "k") one_keyed))

abbrev keyed : ℕ → Transaction
keyed n = record (Tx.new n 1 none (pos n)) { idempotency_key = some (codes "k") }

commit-idempotent_example :
    ((commit toy toy_signatures 2 (commit toy toy_signatures 1 two_keyed).1).0 ≡ ok tt)
    × ((commit toy toy_signatures 2 (commit toy toy_signatures 1 two_keyed).1).1.wal
        ≡ (commit toy toy_signatures 1 two_keyed).1.wal)
unfolding two_keyed one_keyed two_begun one_begun begin set_idempotency_key append put_active
    get_active drop_active contains with_idempotency_key commit lookup insert remove
commit-idempotent_example =
    commit-idempotent toy toy_signatures 1 2 (keyed 1) (keyed 2) (codes "k") two_keyed
      two_keyed-IsValid refl refl refl refl refl refl
