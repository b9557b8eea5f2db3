-- ===== src/Transaction/Stranded.antt =====
-- The invariant of `TransactionManager` (manager.rs) over all its calls, a rollback whose write fails
-- among them: it leaves a transaction in the table that is rolled back and empty.
use vector_ledger.Common.{
  arith, ◌+◌, ◌%◌, ◌^◌, ℕ, ◌≡◌, refl, ◌⊎◌, Option, some, Result, ok, err, Bool-cases, Option-cases,
  inl, inr, [], ◌==◌,
}
use vector_ledger.Common.Action.{Action, modify, bind_from, zoom_result}
use vector_ledger.Common.Bytes.{Bytes}
use vector_ledger.Common.Dict.{lookup, lookup-insert, lookup-remove}
use vector_ledger.Crypto.Hash.{Platform, Hash, hash_bytes}
use vector_ledger.Crypto.Sign.{Ed25519}
use vector_ledger.Wal.Record.{Body, MutationKind, WalError}
use vector_ledger.Wal.Writer.{WalWriter, append}
use vector_ledger.Transaction.Tx.{
  TxError, TxState, PendingMutation, Transaction, push_mutation, with_idempotency_key,
  mark_committed, mark_rolled_back,
}
use vector_ledger.Transaction.Tx
use vector_ledger.Transaction.Manager.{
  TransactionManager, get_active, put_active, drop_active, begin, set_idempotency_key,
  finish_commit, rollback, open_with_signing_and_mode, add_mutation, commit_new, commit, contains,
  key_committed, append_commit, activate,
}
use vector_ledger.Transaction.Verified.{hashes_of}
use vector_ledger.Transaction.Valid.{IsOpen, push_mutation-IsOpen}
use vector_ledger.Transaction.Steps.{
  IsValid, IsValid-IsOpen, after, opened-IsValid, with_idempotency_key-IsOpen,
  mark_committed-IsOpen,
}

-- Rolled back, with its mutations gone.
abbrev pub IsStranded : ℕ → Transaction → Type 0
IsStranded k t = (t.tx_id ≡ k) × (t.state ≡ TxState.rolled_back) × (t.mutations ≡ [])

module _ (P : Platform) (S : Ed25519) where
  abbrev pub IsFit : ℕ → Transaction → Type 0
  IsFit k t = IsOpen P k t ⊎ IsStranded k t

  unfoldable pub IsSound : TransactionManager → Type 0
  IsSound m = (k : ℕ) (t : Transaction) → lookup k m.active ≡ some t → IsFit k t

  IsSound-put :
      (k : ℕ) (t : Transaction) (m : TransactionManager)
      → IsFit k t
      → IsSound m
      → IsSound (put_active k t m)
  unfolding IsSound put_active
  IsSound-put k t m h hd j u e = elim (Bool-cases (j == k)) [
    | inl same ↦
        let key : j ≡ k = ground arith in
        let value : u ≡ t = ground (arith, lookup-insert k j t m.active) in rw key (rw value h)
    | inr other ↦
        let old : lookup j m.active ≡ some u = ground (arith, lookup-insert k j t m.active) in
        hd j u old
  ]

  IsSound-drop : (k : ℕ) (m : TransactionManager) → IsSound m → IsSound (drop_active k m)
  unfolding IsSound drop_active
  IsSound-drop k m h j u e = elim (Bool-cases (j == k)) [
    | inl same ↦ absurd (ground (arith, lookup-remove k j m.active))
    | inr other ↦
        let old : lookup j m.active ≡ some u = ground (arith, lookup-remove k j m.active) in
        h j u old
  ]

  -- Only the table of transactions counts.
  IsSound-same : (m m' : TransactionManager) → m'.active ≡ m.active → IsSound m → IsSound m'
  unfolding IsSound
  IsSound-same m m' e h = rw e h

  IsSound-IsFit :
      (k : ℕ) (t : Transaction) (m : TransactionManager)
      → IsSound m
      → lookup k m.active ≡ some t
      → IsFit k t
  unfolding IsSound
  IsSound-IsFit k t m h e = h k t e

  IsValid-IsSound : (m : TransactionManager) → IsValid P S m → IsSound m
  unfolding IsSound
  IsValid-IsSound m h k t e = inl (IsValid-IsOpen P S k t m h e)

  on_wal-IsSound :
      {A B : Type 0} (x : Result WalError A × WalWriter) (m : TransactionManager)
      (f : A → Action TransactionManager TxError B)
      → IsSound m
      → ((a : A) (w : WalWriter) → IsSound (after P S (f a (record m { wal = w }))))
      → IsSound
          (after P S (bind_from f (zoom_result TxError.wal (λ w t. record t { wal = w }) m x)))
  on_wal-IsSound (ok a, w) m f h g = g a w
  on_wal-IsSound (err e, w) m f h g = IsSound-same m (record m { wal = w }) refl h

  begin-IsSound :
      (description : Option Bytes) (m : TransactionManager)
      → IsSound m
      → IsSound (after P S (begin description m))
  unfolding begin hashes_of
  begin-IsSound description m h =
      let m' : TransactionManager = record m { next_tx_id = (m.next_tx_id + 1) % 2 ^ 64 } in
      let snapshot = (m.last_committed_tx_id + 1) % 2 ^ 64 in
      on_wal-IsSound (append m.next_tx_id (Body.begin description) m.wal) m'
        (λ a. activate m.next_tx_id snapshot description) (IsSound-same m m' refl h)
        λ a w.
          IsSound-put m.next_tx_id
            (Tx.new m.next_tx_id snapshot description (w.disk.clock w.sequence))
            (record m' { wal = w }) (inl (refl, refl, (refl, tt)))
            (IsSound-same m (record m' { wal = w }) refl h)

  add_mutation-IsSound :
      (tx_id table page slot : ℕ) (kind : MutationKind) (row : Bytes) (prev : Option Hash)
      (m : TransactionManager)
      → IsSound m
      → IsSound (after P S (add_mutation P S tx_id table page slot kind row prev m))
  unfolding add_mutation get_active push_mutation
  add_mutation-IsSound tx_id table page slot kind row prev m h =
      elim (Option-cases (lookup tx_id m.active)) [
        | inl e ↦ rw e h
        | inr (t, e) ↦ elim (IsSound-IsFit tx_id t m h e) [
          | inr (i, gone, none_left) ↦ rw e (rw gone h)
          | inl fit ↦
              let x : PendingMutation = record {
                table_id = table;
                page_id = page;
                slot_id = slot;
                kind = kind;
                row_data = row;
                row_hash = hash_bytes P row;
                prev_hash = prev;
              } in
              let (t', pushed, valid) = push_mutation-IsOpen P tx_id x t refl fit in
              rw e (rw pushed (IsSound-put tx_id t' m (inl valid) h))
        ]
      ]

  set_idempotency_key-IsSound :
      (tx_id : ℕ) (key : Bytes) (m : TransactionManager)
      → IsSound m
      → IsSound (after P S (set_idempotency_key tx_id key m))
  unfolding set_idempotency_key get_active with_idempotency_key
  set_idempotency_key-IsSound tx_id key m h =
      elim (Bool-cases (contains key m.committed_idempotency_keys)) [
        | inl used ↦ rw used h
        | inr fresh ↦ elim (Option-cases (lookup tx_id m.active)) [
          | inl e ↦ rw fresh (rw e h)
          | inr (t, e) ↦ elim (IsSound-IsFit tx_id t m h e) [
            | inr (i, gone, none_left) ↦ rw fresh (rw e (rw gone h))
            | inl fit ↦
                let (t', set, valid) = with_idempotency_key-IsOpen P S tx_id key t fit in
                rw fresh (rw e (rw set (IsSound-put tx_id t' m (inl valid) h)))
          ]
        ]
      ]

  finish_commit-IsSound :
      (tx_id : ℕ) (t : Transaction) (m : TransactionManager)
      → IsFit tx_id t
      → IsSound m
      → IsSound (after P S (finish_commit tx_id t m))
  unfolding finish_commit mark_committed
  finish_commit-IsSound tx_id t m (inl o) h =
      rw (mark_committed-IsOpen P S tx_id t o)
        (IsSound-same (drop_active tx_id m) _ refl (IsSound-drop tx_id m h))
  finish_commit-IsSound tx_id t m (inr (i, gone, none_left)) h = rw gone (IsSound-drop tx_id m h)

  commit-IsSound :
      (tx_id : ℕ) (m : TransactionManager) → IsSound m → IsSound (after P S (commit P S tx_id m))
  unfolding commit get_active commit_new
  commit-IsSound tx_id m h = elim (Option-cases (lookup tx_id m.active)) [
    | inl e ↦ rw e h
    | inr (t, e) ↦
        elim (Bool-cases (key_committed t.idempotency_key m.committed_idempotency_keys)) [
          | inl done ↦ rw e (rw done (IsSound-drop tx_id m h))
          | inr fresh ↦ rw e (
              rw fresh (
                on_wal-IsSound (append_commit P S tx_id m.signing_key t m.wal) m
                  (λ _. finish_commit tx_id t) h
                  λ u w.
                    finish_commit-IsSound tx_id t (record m { wal = w })
                      (IsSound-IsFit tx_id t m h e) (IsSound-same m (record m { wal = w }) refl h)))
        ]
  ]

  rollback-IsSound :
      (tx_id : ℕ) (m : TransactionManager) → IsSound m → IsSound (after P S (rollback tx_id m))
  unfolding rollback get_active mark_rolled_back put_active
  rollback-IsSound tx_id m h = elim (Option-cases (lookup tx_id m.active)) [
    | inl e ↦ rw e h
    | inr (t, e) ↦ elim (IsSound-IsFit tx_id t m h e) [
      | inr (i, gone, none_left) ↦ rw e (rw gone h)
      | inl (i, active, hashed) ↦
          let t' : Transaction = record t { state = TxState.rolled_back; mutations = [] } in
          let put = IsSound-put tx_id t' m (inr (i, refl, refl)) h in
          rw e (
            rw active (
              on_wal-IsSound (append tx_id Body.rollback m.wal) (put_active tx_id t' m)
                (λ _. modify (drop_active tx_id)) put
                λ a w.
                  IsSound-drop tx_id (record (put_active tx_id t' m) { wal = w })
                    (IsSound-same (put_active tx_id t' m) _ refl put)))
    ]
  ]

-- The calls on a manager, each with any behaviour of the disk.
pub data Call (P : Platform) (S : Ed25519) : TransactionManager → TransactionManager → Type 0 where
  begins :
      (description : Option Bytes) (m : TransactionManager) → Call P S m (begin description m).1
  sets_key :
      (tx_id : ℕ) (key : Bytes) (m : TransactionManager)
      → Call P S m (set_idempotency_key tx_id key m).1
  adds :
      (tx_id table page slot : ℕ) (kind : MutationKind) (row : Bytes) (prev : Option Hash)
      (m : TransactionManager)
      → Call P S m (add_mutation P S tx_id table page slot kind row prev m).1
  commits : (tx_id : ℕ) (m : TransactionManager) → Call P S m (commit P S tx_id m).1
  rolls_back : (tx_id : ℕ) (m : TransactionManager) → Call P S m (rollback tx_id m).1

pub data Called (P : Platform) (S : Ed25519) : TransactionManager → Type 0 where
  opens :
      (w : WalWriter) (key : Option Bytes) (m : TransactionManager)
      → open_with_signing_and_mode P S w key ≡ ok m
      → Called P S m
  then_call : (m m' : TransactionManager) → Called P S m → Call P S m m' → Called P S m'

-- In every manager that calls of `begin`, `set_idempotency_key`, `add_mutation`, `commit` and
-- `rollback` reach from an opened log, in any order and whatever the disk does in each of them,
-- each transaction of the table stands under its own id, and is of one of two kinds. It is active, its
-- running hash has taken the row hashes of its mutations in order, and each row hash is the hash of
-- the row; or it is rolled back and has no mutations, which a rollback whose write failed leaves.
pub Called-IsSound :
    (P : Platform) (S : Ed25519) (m : TransactionManager) → Called P S m → IsSound P S m
Called-IsSound P S m (opens w key _ e) = IsValid-IsSound P S m (opened-IsValid P S w key m e)
Called-IsSound P S m (then_call a _ r (begins d _)) = begin-IsSound P S d a (Called-IsSound P S a r)
Called-IsSound P S m (then_call a _ r (sets_key i k _)) =
    set_idempotency_key-IsSound P S i k a (Called-IsSound P S a r)
Called-IsSound P S m (then_call a _ r (adds i t p s k row prev _)) =
    add_mutation-IsSound P S i t p s k row prev a (Called-IsSound P S a r)
Called-IsSound P S m (then_call a _ r (commits i _)) =
    commit-IsSound P S i a (Called-IsSound P S a r)
Called-IsSound P S m (then_call a _ r (rolls_back i _)) =
    rollback-IsSound P S i a (Called-IsSound P S a r)
