-- ===== src/Transaction/Steps.antt =====
-- The operations of `TransactionManager` (manager.rs) keep its invariant.
use vector_ledger.Common.{
  arith, ◌+◌, ◌%◌, ◌^◌, Option-cases, ℕ, ◌≡◌, refl, Option, some, Result, ok, err, Bool-cases, inl,
  inr, [],
}
use vector_ledger.Common.Action.{Action, modify, bind_from, zoom_result}
use vector_ledger.Common.Bytes.{Bytes}
use vector_ledger.Common.Dict.{lookup, insert, remove}
use vector_ledger.Crypto.Hash.{Platform, Hash, hash_bytes}
use vector_ledger.Crypto.Sign.{Ed25519}
use vector_ledger.Wal.Record.{WalRecord, Body, MutationKind, WalError}
use vector_ledger.Wal.Writer.{WalWriter, append}
use vector_ledger.Wal.Recovery.{RecoveryResult}
use vector_ledger.Transaction.Tx.{
  TxError, TxState, PendingMutation, Transaction, with_idempotency_key, mark_committed,
  mark_rolled_back,
}
use vector_ledger.Transaction.Tx
use vector_ledger.Transaction.Manager.{
  TransactionManager, get_active, put_active, drop_active, begin, set_idempotency_key,
  finish_commit, rollback, open_with_signing_and_mode, add_mutation, commit_new, commit, contains,
  key_committed, append_commit, activate, opened,
}
use vector_ledger.Transaction.Verified.{hashes_of}
use vector_ledger.Transaction.Valid.{
  AreOpen, AreOpen-replaced, IsOpen, AreOpen-insert, AreOpen-remove, push_mutation-IsOpen,
}

module _ (P : Platform) (S : Ed25519) where
  unfoldable pub IsValid : TransactionManager → Type 0
  IsValid m = AreOpen P m.active

  IsValid-put :
      (k : ℕ) (t : Transaction) (m : TransactionManager)
      → IsOpen P k t
      → IsValid m
      → IsValid (put_active k t m)
  unfolding IsValid put_active
  IsValid-put k t m o h = AreOpen-insert P k t m.active o h

  IsValid-drop : (k : ℕ) (m : TransactionManager) → IsValid m → IsValid (drop_active k m)
  unfolding IsValid drop_active
  IsValid-drop k m h = AreOpen-remove P k m.active h

  -- Only the table of transactions counts.
  IsValid-same : (m m' : TransactionManager) → m'.active ≡ m.active → IsValid m → IsValid m'
  unfolding IsValid
  IsValid-same m m' e h = rw e h

  pub IsValid-IsOpen :
      (k : ℕ) (t : Transaction) (m : TransactionManager)
      → IsValid m
      → lookup k m.active ≡ some t
      → IsOpen P k t
  unfolding IsValid
  IsValid-IsOpen k t m h e = h k t e

  -- What an operation leaves.
  abbrev pub after : {A : Type 0} → Result TxError A × TransactionManager → TransactionManager
  after x = x.1

  add_mutation-IsValid :
      (tx_id table page slot : ℕ) (kind : MutationKind) (row : Bytes) (prev : Option Hash)
      (m : TransactionManager)
      → IsValid m
      → IsValid (after (add_mutation P S tx_id table page slot kind row prev m))
  unfolding add_mutation get_active
  add_mutation-IsValid tx_id table page slot kind row prev m h =
      elim (Option-cases (lookup tx_id m.active)) [
        | inl e ↦ rw e h
        | inr (t, e) ↦
            let x : PendingMutation = record {
              table_id = table;
              page_id = page;
              slot_id = slot;
              kind = kind;
              row_data = row;
              row_hash = hash_bytes P row;
              prev_hash = prev;
            } in
            let (t', pushed, valid) =
              push_mutation-IsOpen P tx_id x t refl (IsValid-IsOpen tx_id t m h e) in
            rw e (rw pushed (IsValid-put tx_id t' m valid h))
      ]

  -- What follows an action on the log.
  on_wal-IsValid :
      {A B : Type 0} (x : Result WalError A × WalWriter) (m : TransactionManager)
      (f : A → Action TransactionManager TxError B)
      → IsValid m
      → ((a : A) (w : WalWriter) → IsValid (after (f a (record m { wal = w }))))
      → IsValid (after (bind_from f (zoom_result TxError.wal (λ w t. record t { wal = w }) m x)))
  on_wal-IsValid (ok a, w) m f h g = g a w
  on_wal-IsValid (err e, w) m f h g = IsValid-same m (record m { wal = w }) refl h

  begin-IsValid :
      (description : Option Bytes) (m : TransactionManager)
      → IsValid m
      → IsValid (after (begin description m))
  unfolding begin hashes_of
  begin-IsValid description m h =
      let m' : TransactionManager = record m { next_tx_id = (m.next_tx_id + 1) % 2 ^ 64 } in
      let snapshot = (m.last_committed_tx_id + 1) % 2 ^ 64 in
      on_wal-IsValid (append m.next_tx_id (Body.begin description) m.wal) m'
        (λ a. activate m.next_tx_id snapshot description) (IsValid-same m m' refl h)
        λ a w.
          IsValid-put m.next_tx_id
            (Tx.new m.next_tx_id snapshot description (w.disk.clock w.sequence))
            (record m' { wal = w }) (refl, refl, (refl, tt))
            (IsValid-same m (record m' { wal = w }) refl h)

  pub with_idempotency_key-IsOpen :
      (k : ℕ) (key : Bytes) (t : Transaction)
      → IsOpen P k t
      → (t' : Transaction) × (with_idempotency_key key t ≡ ok t') × IsOpen P k t'
  unfolding with_idempotency_key
  with_idempotency_key-IsOpen k key t (i, a, h) =
      (record t { idempotency_key = some key }, rw a refl, (i, a, h))

  set_idempotency_key-IsValid :
      (tx_id : ℕ) (key : Bytes) (m : TransactionManager)
      → IsValid m
      → IsValid (after (set_idempotency_key tx_id key m))
  unfolding set_idempotency_key get_active
  set_idempotency_key-IsValid tx_id key m h =
      elim (Bool-cases (contains key m.committed_idempotency_keys)) [
        | inl used ↦ rw used h
        | inr fresh ↦ elim (Option-cases (lookup tx_id m.active)) [
          | inl e ↦ rw fresh (rw e h)
          | inr (t, e) ↦
              let (t', set, valid) =
                with_idempotency_key-IsOpen tx_id key t (IsValid-IsOpen tx_id t m h e) in
              rw fresh (rw e (rw set (IsValid-put tx_id t' m valid h)))
        ]
      ]

  pub mark_committed-IsOpen :
      (k : ℕ) (t : Transaction)
      → IsOpen P k t
      → mark_committed t ≡ ok (record t { state = TxState.committed })
  unfolding mark_committed
  mark_committed-IsOpen k t (i, a, h) = rw a refl

  finish_commit-IsValid :
      (tx_id : ℕ) (t : Transaction) (m : TransactionManager)
      → IsOpen P tx_id t
      → IsValid m
      → IsValid (after (finish_commit tx_id t m))
  unfolding finish_commit
  finish_commit-IsValid tx_id t m o h =
      rw (mark_committed-IsOpen tx_id t o)
        (IsValid-same (drop_active tx_id m) _ refl (IsValid-drop tx_id m h))

  commit-IsValid :
      (tx_id : ℕ) (m : TransactionManager) → IsValid m → IsValid (after (commit P S tx_id m))
  unfolding commit get_active commit_new
  commit-IsValid tx_id m h = elim (Option-cases (lookup tx_id m.active)) [
    | inl e ↦ rw e h
    | inr (t, e) ↦
        elim (Bool-cases (key_committed t.idempotency_key m.committed_idempotency_keys)) [
          | inl done ↦ rw e (rw done (IsValid-drop tx_id m h))
          | inr fresh ↦ rw e (
              rw fresh (
                on_wal-IsValid (append_commit P S tx_id m.signing_key t m.wal) m
                  (λ _. finish_commit tx_id t) h
                  λ u w.
                    finish_commit-IsValid tx_id t (record m { wal = w })
                      (IsValid-IsOpen tx_id t m h e)
                      (IsValid-same m (record m { wal = w }) refl h)))
        ]
  ]

  opened-active :
      (w : WalWriter) (key : Option Bytes) (m : TransactionManager)
      (x : Result TxError (ℕ × RecoveryResult))
      → opened w key x ≡ ok m
      → m.active ≡ []
  opened-active w key m (ok x) e = cc
  opened-active w key m (err x) e = cc

  pub opened-IsValid :
      (w : WalWriter) (key : Option Bytes) (m : TransactionManager)
      → open_with_signing_and_mode P S w key ≡ ok m
      → IsValid m
  unfolding open_with_signing_and_mode IsValid lookup
  opened-IsValid w key m e = rw (opened-active w key m _ e) λ k t h. absurd (ground arith)

  rolled_back-IsValid :
      (tx_id : ℕ) (t : Transaction) (m m' : TransactionManager)
      (x : Result WalError WalRecord × WalWriter)
      → IsValid m
      → bind_from
          (λ _. modify (drop_active tx_id))
          (zoom_result TxError.wal (λ w t. record t { wal = w }) (put_active tx_id t m) x)
        ≡ (ok tt, m')
      → IsValid m'
  unfolding put_active drop_active IsValid
  rolled_back-IsValid tx_id t m m' (ok r, w) h e =
      let left : m'.active ≡ remove tx_id (insert tx_id t m.active) = cc in
      rw left (AreOpen-replaced P tx_id t m.active h)
  rolled_back-IsValid tx_id t m m' (err x, w) h e = absurd (ground arith)

  rollback-IsValid :
      (tx_id : ℕ) (m m' : TransactionManager)
      → IsValid m
      → rollback tx_id m ≡ (ok tt, m')
      → IsValid m'
  unfolding rollback get_active mark_rolled_back put_active
  rollback-IsValid tx_id m m' h e = elim (Option-cases (lookup tx_id m.active)) [
    | inl n ↦ absurd (none_left (rw n at e))
    | inr (t, s) ↦
        rolled_back-IsValid tx_id (record t { state = TxState.rolled_back; mutations = [] }) m m'
          (append tx_id Body.rollback m.wal) h (rw (IsValid-IsOpen tx_id t m h s).1 at (rw s at e))
  ]
    where
      none_left :
          {x : TxError} {a b : TransactionManager}
          → ◌≡◌ {A = Result TxError (Unit {0}) × TransactionManager} (err x, a) (ok tt, b)
          → ⊥
      none_left e = ground arith

-- The calls on a manager but for one: a call of `rollback` whose write fails, which leaves a transaction
-- in the table that is not active. Transaction.Stranded has it too.
pub data Step (P : Platform) (S : Ed25519) : TransactionManager → TransactionManager → Type 0 where
  begins :
      (description : Option Bytes) (m : TransactionManager) → Step P S m (begin description m).1
  sets_key :
      (tx_id : ℕ) (key : Bytes) (m : TransactionManager)
      → Step P S m (set_idempotency_key tx_id key m).1
  adds :
      (tx_id table page slot : ℕ) (kind : MutationKind) (row : Bytes) (prev : Option Hash)
      (m : TransactionManager)
      → Step P S m (add_mutation P S tx_id table page slot kind row prev m).1
  commits : (tx_id : ℕ) (m : TransactionManager) → Step P S m (commit P S tx_id m).1
  rolls_back :
      (tx_id : ℕ) (m m' : TransactionManager) → rollback tx_id m ≡ (ok tt, m') → Step P S m m'

pub data Reachable (P : Platform) (S : Ed25519) : TransactionManager → Type 0 where
  opens :
      (w : WalWriter) (key : Option Bytes) (m : TransactionManager)
      → open_with_signing_and_mode P S w key ≡ ok m
      → Reachable P S m
  stepped : (m m' : TransactionManager) → Reachable P S m → Step P S m m' → Reachable P S m'

-- In every manager that these calls reach from an opened log, if no rollback fails, each transaction
-- of the table is active and stands under its own id, its running hash has taken the row hashes of its
-- mutations in order, and each row hash is the hash of the row.
pub Reachable-IsValid :
    (P : Platform) (S : Ed25519) (m : TransactionManager) → Reachable P S m → IsValid P S m
Reachable-IsValid P S m (opens w key _ e) = opened-IsValid P S w key m e
Reachable-IsValid P S m (stepped a _ r (begins d _)) =
    begin-IsValid P S d a (Reachable-IsValid P S a r)
Reachable-IsValid P S m (stepped a _ r (sets_key i k _)) =
    set_idempotency_key-IsValid P S i k a (Reachable-IsValid P S a r)
Reachable-IsValid P S m (stepped a _ r (adds i t p s k row prev _)) =
    add_mutation-IsValid P S i t p s k row prev a (Reachable-IsValid P S a r)
Reachable-IsValid P S m (stepped a _ r (commits i _)) =
    commit-IsValid P S i a (Reachable-IsValid P S a r)
Reachable-IsValid P S m (stepped a _ r (rolls_back i _ m' e)) =
    rollback-IsValid P S i a m (Reachable-IsValid P S a r) e
