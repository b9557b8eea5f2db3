-- ===== src/Transaction/Manager.antt =====
-- crates/vledger-transaction/src/manager.rs: `TransactionManager`. The signing key stands as its
-- bytes; `started_at` takes the clock of the log's environment.
use vector_ledger.Common.{
  ℕ, ◌+◌, ◌%◌, ◌^◌, List, [], ◌∷◌, ◌++◌, Option, none, some, Bool, false, ◌||◌, if◌then◌else◌, ltb,
  Result, ok, err, ok_or,
}
use vector_ledger.Common.Action.{Action, ◌>>=◌, ◌>>◌, pure, lift, gets, modify, throw_if, zoom}
use vector_ledger.Common.Bytes.{Bytes, bytes_eq, to_le_bytes}
use vector_ledger.Common.Dict.{Dict, lookup, insert, remove}
use vector_ledger.Crypto.Hash.{Platform, Hash, hash_bytes}
use vector_ledger.Crypto.Sign.{Ed25519}
use vector_ledger.Wal.Record.{MutationKind, DataPayload, CommitPayload, Body, WalError}
use vector_ledger.Wal.Writer.{WalWriter, append, checkpoint, checkpoint_with_merkle_root}
use vector_ledger.Wal.Recovery.{CommittedTransaction, RecoveryResult, recover_streaming}
use vector_ledger.Transaction.Tx.{
  TxError, Transaction, PendingMutation, push_mutation, with_idempotency_key, tx_hash,
  mark_committed, mark_rolled_back, mutation_count,
}
use vector_ledger.Transaction.Tx

pub record TransactionManager : Type 0 where
  pub wal : WalWriter
  pub next_tx_id : ℕ
  pub active : Dict Transaction
  pub committed_idempotency_keys : List Bytes
  pub last_committed_tx_id : ℕ
  pub signing_key : Option Bytes

unfoldable pub contains : Bytes → List Bytes → Bool
unfolding bytes_eq
contains key [] = false
contains key (k ∷ ks) = bytes_eq key k || contains key ks

-- An action on the log, its errors as `TxError::Wal`.
abbrev pub on_wal : {A : Type 0} → Action WalWriter WalError A → Action TransactionManager TxError A
on_wal m = zoom (λ (t : TransactionManager). t.wal) (λ w t. record t { wal = w }) TxError.wal m

unfoldable pub get_active : ℕ → Action TransactionManager TxError Transaction
unfolding lookup
get_active tx_id m = (ok_or (lookup tx_id m.active) (TxError.not_found tx_id), m)

unfoldable pub put_active : ℕ → Transaction → TransactionManager → TransactionManager
unfolding insert
put_active tx_id t m = record m { active = insert tx_id t m.active }

unfoldable pub drop_active : ℕ → TransactionManager → TransactionManager
unfolding remove
drop_active tx_id m = record m { active = remove tx_id m.active }

-- The callback of `open_with_signing_and_mode`, on the greatest committed id.
abbrev pub note_committed : ℕ → CommittedTransaction → Result TxError ℕ
note_committed last t = ok (if ltb last t.tx_id then t.tx_id else last)

abbrev pub opened :
    WalWriter
    → Option Bytes
    → Result TxError (ℕ × RecoveryResult)
    → Result TxError TransactionManager
opened w key (err e) = err e
opened w key (ok (last, info)) = ok (record {
  wal = w;
  next_tx_id = (last + 1) % 2 ^ 64;
  active = [];
  committed_idempotency_keys = [];
  last_committed_tx_id = last;
  signing_key = key;
})

-- The end of `begin`: the transaction enters the table.
abbrev pub activate : ℕ → ℕ → Option Bytes → Action TransactionManager TxError ℕ
activate tx_id snapshot description = do
  now ← gets (λ (m : TransactionManager). m.wal.disk.clock m.wal.sequence)
  modify (put_active tx_id (Tx.new tx_id snapshot description now))
  pure tx_id

-- The id is taken before the record is written, and is not given back when the write fails.
unfoldable pub begin : Option Bytes → Action TransactionManager TxError ℕ
unfolding append
begin description = do
  tx_id ← gets (λ (m : TransactionManager). m.next_tx_id)
  snapshot ← gets (λ (m : TransactionManager). (m.last_committed_tx_id + 1) % 2 ^ 64)
  modify (λ (m : TransactionManager). record m { next_tx_id = (m.next_tx_id + 1) % 2 ^ 64 })
  on_wal (append tx_id (Body.begin description))
  activate tx_id snapshot description

unfoldable pub set_idempotency_key : ℕ → Bytes → Action TransactionManager TxError (Unit {0})
unfolding contains lookup insert with_idempotency_key
set_idempotency_key tx_id key = do
  used ← gets (λ (m : TransactionManager). contains key m.committed_idempotency_keys)
  throw_if used (TxError.idempotency_key_conflict key)
  t ← get_active tx_id
  t' ← lift (with_idempotency_key key t)
  modify (put_active tx_id t')

abbrev pub payload_of : PendingMutation → DataPayload
payload_of m = record {
  table_id = m.table_id;
  page_id = m.page_id;
  slot_id = m.slot_id;
  mutation = m.kind;
  row_data = m.row_data;
  row_hash = m.row_hash;
  prev_hash = m.prev_hash;
}

-- The loop over the mutations.
unfoldable pub append_rows : ℕ → List PendingMutation → Action WalWriter WalError (Unit {0})
unfolding append
append_rows tx_id [] = pure tt
append_rows tx_id (m ∷ ms) = do append tx_id (Body.row (some (payload_of m))); append_rows tx_id ms

abbrev pub key_committed : Option Bytes → List Bytes → Bool
key_committed none keys = false
key_committed (some key) keys = contains key keys

abbrev pub add_key : Option Bytes → List Bytes → List Bytes
add_key none keys = keys
add_key (some key) keys = if contains key keys then keys else key ∷ keys

-- Step 5: the transaction goes, then its state is checked, and only then the rest is set.
unfoldable pub finish_commit : ℕ → Transaction → Action TransactionManager TxError (Unit {0})
unfolding remove mark_committed contains
finish_commit tx_id t = do
  modify (drop_active tx_id)
  lift (mark_committed t)
  modify (λ (m : TransactionManager). record m {
    last_committed_tx_id =
        if ltb m.last_committed_tx_id tx_id then tx_id else m.last_committed_tx_id;
    committed_idempotency_keys = add_key t.idempotency_key m.committed_idempotency_keys;
  })

-- A Rollback record carries no payload. The state of the transaction changes before the write.
unfoldable pub rollback : ℕ → Action TransactionManager TxError (Unit {0})
unfolding lookup insert remove mark_rolled_back append
rollback tx_id = do
  t ← get_active tx_id
  t' ← lift (mark_rolled_back t)
  modify (put_active tx_id t')
  on_wal (append tx_id Body.rollback)
  modify (drop_active tx_id)

unfoldable pub manager_checkpoint : Action TransactionManager TxError ℕ
unfolding checkpoint
manager_checkpoint = on_wal checkpoint

module _ (P : Platform) (S : Ed25519) where
  -- Over the log that the writer has opened.
  unfoldable pub open_with_signing_and_mode :
      WalWriter → Option Bytes → Result TxError TransactionManager
  unfolding recover_streaming
  open_with_signing_and_mode w key =
      opened w key (recover_streaming P S TxError.wal false note_committed w.log 0)

  unfoldable pub add_mutation :
      ℕ
      → ℕ
      → ℕ
      → ℕ
      → MutationKind
      → Bytes
      → Option Hash
      → Action TransactionManager TxError (Unit {0})
  unfolding lookup insert push_mutation hash_bytes
  add_mutation tx_id table_id page_id slot_id kind row_data prev_hash = do
    t ← get_active tx_id
    t' ← lift (
        push_mutation
          (record {
            table_id = table_id;
            page_id = page_id;
            slot_id = slot_id;
            kind = kind;
            row_data = row_data;
            row_hash = hash_bytes P row_data;
            prev_hash = prev_hash;
          })
          t)
    modify (put_active tx_id t')

  -- The signature and the public key of a commit; both empty with no key.
  unfoldable pub commit_signature : Option Bytes → Transaction → Bytes × Bytes
  unfolding tx_hash
  commit_signature none t = ([], [])
  commit_signature (some key) t =
      (S.sign key (tx_hash P t ++ to_le_bytes 4 (mutation_count t % 2 ^ 32)), S.public_key key)

  unfoldable pub commit_payload : Option Bytes → Transaction → CommitPayload
  unfolding tx_hash commit_signature
  commit_payload key t = record {
    record_count = mutation_count t % 2 ^ 32;
    tx_hash = tx_hash P t;
    signature = (commit_signature key t).0;
    signer_pubkey = (commit_signature key t).1;
  }

  -- Steps 3 and 4: the records of the transaction.
  unfoldable pub append_commit :
      ℕ → Option Bytes → Transaction → Action WalWriter WalError (Unit {0})
  unfolding append append_rows
  append_commit tx_id key t = do
    append_rows tx_id t.mutations
    append tx_id (Body.commit (some (commit_payload key t)))
    pure tt

  unfoldable pub commit_new : ℕ → Transaction → Action TransactionManager TxError (Unit {0})
  unfolding append_commit finish_commit
  commit_new tx_id t = do
    key ← gets (λ (m : TransactionManager). m.signing_key)
    on_wal (append_commit tx_id key t)
    finish_commit tx_id t

  unfoldable pub commit : ℕ → Action TransactionManager TxError (Unit {0})
  unfolding lookup remove contains commit_new
  commit tx_id = do
    t ← get_active tx_id
    done ←
        gets
          (λ (m : TransactionManager). key_committed t.idempotency_key m.committed_idempotency_keys)
    if done then modify (drop_active tx_id) else commit_new tx_id t

  -- `precompute_commit_signature`.
  unfoldable pub precompute_commit_signature : ℕ → TransactionManager → Option (Bytes × Bytes)
  unfolding lookup commit_signature
  precompute_commit_signature tx_id m = elim (lookup tx_id m.active) [
    | none ↦ none
    | some t ↦ elim m.signing_key [ none ↦ none | some key ↦ some (commit_signature (some key) t) ]
  ]

  unfoldable pub checkpoint_signed : Hash → Action TransactionManager TxError ℕ
  unfolding checkpoint_with_merkle_root
  checkpoint_signed root = do
    key ← gets (λ (m : TransactionManager). m.signing_key)
    on_wal (checkpoint_with_merkle_root S root key)
