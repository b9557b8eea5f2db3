-- ===== src/Transaction/Commit.antt =====
-- What `commit` (manager.rs) leaves in the log and in the manager, and what recovery (recovery.rs)
-- makes of that log.
use vector_ledger.Common.{
  arith, ℕ, ◌≡◌, refl, ap, ◌∙◌, [], map, some, Bool, true, false, Result, ok, err, inl, inr, ◌⊎◌,
  ltb, if◌then◌else◌,
}
use vector_ledger.Common.Action.{bind_from, zoom_result}
use vector_ledger.Common.Dict.{lookup, remove}
use vector_ledger.Crypto.Hash.{Platform}
use vector_ledger.Crypto.Sign.{Ed25519, Honest}
use vector_ledger.Wal.Record.{WalError}
use vector_ledger.Wal.Writer.{WalWriter, WalSyncMode}
use vector_ledger.Wal.Recovery.{CommittedTransaction, Scan, scan, start, recover_streaming}
use vector_ledger.Wal.Recovery.Crash.{outcome, recover_streaming-Unfinished}
use vector_ledger.Transaction.Tx.{TxError, Transaction}
use vector_ledger.Transaction.Manager.{
  TransactionManager, get_active, drop_active, key_committed, add_key, finish_commit, append_commit,
  commit_payload, commit_new, commit, payload_of,
}
use vector_ledger.Transaction.Records.{
  GrownUnfinished, GrownCommitted, AfterCommit, append_commit-grows,
}
use vector_ledger.Transaction.Replay.{rows_of, recover_grown}
use vector_ledger.Transaction.Steps.{IsValid, IsValid-IsOpen, mark_committed-IsOpen}

module _ (P : Platform) (S : Ed25519) where
  -- The log and the manager after `commit` of a transaction whose key is new.
  abbrev pub Committed :
      ℕ → Transaction → TransactionManager → Result TxError (Unit {0}) × TransactionManager → Type 0
  Committed tx_id t m (ok u, m') =
      GrownCommitted tx_id t.mutations (commit_payload P S m.signing_key t) m.wal m'.wal
      × (m'.active ≡ remove tx_id m.active)
      × (m'.committed_idempotency_keys ≡ add_key t.idempotency_key m.committed_idempotency_keys)
      × (m'.last_committed_tx_id
          ≡ (if ltb m.last_committed_tx_id tx_id then tx_id else m.last_committed_tx_id))
  Committed tx_id t m (err e, m') =
      (m'.active ≡ m.active)
      × (m'.committed_idempotency_keys ≡ m.committed_idempotency_keys)
      × (m'.last_committed_tx_id ≡ m.last_committed_tx_id)
      × (GrownUnfinished m.wal m'.wal
          ⊎ ((m.wal.sync_mode ≡ WalSyncMode.per_record)
              × GrownCommitted tx_id t.mutations (commit_payload P S m.signing_key t) m.wal m'.wal))

  finished :
      (tx_id : ℕ) (t : Transaction) (m : TransactionManager)
      (x : Result WalError (Unit {0}) × WalWriter)
      → IsValid P S m
      → lookup tx_id m.active ≡ some t
      → AfterCommit tx_id t.mutations (commit_payload P S m.signing_key t) m.wal x
      → Committed tx_id t m (
          bind_from
            (λ _. finish_commit tx_id t)
            (zoom_result TxError.wal (λ w t. record t { wal = w }) m x))
  unfolding finish_commit drop_active
  finished tx_id t m (ok u, w) h e g =
      rw (mark_committed-IsOpen P S tx_id t (IsValid-IsOpen P S tx_id t m h e))
        (g, refl, refl, refl)
  finished tx_id t m (err x, w) h e g = (refl, refl, refl, g)

  -- For an open transaction of a valid manager whose idempotency key, if it has one, was not committed,
  -- whatever the disk does: with no error, `commit` adds the Data records of all the mutations and then
  -- the signed Commit record to the log, takes the transaction out of the table, adds the key to the
  -- committed ones and raises the last committed id. With an error the table, the keys and the last
  -- id stay, and the log has grown by records with no Commit record, or, in `PerRecord` mode, by the
  -- whole transaction.
  pub commit-Committed :
      (tx_id : ℕ) (t : Transaction) (m : TransactionManager)
      → IsValid P S m
      → lookup tx_id m.active ≡ some t
      → key_committed t.idempotency_key m.committed_idempotency_keys ≡ false
      → Committed tx_id t m (commit P S tx_id m)
  unfolding commit get_active commit_new
  commit-Committed tx_id t m h e fresh = rw e (
      rw fresh (
        finished tx_id t m (append_commit P S tx_id m.signing_key t m.wal) h e
          (append_commit-grows P S tx_id m.signing_key t m.wal)))

  pub of_ok :
      (tx_id : ℕ) (t : Transaction) (m : TransactionManager)
      (x : Result TxError (Unit {0}) × TransactionManager)
      → Committed tx_id t m x
      → x.0 ≡ ok tt
      → GrownCommitted tx_id t.mutations (commit_payload P S m.signing_key t) m.wal x.1.wal
  of_ok tx_id t m (ok u, m') h e = h.0
  of_ok tx_id t m (err x, m') h e = absurd (ground arith)

  of_error :
      (tx_id : ℕ) (t : Transaction) (m : TransactionManager) (e : TxError)
      (x : Result TxError (Unit {0}) × TransactionManager)
      → Committed tx_id t m x
      → x.0 ≡ err e
      → m.wal.sync_mode ≡ WalSyncMode.group_commit
      → GrownUnfinished m.wal x.1.wal
  of_error tx_id t m e (ok u, m') h failed mode = absurd (ground arith)
  of_error tx_id t m e (err x, m') (_, _, _, inl g) failed mode = g
  of_error tx_id t m e (err x, m') (_, _, _, inr (other, g)) failed mode = absurd (ground arith)

  module _ {T E : Type 0} (from : WalError → E)
      (on_commit : T → CommittedTransaction → Result E T) where
    -- With honest signatures: after a commit that returned no error, of an open transaction of a valid
    -- manager whose key is new, verified recovery of the log gives the callback, after all that it
    -- delivered from the log before, exactly one transaction more: the one committed, with its mutations
    -- in order. The log before must scan to its end with no rows of that id pending.
    pub commit-recovered :
        (H : Honest S) (tx_id : ℕ) (t : Transaction) (m : TransactionManager) (s : Scan T) (t0 : T)
        → IsValid P S m
        → lookup tx_id m.active ≡ some t
        → key_committed t.idempotency_key m.committed_idempotency_keys ≡ false
        → (commit P S tx_id m).0 ≡ ok tt
        → scan P S from true on_commit m.wal.log (start t0) ≡ ok (s, false)
        → rows_of P S from on_commit tx_id s ≡ []
        → (d : CommittedTransaction) × (d.tx_id ≡ tx_id)
          × (d.data_payloads ≡ map payload_of t.mutations)
          × (outcome (recover_streaming P S from true on_commit (commit P S tx_id m).1.wal.log t0)
              ≡ on_commit s.state d)
    commit-recovered H tx_id t m s t0 h e fresh done old none_pending =
        recover_grown P S from on_commit H tx_id t m.signing_key m.wal (commit P S tx_id m).1.wal s
          t0 (IsValid-IsOpen P S tx_id t m h e).2.0
          (of_ok tx_id t m (commit P S tx_id m) (commit-Committed tx_id t m h e fresh) done) old
          none_pending

    -- A commit that returned an error in group-commit mode, the manager's default, leaves nothing to
    -- recover: of an open transaction of a valid manager whose key is new, recovery, verified or not,
    -- delivers from the log after it what it delivers from the log before it.
    pub commit_error-recovered :
        (verify : Bool) (tx_id : ℕ) (t : Transaction) (m : TransactionManager) (e : TxError)
        (t0 : T)
        → IsValid P S m
        → lookup tx_id m.active ≡ some t
        → key_committed t.idempotency_key m.committed_idempotency_keys ≡ false
        → m.wal.sync_mode ≡ WalSyncMode.group_commit
        → (commit P S tx_id m).0 ≡ err e
        → outcome (recover_streaming P S from verify on_commit (commit P S tx_id m).1.wal.log t0)
          ≡ outcome (recover_streaming P S from verify on_commit m.wal.log t0)
    commit_error-recovered verify tx_id t m e t0 h active fresh mode failed =
        let (slots, rest, g) =
          of_error tx_id t m e (commit P S tx_id m) (commit-Committed tx_id t m h active fresh)
            failed mode in
        ap (λ l. outcome (recover_streaming P S from verify on_commit l t0)) g.0
        ∙ recover_streaming-Unfinished P S from verify on_commit m.wal.log slots t0 rest
