-- ===== src/Transaction/Reuse.antt =====
-- A transaction id that a crash left with rows and no Commit record (manager.rs, recovery.rs).
use vector_ledger.Common.{
  arith, ℕ, ◌%◌, ◌^◌, ◌<◌, ◌≡◌, ◌≢◌, refl, ap, ◌∙◌, List, [], ◌∷◌, ◌++◌, Option, some, true, false,
  Result, ok, err, ◌>>=◌, length, length-append, ◌==◌,
}
use vector_ledger.Common.Bytes.{Bytes}
use vector_ledger.Common.Dict.{lookup}
use vector_ledger.Crypto.Hash.{Platform}
use vector_ledger.Crypto.Sign.{Ed25519}
use vector_ledger.Wal.Record.{WalError, WalRecord, Slot, Body}
use vector_ledger.Wal.Recovery.{
  CommittedTransaction, Scan, noted, scan, start, recover_streaming, verify_commit_full,
  commit_verified,
}
use vector_ledger.Wal.Recovery.Crash.{outcome, state_of, outcome-finish}
use vector_ledger.Transaction.Tx.{Transaction}
use vector_ledger.Transaction.Manager.{TransactionManager, key_committed, commit, commit_payload}
use vector_ledger.Transaction.Records.{AreRows}
use vector_ledger.Transaction.Verified.{length-AreRows}
use vector_ledger.Transaction.Replay.{rows_of, scan_rows, scan-append_ok, scan_record-commit}
use vector_ledger.Transaction.Steps.{IsValid}
use vector_ledger.Transaction.Commit.{of_ok, commit-Committed}

module _ (P : Platform) (S : Ed25519) where
  rejected_count :
      (key : Option Bytes) (t : Transaction) (c : WalRecord) (raw : List WalRecord)
      → c.body ≡ Body.commit (some (commit_payload P S key t))
      → (length t.mutations % 2 ^ 32 == length raw % 2 ^ 32) ≡ false
      → verify_commit_full P S c raw ≡ err (WalError.signature_invalid c.sequence)
  unfolding verify_commit_full commit_payload
  rejected_count key t c raw b h = rw b (rw h refl)

  other_count :
      (tx_id : ℕ) (t : Transaction) (old rs : List WalRecord)
      → AreRows tx_id t.mutations rs
      → old ≢ []
      → length old < 2 ^ 32
      → (length t.mutations % 2 ^ 32 == length (old ++ rs) % 2 ^ 32) ≡ false
  other_count tx_id t [] rs rows some_old few = absurd (some_old refl)
  other_count tx_id t (r ∷ old) rs rows some_old few =
      ground (arith, length-append (r ∷ old) rs, length-AreRows tx_id t.mutations rs rows)

  module _ {T E : Type 0} (from : WalError → E)
      (on_commit : T → CommittedTransaction → Result E T) where
    rejects :
        (c : WalRecord) (raw : List WalRecord) (s : Scan T) (e : WalError)
        → verify_commit_full P S c raw ≡ err e
        → state_of (commit_verified P S from true on_commit c raw s >>= λ s'. ok (s', false))
          ≡ err (from e)
    unfolding commit_verified
    rejects c raw s e h = rw h refl

    -- A commit under an id with rows left by a crash: a commit that returned no error, of an open
    -- transaction of a valid manager whose key is new, makes verified recovery of the log fail with an
    -- invalid signature, when the scan of the log before it reaches the end with no error and no torn
    -- write, and then holds rows of the same id, fewer than 2^32, with no Commit and no Rollback record.
    pub commit-unrecoverable :
        (tx_id : ℕ) (t : Transaction) (m : TransactionManager) (s : Scan T) (t0 : T)
        → IsValid P S m
        → lookup tx_id m.active ≡ some t
        → key_committed t.idempotency_key m.committed_idempotency_keys ≡ false
        → (commit P S tx_id m).0 ≡ ok tt
        → scan P S from true on_commit m.wal.log (start t0) ≡ ok (s, false)
        → rows_of P S from on_commit tx_id s ≢ []
        → length (rows_of P S from on_commit tx_id s) < 2 ^ 32
        → (seq : ℕ) × (outcome
              (recover_streaming P S from true on_commit (commit P S tx_id m).1.wal.log t0)
            ≡ err (from (WalError.signature_invalid seq)))
    unfolding recover_streaming scan
    commit-unrecoverable tx_id t m s t0 h active fresh done old some_old few =
        let (rs, c, rows, i, b, (g, mode)) =
          of_ok P S tx_id t m (commit P S tx_id m) (commit-Committed P S tx_id t m h active fresh)
            done in
        let (s', (skip, same, pending)) =
          scan_rows P S from on_commit tx_id t.mutations rs s rows in
        (
          c.sequence,
          outcome-finish _
              ∙ ap (λ l. state_of (scan P S from true on_commit l (start t0))) g
              ∙ ap state_of (
                  scan-append_ok P S from on_commit m.wal.log _ (start t0) s old
                  ∙ skip (Slot.whole c ∷ []))
              ∙ ap (λ x. state_of (x >>= λ s''. ok (s'', false)))
                  (scan_record-commit P S from on_commit c _ s' b
                    ∙ ap (λ x. commit_verified P S from true on_commit c x (noted c s'))
                        (ap (λ n. rows_of P S from on_commit n s') i ∙ pending))
              ∙ rejects c _ (noted c s') _ (
                  rejected_count m.signing_key t c _ b
                    (other_count tx_id t _ rs rows some_old few)),
        )
