-- ===== src/Transaction/Replay.antt =====
-- Recovery (recovery.rs), with verification, of the records that `commit` (manager.rs) writes.
use vector_ledger.Common.{
  ==_refl, ℕ, ◌≡◌, refl, sym, ap, ◌∙◌, List, [], ◌∷◌, ◌++◌, map, append_assoc, append-nil, Option,
  some, Bool, true, false, unwrap_or, Result, ok, err, ◌>>=◌, ltb, if◌then◌else◌,
}
use vector_ledger.Common.Bytes.{Bytes}
use vector_ledger.Common.Dict.{lookup, lookup-insert}
use vector_ledger.Crypto.Hash.{Platform}
use vector_ledger.Crypto.Sign.{Ed25519, Honest}
use vector_ledger.Wal.Record.{Body, WalRecord, WalError, Slot, CommitPayload}
use vector_ledger.Wal.Writer.{WalWriter}
use vector_ledger.Wal.Recovery.{
  CommittedTransaction, Scan, decoded, verify_commit_full, push, commit_verified, on_body,
  scan_record, scan, start, noted, recover_streaming,
}
use vector_ledger.Wal.Recovery.Crash.{outcome, state_of, outcome-finish}
use vector_ledger.Transaction.Tx.{Transaction, PendingMutation}
use vector_ledger.Transaction.Manager.{payload_of, commit_payload}
use vector_ledger.Transaction.Records.{AreRows, GrownCommitted}
use vector_ledger.Transaction.Verified.{
  hashes_of, decoded-AreRows, verify_commit_full-commit_payload,
}

module _ (P : Platform) (S : Ed25519) {T E : Type 0} (from : WalError → E)
    (on_commit : T → CommittedTransaction → Result E T) where
  abbrev pub rows_of : ℕ → Scan T → List WalRecord
  rows_of tx_id s = unwrap_or (lookup tx_id s.pending_raw) []

  -- The scan after the Data records of a transaction.
  abbrev pub ScannedRows : ℕ → List WalRecord → Scan T → Scan T → Type 0
  ScannedRows tx_id rs s s' =
      ((more : List Slot)
        → scan P S from true on_commit (map Slot.whole rs ++ more) s
          ≡ scan P S from true on_commit more s')
      × (s'.state ≡ s.state)
      × (rows_of tx_id s' ≡ rows_of tx_id s ++ rs)

  abbrev with_row : WalRecord → Scan T → Scan T
  unfolding push
  with_row r s = record s {
    pending_raw = push r.tx_id r s.pending_raw;
    last_sequence = if ltb s.last_sequence r.sequence then r.sequence else s.last_sequence;
  }

  scan_record-row :
      (m : PendingMutation) (r : WalRecord) (s : Scan T)
      → r.body ≡ Body.row (some (payload_of m))
      → scan_record P S from true on_commit r s ≡ ok (with_row r s)
  unfolding scan_record on_body
  scan_record-row m r s b = rw b refl

  rows_of-with_row :
      (r : WalRecord) (s : Scan T) → rows_of r.tx_id (with_row r s) ≡ rows_of r.tx_id s ++ r ∷ []
  unfolding push
  rows_of-with_row r s =
      rw (lookup-insert r.tx_id r.tx_id (rows_of r.tx_id s ++ r ∷ []) s.pending_raw)
        (rw (==_refl r.tx_id) refl)

  pub scan_rows :
      (tx_id : ℕ) (ms : List PendingMutation) (rs : List WalRecord) (s : Scan T)
      → AreRows tx_id ms rs
      → (s' : Scan T) × ScannedRows tx_id rs s s'
  unfolding scan
  scan_rows tx_id [] [] s h = (s, ((λ more. refl), refl, sym (append-nil _)))
  scan_rows tx_id [] (r ∷ rs) s h = absurd h
  scan_rows tx_id (m ∷ ms) [] s h = absurd h
  scan_rows tx_id (m ∷ ms) (r ∷ rs) s (i, b, h) =
      let (s', (skip, same, rows)) = scan_rows tx_id ms rs (with_row r s) h in
      (
        s',
        (
          (λ more. rw (scan_record-row m r s b) (skip more)),
          same,
          rows ∙ ap (λ l. l ++ rs) (rows_at i) ∙ append_assoc _ (r ∷ []) rs,
        ),
      )
    where
      rows_at : r.tx_id ≡ tx_id → rows_of tx_id (with_row r s) ≡ rows_of tx_id s ++ r ∷ []
      rows_at i = rw (sym i) (rows_of-with_row r s)

  scan-append_step :
      (x : Result E (Scan T)) (f g : Scan T → Result E (Scan T × Bool))
      (y : Result E (Scan T × Bool)) (s' : Scan T)
      → (x >>= f ≡ ok (s', false))
      → ((s : Scan T) → f s ≡ ok (s', false) → g s ≡ y)
      → (x >>= g) ≡ y
  scan-append_step (ok s) f g y s' h ih = ih s h
  scan-append_step (err e) f g y s' h ih = cc

  pub scan-append_ok :
      (log more : List Slot) (s s' : Scan T)
      → scan P S from true on_commit log s ≡ ok (s', false)
      → scan P S from true on_commit (log ++ more) s ≡ scan P S from true on_commit more s'
  unfolding scan
  scan-append_ok [] more s s' h = cc
  scan-append_ok (Slot.torn ∷ log) more s s' h = cc
  scan-append_ok (Slot.unreadable e ∷ log) more s s' h = cc
  scan-append_ok (Slot.whole r ∷ log) more s s' h =
      scan-append_step (scan_record P S from true on_commit r s) _ _ _ s' h
        λ s''. scan-append_ok log more s'' s'

  -- What the callback is given.
  abbrev committed : WalRecord → List WalRecord → CommittedTransaction
  committed c rs = record {
    tx_id = c.tx_id;
    commit_record = c;
    data_payloads = decoded rs;
    data_records = rs;
  }

  pub scan_record-commit :
      (c : WalRecord) (p : CommitPayload) (s : Scan T)
      → c.body ≡ Body.commit (some p)
      → scan_record P S from true on_commit c s
        ≡ commit_verified P S from true on_commit c (rows_of c.tx_id s) (noted c s)
  unfolding scan_record on_body
  scan_record-commit c p s b = ap (λ x. on_body P S from true on_commit c x (noted c s)) b

  delivered :
      (x : Result E T) (f : T → Scan T)
      → ((t : T) → (f t).state ≡ t)
      → state_of (x >>= (λ t. ok (f t)) >>= λ s. ok (s, false)) ≡ x
  delivered (ok t) f h = ap ok (h t)
  delivered (err e) f h = refl

  commit_verified-delivers :
      (c : WalRecord) (rs : List WalRecord) (s : Scan T)
      → verify_commit_full P S c rs ≡ ok tt
      → state_of (commit_verified P S from true on_commit c rs s >>= λ s'. ok (s', false))
        ≡ on_commit s.state (committed c rs)
  unfolding commit_verified
  commit_verified-delivers c rs s h =
      rw h (delivered (on_commit s.state (committed c rs)) _ λ t. refl)

  scan-commit :
      (c : WalRecord) (p : CommitPayload) (rs : List WalRecord) (s : Scan T)
      → c.body ≡ Body.commit (some p)
      → rows_of c.tx_id s ≡ rs
      → verify_commit_full P S c rs ≡ ok tt
      → state_of (scan P S from true on_commit (Slot.whole c ∷ []) s)
        ≡ on_commit s.state (committed c rs)
  unfolding scan
  scan-commit c p rs s b pending accepted =
      ap (λ x. state_of (x >>= λ s'. ok (s', false)))
        (scan_record-commit c p s b
          ∙ ap (λ x. commit_verified P S from true on_commit c x (noted c s)) pending)
      ∙ commit_verified-delivers c rs (noted c s) accepted

  -- The log of a finished commit: recovery, with verification, of the log that it has grown.
  pub recover_grown :
      (H : Honest S) (tx_id : ℕ) (t : Transaction) (key : Option Bytes) (w w' : WalWriter)
      (s : Scan T) (t0 : T)
      → t.hasher ≡ hashes_of t.mutations
      → GrownCommitted tx_id t.mutations (commit_payload P S key t) w w'
      → scan P S from true on_commit w.log (start t0) ≡ ok (s, false)
      → rows_of tx_id s ≡ []
      → (d : CommittedTransaction) × (d.tx_id ≡ tx_id)
        × (d.data_payloads ≡ map payload_of t.mutations)
        × (outcome (recover_streaming P S from true on_commit w'.log t0) ≡ on_commit s.state d)
  unfolding recover_streaming
  recover_grown H tx_id t key w w' s t0 h (rs, c, rows, i, b, (g, mode)) old none_pending =
      let (s', (skip, same, pending)) = scan_rows tx_id t.mutations rs s rows in
      (
        committed c rs,
        i,
        decoded-AreRows tx_id t.mutations rs rows,
        outcome-finish _
            ∙ ap (λ l. state_of (scan P S from true on_commit l (start t0))) g
            ∙ ap state_of (scan-append_ok w.log _ (start t0) s old ∙ skip (Slot.whole c ∷ []))
            ∙ scan-commit c (commit_payload P S key t) rs s' b
                (ap (λ n. rows_of n s') i ∙ pending ∙ ap (λ l. l ++ rs) none_pending)
                (verify_commit_full-commit_payload P S H tx_id t key c rs rows h b)
            ∙ ap (λ x. on_commit x (committed c rs)) same,
      )
