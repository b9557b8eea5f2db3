-- ===== src/Wal/Recovery/Batch.antt =====
-- `recover_with_options` (recovery.rs), under `recover` and `recover_verified`: the recovery that
-- collects the transactions and sorts them.
use vector_ledger.Common.{
  arith, ◌+◌, ℕ, List, [], ◌∷◌, ◌++◌, Bool, true, false, if◌then◌else◌, ltb, length, unwrap_or,
  Result, ok, err, ◌>>=◌, ◌>>◌, ◌≡◌, refl, ap, ◌∙◌, sym,
}
use vector_ledger.Common.Dict.{Dict, lookup, remove, or_default}
use vector_ledger.Crypto.Hash.{Platform}
use vector_ledger.Crypto.Sign.{Ed25519}
use vector_ledger.Wal.Record.{Body, WalRecord, WalError, Slot}
use vector_ledger.Wal.Recovery.{
  CommittedTransaction, RecoveryResult, Scan, decoded, verify_commit_full, push, from_wal, finish,
  commit_verified, on_body, scan_record, scan, recover_streaming,
}

-- The variables of the loop.
pub record Batch : Type 0 where
  pub pending : Dict (List WalRecord)
  pub committed : List CommittedTransaction
  pub last_sequence : ℕ

-- `sort_by_key` on the sequence number, which keeps the order of equal keys.
unfoldable pub insert_by_sequence :
    CommittedTransaction → List CommittedTransaction → List CommittedTransaction
insert_by_sequence t [] = t ∷ []
insert_by_sequence t (u ∷ us) =
    let rest = insert_by_sequence t us in
    if ltb u.commit_record.sequence t.commit_record.sequence then u ∷ rest else t ∷ u ∷ us

unfoldable pub sort_by_sequence : List CommittedTransaction → List CommittedTransaction
unfolding insert_by_sequence
sort_by_sequence [] = []
sort_by_sequence (t ∷ ts) = insert_by_sequence t (sort_by_sequence ts)

abbrev pub transaction_of : WalRecord → List WalRecord → CommittedTransaction
transaction_of r raw = record {
  tx_id = r.tx_id;
  commit_record = r;
  data_payloads = decoded raw;
  data_records = raw;
}

abbrev pub sorted :
    List CommittedTransaction × RecoveryResult → List CommittedTransaction × RecoveryResult
unfolding sort_by_sequence
sorted (ts, r) = (sort_by_sequence ts, r)

abbrev pub finish_batch : Batch × Bool → List CommittedTransaction × RecoveryResult
unfolding sort_by_sequence
finish_batch (b, torn) = (
  sort_by_sequence b.committed,
  record {
    discarded_tx_count = length b.pending;
    last_sequence = b.last_sequence;
    torn_write_detected = torn;
  },
)

abbrev pub count : WalRecord → Batch → Batch
count r b = record b {
  last_sequence = if ltb b.last_sequence r.sequence then r.sequence else b.last_sequence;
}

module _ (P : Platform) (S : Ed25519) (verify : Bool) where
  unfoldable pub batch_commit : WalRecord → List WalRecord → Batch → Result WalError Batch
  unfolding verify_commit_full remove
  batch_commit r raw b = do
    if verify then verify_commit_full P S r raw else ok tt
    ok (record b {
      pending = remove r.tx_id b.pending;
      committed = b.committed ++ transaction_of r raw ∷ [];
    })

  unfoldable pub batch_body : WalRecord → Body → Batch → Result WalError Batch
  unfolding or_default push remove batch_commit
  batch_body r (Body.begin d) b = ok (record b { pending = or_default [] r.tx_id b.pending })
  batch_body r (Body.row p) b = ok (record b { pending = push r.tx_id r b.pending })
  batch_body r (Body.commit p) b = batch_commit r (unwrap_or (lookup r.tx_id b.pending) []) b
  batch_body r Body.rollback b = ok (record b { pending = remove r.tx_id b.pending })
  batch_body r Body.schema b = ok b
  batch_body r Body.segment_header b = ok b
  batch_body r (Body.checkpoint p) b = ok b

  unfoldable pub batch_scan : List Slot → Batch → Result WalError (Batch × Bool)
  unfolding batch_body
  batch_scan [] b = ok (b, false)
  batch_scan (Slot.torn ∷ log) b = ok (b, true)
  batch_scan (Slot.unreadable e ∷ log) b = err e
  batch_scan (Slot.whole r ∷ log) b = do b' ← batch_body r r.body (count r b); batch_scan log b'

  unfoldable pub recover_with_options :
      List Slot → Result WalError (List CommittedTransaction × RecoveryResult)
  unfolding batch_scan
  recover_with_options log = do
    r ← batch_scan log (record { pending = []; committed = []; last_sequence = 0 })
    ok (finish_batch r)

-- The callback that collects.
abbrev pub collect_all :
    List CommittedTransaction → CommittedTransaction → Result WalError (List CommittedTransaction)
collect_all ts t = ok (ts ++ t ∷ [])

module _ (P : Platform) (S : Ed25519) where
  -- The scan that stands for a batch.
  abbrev embed : Batch → Scan (List CommittedTransaction)
  embed b = record {
    pending_payloads = [];
    pending_raw = b.pending;
    last_sequence = b.last_sequence;
    state = b.committed;
  }

  abbrev embed_result : Result WalError Batch → Result WalError (Scan (List CommittedTransaction))
  embed_result (ok b) = ok (embed b)
  embed_result (err e) = err e

  accepted :
      (x : Result WalError (Unit {0})) (b : Batch)
      → (from_wal (λ e. e) x >>= λ _. ok (embed b)) ≡ embed_result (x >>= λ _. ok b)
  accepted (ok u) b = refl
  accepted (err e) b = refl

  on_body-batch_body :
      (r : WalRecord) (body : Body) (b : Batch)
      → on_body P S (λ e. e) true collect_all r body (embed b)
        ≡ embed_result (batch_body P S true r body b)
  unfolding on_body batch_body batch_commit commit_verified remove
  on_body-batch_body r (Body.begin d) b = refl
  on_body-batch_body r (Body.row p) b = refl
  on_body-batch_body r (Body.commit p) b = accepted _ _
  on_body-batch_body r Body.rollback b = refl
  on_body-batch_body r Body.schema b = refl
  on_body-batch_body r Body.segment_header b = refl
  on_body-batch_body r (Body.checkpoint p) b = refl

  abbrev embed_end :
      Result WalError (Batch × Bool) → Result WalError (Scan (List CommittedTransaction) × Bool)
  embed_end (ok (b, torn)) = ok (embed b, torn)
  embed_end (err e) = err e

  next_slot :
      (x : Result WalError Batch)
      (f : Scan (List CommittedTransaction)
        → Result WalError (Scan (List CommittedTransaction) × Bool))
      (g : Batch → Result WalError (Batch × Bool))
      → ((b : Batch) → f (embed b) ≡ embed_end (g b))
      → (embed_result x >>= f) ≡ embed_end (x >>= g)
  next_slot (ok b) f g h = h b
  next_slot (err e) f g h = refl

  scan-batch_scan :
      (log : List Slot) (b : Batch)
      → scan P S (λ e. e) true collect_all log (embed b) ≡ embed_end (batch_scan P S true log b)
  unfolding scan scan_record batch_scan
  scan-batch_scan [] b = refl
  scan-batch_scan (Slot.torn ∷ log) b = refl
  scan-batch_scan (Slot.unreadable e ∷ log) b = refl
  scan-batch_scan (Slot.whole r ∷ log) b =
      ap (λ x. x >>= scan P S (λ e. e) true collect_all log)
        (on_body-batch_body r r.body (count r b))
      ∙ next_slot (batch_body P S true r r.body (count r b)) _ _ (scan-batch_scan log)

  same_end :
      (y : Result WalError (Batch × Bool))
      → (y >>= λ r. ok (finish_batch r))
        ≡ (embed_end y >>= (λ r. ok (finish r)) >>= λ r. ok (sorted r))
  unfolding finish_batch
  same_end (ok (b, torn)) =
      let none_plain : length b.pending ≡ 0 + length b.pending = omega arith in
      ap
        (λ n. ok (
          sort_by_sequence b.committed,
          record {
            discarded_tx_count = n;
            last_sequence = b.last_sequence;
            torn_write_detected = torn;
          },
        ))
        none_plain
  same_end (err e) = refl

  -- On every log, verified recovery that collects gives what verified recovery with a callback gives
  -- when the callback collects the transactions and they are then sorted by the sequence number of
  -- their Commit records: the same transactions, counts and errors.
  pub recover_with_options-recover_streaming :
      (log : List Slot)
      → recover_with_options P S true log
        ≡ (recover_streaming P S (λ e. e) true collect_all log [] >>= λ r. ok (sorted r))
  unfolding recover_with_options recover_streaming
  recover_with_options-recover_streaming log =
      same_end _
      ∙ ap (λ x. x >>= (λ r. ok (finish r)) >>= λ r. ok (sorted r)) (sym (scan-batch_scan log _))
