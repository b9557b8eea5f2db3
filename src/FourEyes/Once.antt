-- ===== src/FourEyes/Once.antt =====
-- How often an approval (queue.rs) posts its entry.
use vector_ledger.Common.{
  Fault, ℕ, ◌≡◌, refl, ap, ◌∙◌, true, false, inl, inr, none, some, Result, ok, err, Result-cases,
}
use vector_ledger.Common.Action.{Action, ◌>>◌, pure, bind_from}
use vector_ledger.Common.Bytes.{Bytes, bytes_eq}
use vector_ledger.Common.Dict.{lookup}
use vector_ledger.Common.Int.{ℤ}
use vector_ledger.FourEyes.Record.{ApprovalRecord, FourEyesError}
use vector_ledger.FourEyes.File.{File, Outcome, append_record, file_lines, find_in, without}
use vector_ledger.FourEyes.Queue.{
  Hex, Faults, FourEyesQueue, approved_record, get_pending, find_approved, call_post, leave_pending,
  approve_pending, approve, persist_approved,
}

module _ (L : Type 0) (hex : Hex) (post : Bytes → Action L Bytes (Unit {0})) (id : ℕ) where
  -- The call reaches the posting: the entry waits and is not approved, another person approves it, and
  -- its bytes decode.
  abbrev pub Reaches : ApprovalRecord → Bytes → Bytes → FourEyesQueue L → Type 0
  Reaches r a entry q =
      (find_in id (file_lines q.approved_file) ≡ ok none)
      × (lookup id q.pending ≡ some r)
      × (bytes_eq r.submitter_id a ≡ false)
      × (hex.decode r.entry_payload_hex ≡ some entry)

  -- What the call leaves, whatever happens to the files after the posting.
  abbrev Recorded : Outcome → ApprovalRecord → FourEyesQueue L → L → FourEyesQueue L → Type 0
  Recorded o x q l q' = (q'.ledger ≡ l) × (q'.approved_file ≡ append_record o x q.approved_file)

  abbrev pub faults_of : Outcome → Fault → Faults
  faults_of persist rewrite = record { find = true; persist = persist; rewrite = rewrite }

  -- `pure` after a step.
  after_pure :
      (P : FourEyesQueue L → Type 0) (x : ApprovalRecord)
      (y : Result FourEyesError (Unit {0}) × FourEyesQueue L)
      → P y.1
      → P (bind_from {E = FourEyesError} (λ _. pure {S = FourEyesQueue L} x) y).1
  after_pure P x (ok u, q) h = h
  after_pure P x (err e, q) h = h

  left_ledger :
      (fault : Fault) (q : FourEyesQueue L) (x : ApprovalRecord)
      → let q' = (leave_pending fault id q).1 in
        (q'.ledger ≡ q.ledger) × (q'.approved_file ≡ q.approved_file)
  unfolding leave_pending
  left_ledger Fault.works q x = elim (Result-cases (without id (file_lines q.pending_file))) [
    | inr (e, h) ↦ rw h (refl, refl)
    | inl (kept, h) ↦ rw h (refl, refl)
  ]
  left_ledger Fault.refused q x = elim (Result-cases (without id (file_lines q.pending_file))) [
    | inr (e, h) ↦ rw h (refl, refl)
    | inl (kept, h) ↦ rw h (refl, refl)
  ]
  left_ledger Fault.late q x = elim (Result-cases (without id (file_lines q.pending_file))) [
    | inr (e, h) ↦ rw h (refl, refl)
    | inl (kept, h) ↦ rw h (refl, refl)
  ]

  -- The end of an approval, after the write to the file of approvals.
  then_left :
      (o : Outcome) (fault : Fault) (q : FourEyesQueue L) (x : ApprovalRecord)
      → Recorded o x q q.ledger ((persist_approved o x >> (leave_pending fault id >> pure x)) q).1
  unfolding persist_approved
  then_left Outcome.written fault q x =
      after_pure (Recorded Outcome.written x q q.ledger) x _ (left_ledger fault _ x)
  then_left Outcome.refused fault q x = (refl, refl)
  then_left Outcome.unsynced fault q x = (refl, refl)
  then_left (Outcome.partly u) fault q x = (refl, refl)
  then_left Outcome.broken_off fault q x = (refl, refl)

  recorded :
      (o : Outcome) (rewrite : Fault) (r : ApprovalRecord) (a entry : Bytes) (now : ℤ)
      (q : FourEyesQueue L) (l : L)
      → Reaches r a entry q
      → post entry q.ledger ≡ (ok tt, l)
      → Recorded o
          (approved_record r a now)
          q
          l
          (approve hex (faults_of o rewrite) post id a now q).1
  unfolding approve find_approved approve_pending get_pending call_post
  recorded o rewrite r a entry now q l (n, s, two, d) p = rw n (
      rw s (
        rw two
          (rw d (rw p (then_left o rewrite (record q { ledger = l }) (approved_record r a now))))))

  -- The file of approvals holds a whole line of the id.
  abbrev Listed : File → Type 0
  Listed f = (x : ApprovalRecord) × (find_in id f.lines ≡ ok (some x))

  -- The window that stays open: when the write to the file of approvals fails and leaves nothing,
  -- after the entry was posted, the record is still pending, and the next approval posts the entry
  -- again, on the ledger that holds it already.
  pub approve-refused :
      (r : ApprovalRecord) (a entry : Bytes) (now : ℤ) (q : FourEyesQueue L) (l l' : L)
      → Reaches r a entry q
      → post entry q.ledger ≡ (ok tt, l)
      → post entry l ≡ (ok tt, l')
      → (approve hex
          (faults_of Outcome.written Fault.works)
          post
          id
          a
          now
          (approve hex (faults_of Outcome.refused Fault.works) post id a now q).1).1.ledger
        ≡ l'
  unfolding approve find_approved approve_pending get_pending call_post persist_approved
  approve-refused r a entry now q l l' (n, s, two, d) p p' =
      let first : (approve hex (faults_of Outcome.refused Fault.works) post id a now q).1
          ≡ record q { ledger = l } =
        rw n (rw s (rw two (rw d (rw p refl)))) in
      ap (λ x. (approve hex (faults_of Outcome.written Fault.works) post id a now x).1.ledger) first
      ∙ (recorded Outcome.written Fault.works r a entry now (record q { ledger = l }) l'
          (n, s, two, d) p').0
