-- ===== src/FourEyes/Queue.antt =====
-- crates/vledger-foureyes/src/queue.rs: `FourEyesQueue`, over its files (FourEyes.File). The audit
-- events, whose errors are ignored, are left out.
use vector_ledger.Common.{
  ℕ, List, [], ◌∷◌, Bool, Option, none, some, if◌then◌else◌, Result, ok, err, ok_or, Fault,
}
use vector_ledger.Common.Action.{Action, ◌>>=◌, ◌>>◌, pure, lift, modify, inspect, throw_if}
use vector_ledger.Common.Bytes.{Bytes, bytes_eq}
use vector_ledger.Common.Dict.{Dict, lookup, insert, remove}
use vector_ledger.Common.Int.{ℤ}
use vector_ledger.FourEyes.File.{
  File, Line, Tail, Outcome, file_lines, append_record, append_result, find_in, without,
}
use vector_ledger.FourEyes.Record.{ApprovalStatus, ApprovalRecord, FourEyesError}

-- The hex crate.
pub record Hex : Type 0 where
  pub encode : Bytes → Bytes
  pub decode : Bytes → Option Bytes

-- The faults of one call: of opening `approved.jsonl` for the search (true if it works), of the append
-- to a file of decisions, and of the rewriting of `pending.jsonl`, which a rename makes atomic.
pub record Faults : Type 0 where
  pub find : Bool
  pub persist : Outcome
  pub rewrite : Fault

-- `ledger` is the state of the ledger that `post_fn` changes.
pub record FourEyesQueue (L : Type 0) : Type 0 where
  pub pending_file : File
  pub approved_file : File
  pub rejected_file : File
  pub pending : Dict ApprovalRecord
  pub ledger : L

abbrev pub Call : Type 0 → Type 0 → Type 0
Call L A = Action (FourEyesQueue L) FourEyesError A

abbrev pub change_file :
    {L : Type 0} → Fault → (FourEyesQueue L → FourEyesQueue L) → Call L (Unit {0})
change_file Fault.works f q = (ok tt, f q)
change_file Fault.refused f q = (err FourEyesError.io, q)
change_file Fault.late f q = (err FourEyesError.io, f q)

unfoldable pub load_pending :
    List Line → Dict ApprovalRecord → Result FourEyesError (Dict ApprovalRecord)
unfolding insert
load_pending [] d = ok d
load_pending (Line.whole r ∷ ls) d = load_pending ls (insert r.id r d)
load_pending (Line.malformed ∷ ls) d = load_pending ls d
load_pending (Line.unreadable ∷ ls) d = err FourEyesError.io

abbrev pub approved_record : ApprovalRecord → Bytes → ℤ → ApprovalRecord
approved_record r approver now = record r {
  status = ApprovalStatus.approved;
  approver_id = some approver;
  decided_at = some now;
}

abbrev pub rejected_record : ApprovalRecord → Bytes → Bytes → ℤ → ApprovalRecord
rejected_record r approver reason now = record r {
  status = ApprovalStatus.rejected;
  approver_id = some approver;
  reject_reason = some reason;
  decided_at = some now;
}

module _ {L : Type 0} where
  abbrev pub with_pending :
      FourEyesQueue L
      → Result FourEyesError (Dict ApprovalRecord)
      → Result FourEyesError (FourEyesQueue L)
  with_pending q (ok d) = ok (record q { pending = d })
  with_pending q (err e) = err e

  -- A restart: the files stay, and the index is read from `pending.jsonl`.
  unfoldable pub reopen : FourEyesQueue L → Result FourEyesError (FourEyesQueue L)
  unfolding load_pending
  reopen q = with_pending q (load_pending (file_lines q.pending_file) [])

  unfoldable pub persist_pending : Outcome → ApprovalRecord → Call L (Unit {0})
  persist_pending o r q =
      (append_result o, record q { pending_file = append_record o r q.pending_file })

  -- `persist_decided`, for each of its two files.
  unfoldable pub persist_approved : Outcome → ApprovalRecord → Call L (Unit {0})
  persist_approved o r q =
      (append_result o, record q { approved_file = append_record o r q.approved_file })

  unfoldable pub persist_rejected : Outcome → ApprovalRecord → Call L (Unit {0})
  persist_rejected o r q =
      (append_result o, record q { rejected_file = append_record o r q.rejected_file })

  unfoldable pub submit :
      Hex → Outcome → ℕ → ℤ → Bytes → Bytes → Bytes → Bytes → Call L ApprovalRecord
  unfolding insert persist_pending
  submit hex o id now entry description domain submitter =
      let r : ApprovalRecord = record {
        id = id;
        status = ApprovalStatus.pending;
        submitter_id = submitter;
        approver_id = none;
        reject_reason = none;
        submitted_at = now;
        decided_at = none;
        entry_payload_hex = hex.encode entry;
        description = description;
        domain = domain;
      } in
      persist_pending o r >> (modify (λ q. record q { pending = insert id r q.pending }) >> pure r)

  unfoldable pub get_pending : ℕ → Call L ApprovalRecord
  unfolding lookup
  get_pending id q = (ok_or (lookup id q.pending) (FourEyesError.not_found id), q)

  unfoldable pub find_approved : Bool → ℕ → Call L (Option ApprovalRecord)
  unfolding find_in
  find_approved found id q =
      (if found then find_in id (file_lines q.approved_file) else err FourEyesError.io, q)

  -- The closure works on the ledger.
  abbrev pub posted :
      {A : Type 0} → FourEyesQueue L → Result Bytes A × L → Result FourEyesError A × FourEyesQueue L
  posted q (ok a, l) = (ok a, record q { ledger = l })
  posted q (err m, l) = (err (FourEyesError.post_failed m), record q { ledger = l })

  unfoldable pub call_post : (Bytes → Action L Bytes (Unit {0})) → Bytes → Call L (Unit {0})
  call_post post entry q = posted q (post entry q.ledger)

  unfoldable pub leave_pending : Fault → ℕ → Call L (Unit {0})
  unfolding without remove
  leave_pending fault id = do
    kept ← inspect (λ (q : FourEyesQueue L). without id (file_lines q.pending_file))
    change_file fault (λ (q : FourEyesQueue L). record q {
      pending_file = record { lines = kept; tail = Tail.closed };
    })
    modify (λ (q : FourEyesQueue L). record q { pending = remove id q.pending })

  unfoldable pub approve_pending :
      Hex → Faults → (Bytes → Action L Bytes (Unit {0})) → ℕ → Bytes → ℤ → Call L ApprovalRecord
  unfolding get_pending call_post leave_pending persist_approved
  approve_pending hex faults post id approver now = do
    r ← get_pending id
    throw_if (bytes_eq r.submitter_id approver) (FourEyesError.self_approval approver)
    entry ← lift (ok_or (hex.decode r.entry_payload_hex) (FourEyesError.serialisation []))
    call_post post entry
    persist_approved faults.persist (approved_record r approver now)
    leave_pending faults.rewrite id
    pure (approved_record r approver now)

  unfoldable pub approve :
      Hex → Faults → (Bytes → Action L Bytes (Unit {0})) → ℕ → Bytes → ℤ → Call L ApprovalRecord
  unfolding find_approved approve_pending
  approve hex faults post id approver now = do
    already ← find_approved faults.find id
    elim already [ some r ↦ pure r | none ↦ approve_pending hex faults post id approver now ]

  unfoldable pub reject : Faults → ℕ → Bytes → Bytes → ℤ → Call L ApprovalRecord
  unfolding get_pending leave_pending persist_rejected
  reject faults id approver reason now = do
    r ← get_pending id
    throw_if (bytes_eq r.submitter_id approver) (FourEyesError.self_approval approver)
    persist_rejected faults.persist (rejected_record r approver reason now)
    leave_pending faults.rewrite id
    pure (rejected_record r approver reason now)
