-- ===== src/FourEyes/Tests.antt =====
-- Tests of the queue, and the theorems at concrete inputs. The ledger is the list of what was posted.
use vector_ledger.Common.{Fault, ◌≡◌, refl, List, [], ◌∷◌, ◌++◌, true, none, some, ok}
use vector_ledger.Common.Action.{Action}
use vector_ledger.Common.Bytes.{Bytes, codes, bytes_eq}
use vector_ledger.Common.Dict.{lookup, insert}
use vector_ledger.Common.Int.{pos}
use vector_ledger.FourEyes.Record.{ApprovalStatus, ApprovalRecord}
use vector_ledger.FourEyes.File.{File, Line, Tail, Outcome, find_in}
use vector_ledger.FourEyes.Queue.{Hex, Faults, FourEyesQueue, load_pending, submit, approve, reopen}
use vector_ledger.FourEyes.Runs.{Step, Run}
use vector_ledger.FourEyes.Duties.{IsSeparated, Run-IsSeparated}
use vector_ledger.FourEyes.Once.{faults_of, approve-refused}

-- A toy encoding: the bytes themselves.
abbrev toy_hex : Hex
toy_hex = record { encode = λ b. b; decode = λ b. some b }

abbrev post : Bytes → Action (List Bytes) Bytes (Unit {0})
post entry l = (ok tt, l ++ entry ∷ [])

abbrev no_lines : File
no_lines = record { lines = []; tail = Tail.closed }

abbrev empty : FourEyesQueue (List Bytes)
empty = record {
  pending_file = no_lines;
  approved_file = no_lines;
  rejected_file = no_lines;
  pending = [];
  ledger = [];
}

abbrev request : ApprovalRecord
request = record {
  id = 4;
  status = ApprovalStatus.pending;
  submitter_id = codes "ann";
  approver_id = none;
  reject_reason = none;
  submitted_at = pos 1;
  decided_at = none;
  entry_payload_hex = 7 ∷ [];
  description = codes "rent";
  domain = codes "main";
}

abbrev waiting : FourEyesQueue (List Bytes)
waiting = record empty {
  pending_file = record { lines = Line.whole request ∷ []; tail = Tail.closed };
  pending = (4, request) ∷ [];
}

abbrev faultless : Faults
faultless = record { find = true; persist = Outcome.written; rewrite = Fault.works }

submitted :
    (submit toy_hex Outcome.written 4
      (pos 1)
      (7 ∷ [])
      (codes "rent")
      (codes "main")
      (codes "ann")
      empty).1
    ≡ waiting
unfolding submit insert
submitted = refl

reopened : reopen waiting ≡ ok waiting
unfolding reopen load_pending insert
reopened = refl

Run-IsSeparated_example :
    IsSeparated (List Bytes) (approve toy_hex faultless post 4 (codes "bob") (pos 2) waiting).1
unfolding IsSeparated
Run-IsSeparated_example =
    Run-IsSeparated (List Bytes) waiting
      (approve toy_hex faultless post 4 (codes "bob") (pos 2) waiting).1
      (Run.more _ _ _ (Run.more _ _ _ (Run.done waiting) (Step.restarts waiting waiting reopened))
        (Step.approves toy_hex faultless post 4 (codes "bob") (pos 2) waiting))
      ((tt, tt), (tt, tt))

-- The line of the approval is written, and the rewriting of the pending file fails.
unfoldable crashed : FourEyesQueue (List Bytes)
unfolding approve
crashed =
    (approve toy_hex (faults_of (List Bytes) toy_hex post 4 Outcome.written Fault.refused) post 4
      (codes "bob") (pos 2) waiting).1

approve-refused_example :
    (approve toy_hex
      (faults_of (List Bytes) toy_hex post 4 Outcome.written Fault.works)
      post
      4
      (codes "bob")
      (pos 2)
      (approve toy_hex
        (faults_of (List Bytes) toy_hex post 4 Outcome.refused Fault.works)
        post
        4
        (codes "bob")
        (pos 2)
        waiting).1).1.ledger
    ≡ (7 ∷ []) ∷ (7 ∷ []) ∷ []
unfolding lookup find_in bytes_eq
approve-refused_example =
    approve-refused (List Bytes) toy_hex post 4 request (codes "bob") (7 ∷ []) (pos 2) waiting
      ((7 ∷ []) ∷ []) ((7 ∷ []) ∷ (7 ∷ []) ∷ []) (refl, refl, refl, refl) refl refl
