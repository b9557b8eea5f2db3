-- ===== src/FourEyes/Duties.antt =====
-- The decisions of the queue (queue.rs) are of two persons.
use vector_ledger.Common.{Bool, true, false, ◌≡◌, ◌≢◌, refl, List, [], ◌∷◌, ◌++◌, some, All}
use vector_ledger.Common.Bytes.{Bytes}
use vector_ledger.FourEyes.Record.{ApprovalRecord}
use vector_ledger.FourEyes.File.{File, Line, Tail, Outcome, append_record, ended, cut, unend}
use vector_ledger.FourEyes.Queue.{FourEyesQueue}
use vector_ledger.FourEyes.Runs.{Run, Run-Files}

-- Another person than the submitter has decided.
abbrev pub OfTwo : ApprovalRecord → Type 0
OfTwo r = (a : Bytes) × (r.approver_id ≡ some a) × (r.submitter_id ≢ a)

abbrev pub LineOfTwo : Line → Type 0
LineOfTwo (Line.whole r) = OfTwo r
LineOfTwo Line.malformed = Unit
LineOfTwo Line.unreadable = Unit

abbrev pub TailOfTwo : Tail → Type 0
TailOfTwo (Tail.unended r) = OfTwo r
TailOfTwo Tail.closed = Unit
TailOfTwo (Tail.fragment u) = Unit

-- Every record of a file is a decision of two persons.
abbrev pub FileOfTwo : File → Type 0
FileOfTwo f = All LineOfTwo f.lines × TailOfTwo f.tail

All-append_one :
    (ls : List Line) (l : Line) → All LineOfTwo ls → LineOfTwo l → All LineOfTwo (ls ++ l ∷ [])
All-append_one [] l h new = (new, tt)
All-append_one (s ∷ ls) l h new = (h.0, All-append_one ls l h.1 new)

ended-LineOfTwo : (t : Tail) (r : ApprovalRecord) → OfTwo r → LineOfTwo (ended t r)
ended-LineOfTwo Tail.closed r h = h
ended-LineOfTwo (Tail.fragment true) r h = tt
ended-LineOfTwo (Tail.fragment false) r h = tt
ended-LineOfTwo (Tail.unended d) r h = tt

cut-TailOfTwo : (u : Bool) (t : Tail) → TailOfTwo (cut u t)
cut-TailOfTwo u Tail.closed = tt
cut-TailOfTwo u (Tail.fragment v) = tt
cut-TailOfTwo u (Tail.unended d) = tt

unend-TailOfTwo : (t : Tail) (r : ApprovalRecord) → OfTwo r → TailOfTwo (unend r t)
unend-TailOfTwo Tail.closed r h = h
unend-TailOfTwo (Tail.fragment v) r h = tt
unend-TailOfTwo (Tail.unended d) r h = tt

append_record-FileOfTwo :
    (o : Outcome) (r : ApprovalRecord) (f : File)
    → OfTwo r
    → FileOfTwo f
    → FileOfTwo (append_record o r f)
append_record-FileOfTwo Outcome.written r f new (h, t) =
    (All-append_one f.lines _ h (ended-LineOfTwo f.tail r new), tt)
append_record-FileOfTwo Outcome.unsynced r f new (h, t) =
    (All-append_one f.lines _ h (ended-LineOfTwo f.tail r new), tt)
append_record-FileOfTwo Outcome.refused r f new h = h
append_record-FileOfTwo (Outcome.partly u) r f new (h, t) = (h, cut-TailOfTwo u f.tail)
append_record-FileOfTwo Outcome.broken_off r f new (h, t) = (h, unend-TailOfTwo f.tail r new)

-- Both files of decisions hold decisions of two persons.
unfoldable pub IsSeparated : (L : Type 0) → FourEyesQueue L → Type 0
IsSeparated L q = FileOfTwo q.approved_file × FileOfTwo q.rejected_file

-- Segregation of duties: if in the files of a queue every decision, approval or rejection, names a
-- person who is not the submitter, then this holds after any run of submissions, approvals,
-- rejections and restarts, with any faults of the files, partial lines too, and any outcome of the
-- posting.
pub Run-IsSeparated :
    (L : Type 0) (q q' : FourEyesQueue L) → Run L q q' → IsSeparated L q → IsSeparated L q'
unfolding IsSeparated
Run-IsSeparated L q q' run s =
    Run-Files L (λ f g. FileOfTwo f × FileOfTwo g)
      (record {
        approval = λ o r a now f g two h. (append_record-FileOfTwo o _ f (a, refl, two) h.0, h.1);
        rejection =
            λ o r a reason now f g two h. (h.0, append_record-FileOfTwo o _ g (a, refl, two) h.1);
      })
      q q' run s
