-- ===== src/FourEyes/File.antt =====
-- The JSON-lines files of the queue (queue.rs): what an append leaves, and what the readers see. A
-- line stands as the record that serde_json reads from it.
use vector_ledger.Common.{
  ℕ, ◌≡◌, refl, sym, List, [], ◌∷◌, ◌++◌, append-nil, Bool, ◌&&◌, Option, none, some, ◌==◌,
  if◌then◌else◌, Result, ok, err, arith,
}
use vector_ledger.FourEyes.Record.{ApprovalRecord, FourEyesError}

-- A record, text that is no record, or bytes that are no UTF-8, at which `lines` fails.
pub data Line : Type 0 where
  whole : ApprovalRecord → Line
  malformed : Line
  unreadable : Line

-- What stands after the last line break: nothing; a proper part of a record's text, which may be cut
-- inside a character; or a record's text whose line break is missing.
pub data Tail : Type 0 where
  closed : Tail
  fragment : (utf8 : Bool) → Tail
  unended : ApprovalRecord → Tail

pub record File : Type 0 where
  pub lines : List Line
  pub tail : Tail

abbrev pub spoiled : Bool → Line
spoiled utf8 = if utf8 then malformed else unreadable

abbrev pub last_line : Tail → List Line
last_line closed = []
last_line (fragment utf8) = spoiled utf8 ∷ []
last_line (unended r) = whole r ∷ []

abbrev pub file_lines : File → List Line
file_lines f = f.lines ++ last_line f.tail

-- What the disk does with `writeln!` and `sync_all`: all of it; nothing; a proper part of the text; the
-- text without the line break; all of it with an error of the `fsync` after it.
pub data Outcome : Type 0 where
  written refused unsynced : Outcome
  partly : (utf8 : Bool) → Outcome
  broken_off : Outcome

-- An append after a part of a line goes into that line, which then is no record.
abbrev pub ended : Tail → ApprovalRecord → Line
ended closed r = whole r
ended (fragment utf8) r = spoiled utf8
ended (unended d) r = malformed

abbrev pub cut : Bool → Tail → Tail
cut utf8 closed = fragment utf8
cut utf8 (fragment u) = fragment (u && utf8)
cut utf8 (unended d) = fragment utf8

abbrev pub unend : ApprovalRecord → Tail → Tail
unend r closed = unended r
unend r (fragment u) = fragment u
unend r (unended d) = fragment Bool.true

abbrev pub append_record : Outcome → ApprovalRecord → File → File
append_record Outcome.written r f = record { lines = f.lines ++ ended f.tail r ∷ []; tail = closed }
append_record Outcome.unsynced r f = record {
  lines = f.lines ++ ended f.tail r ∷ [];
  tail = closed;
}
append_record Outcome.refused r f = f
append_record (Outcome.partly utf8) r f = record f { tail = cut utf8 f.tail }
append_record Outcome.broken_off r f = record f { tail = unend r f.tail }

abbrev pub append_result : Outcome → Result FourEyesError (Unit {0})
append_result Outcome.written = ok tt
append_result _ = err FourEyesError.io

-- The loop of `find_in_decided`.
unfoldable pub find_in : ℕ → List Line → Result FourEyesError (Option ApprovalRecord)
find_in id [] = ok none
find_in id (whole r ∷ ls) = let rest = find_in id ls in if r.id == id then ok (some r) else rest
find_in id (malformed ∷ ls) = find_in id ls
find_in id (unreadable ∷ ls) = err FourEyesError.io

abbrev keep_line : Line → Result FourEyesError (List Line) → Result FourEyesError (List Line)
keep_line l (ok ls) = ok (l ∷ ls)
keep_line l (err e) = err e

-- The loop of `remove_pending`: it keeps what is no record.
unfoldable pub without : ℕ → List Line → Result FourEyesError (List Line)
without id [] = ok []
without id (whole r ∷ ls) =
    let rest = without id ls in if r.id == id then rest else keep_line (whole r) rest
without id (malformed ∷ ls) = keep_line malformed (without id ls)
without id (unreadable ∷ ls) = err FourEyesError.io

-- A record that is found stays found when lines are added.
pub find_in-append :
    (id : ℕ) (xs ys : List Line) (r : ApprovalRecord)
    → find_in id xs ≡ ok (some r)
    → find_in id (xs ++ ys) ≡ ok (some r)
unfolding find_in
find_in-append id [] ys r h = absurd (ground arith)
find_in-append id (whole s ∷ xs) ys r h = ground (arith, find_in-append id xs ys r)
find_in-append id (malformed ∷ xs) ys r h = find_in-append id xs ys r h
find_in-append id (unreadable ∷ xs) ys r h = absurd (ground arith)

pub find_in-last :
    (id : ℕ) (xs : List Line) (r : ApprovalRecord)
    → find_in id xs ≡ ok none
    → r.id ≡ id
    → find_in id (xs ++ whole r ∷ []) ≡ ok (some r)
unfolding find_in
find_in-last id [] r h e = ground arith
find_in-last id (whole s ∷ xs) r h e = ground (arith, find_in-last id xs r)
find_in-last id (malformed ∷ xs) r h e = find_in-last id xs r h e
find_in-last id (unreadable ∷ xs) r h e = absurd (ground arith)

-- Whatever the disk does, an append leaves the whole lines that are there.
pub append_record-lines :
    (o : Outcome) (r : ApprovalRecord) (f : File)
    → (more : List Line) × ((append_record o r f).lines ≡ f.lines ++ more)
append_record-lines Outcome.written r f = (ended f.tail r ∷ [], refl)
append_record-lines Outcome.unsynced r f = (ended f.tail r ∷ [], refl)
append_record-lines Outcome.refused r f = ([], sym (append-nil f.lines))
append_record-lines (Outcome.partly utf8) r f = ([], sym (append-nil f.lines))
append_record-lines Outcome.broken_off r f = ([], sym (append-nil f.lines))
