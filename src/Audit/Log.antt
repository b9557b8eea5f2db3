-- ===== src/Audit/Log.antt =====
-- crates/vledger-audit/src/log.rs: `AuditLog`, `open` (here `open_log`), `append` and `verify_chain`. The file is
-- the sequence of its lines; a line stands as the event that serde_json reads from it. The counter
-- `next_seq` is an atomic of its own: `append` takes a number before it has the lock of the chain, so
-- its two halves are two actions, between which other threads may run.
use vector_ledger.Common.{
  ℕ, suc, ◌+◌, ◌%◌, ◌^◌, List, [], ◌∷◌, ◌++◌, Bool, true, not, ◌&&◌, Option, none, some, Result, ok,
  err, if◌then◌else◌,
}
use vector_ledger.Common.Bytes.{Bytes, bytes_eq}
use vector_ledger.Common.Int.{ℤ}
use vector_ledger.Common.Action.{Action, ◌>>=◌}
use vector_ledger.Audit.Event.{
  AuditEvent, AuditEventKind, AuditError, Encoders, Reason, zero_hash_text, finalise, verify,
}

-- A line is blank, an event, no event (with serde_json's message), or no UTF-8.
pub data Line : Type 0 where
  blank : Line
  whole : AuditEvent → Line
  malformed : Line
  unreadable : Line

-- What stands after the last line break: nothing; a proper part of an event's text, which may be cut
-- inside a character; or an event's text whose line break is missing.
pub data Tail : Type 0 where
  closed : Tail
  fragment : (utf8 : Bool) → Tail
  unended : AuditEvent → Tail

pub record File : Type 0 where
  pub lines : List Line
  pub tail : Tail

abbrev pub spoiled : Bool → Line
spoiled utf8 = if utf8 then malformed else unreadable

-- The lines that `BufReader::lines` gives.
abbrev pub last_line : Tail → List Line
last_line closed = []
last_line (fragment utf8) = spoiled utf8 ∷ []
last_line (unended e) = whole e ∷ []

abbrev pub file_lines : File → List Line
file_lines f = f.lines ++ last_line f.tail

-- An append after a part of a line goes into that line: a JSON text after a proper part of one, or
-- after another, is no JSON text.
abbrev pub ended : Tail → AuditEvent → Line
ended closed e = whole e
ended (fragment utf8) e = spoiled utf8
ended (unended d) e = malformed

abbrev pub put_line : AuditEvent → File → File
put_line e f = record { lines = f.lines ++ ended f.tail e ∷ []; tail = closed }

abbrev pub cut : Bool → Tail → Tail
cut utf8 closed = fragment utf8
cut utf8 (fragment u) = fragment (u && utf8)
cut utf8 (unended d) = fragment utf8

abbrev pub unend : AuditEvent → Tail → Tail
unend e closed = unended e
unend e (fragment u) = fragment u
unend e (unended d) = fragment true

abbrev pub put_tail : Tail → File → File
put_tail t f = record f { tail = t }

-- What the disk does with one write: all of it; nothing; a proper part of the text; the text without
-- the line break; all of it with an error of the `fsync` after it.
pub data Outcome : Type 0 where
  written refused unsynced : Outcome
  partly : (utf8 : Bool) → Outcome
  broken_off : Outcome

pub record AuditLog : Type 0 where
  pub file : File
  pub next_seq : ℕ
  pub last_chain : Bytes

-- `fetch_add`, which wraps.
unfoldable pub take_sequence : Action AuditLog AuditError ℕ
take_sequence log = (ok log.next_seq, record log { next_seq = (log.next_seq + 1) % 2 ^ 64 })

-- The event is written and synced before the chain moves to it.
abbrev pub write : Outcome → AuditEvent → Action AuditLog AuditError AuditEvent
write Outcome.written e log =
    (ok e, record log { file = put_line e log.file; last_chain = e.chain_hash })
write Outcome.refused e log = (err AuditError.io, log)
write Outcome.unsynced e log = (err AuditError.io, record log { file = put_line e log.file })
write (Outcome.partly utf8) e log =
    (err AuditError.io, record log { file = put_tail (cut utf8 log.file.tail) log.file })
write Outcome.broken_off e log =
    (err AuditError.io, record log { file = put_tail (unend e log.file.tail) log.file })

abbrev pub write_json :
    Result Bytes Bytes → Outcome → AuditEvent → Action AuditLog AuditError AuditEvent
write_json (ok json) o e log = write o e log
write_json (err message) o e log = (err (AuditError.serialisation message), log)

-- The fields of an event before its hashes are computed.
abbrev pub blank_event : ℕ → ℤ → AuditEventKind → AuditEvent
blank_event seq ts kind = record {
  sequence = seq;
  ts = ts;
  event = kind;
  content_hash = [];
  chain_hash = [];
  prev_hash = [];
}

-- The part of `open` that can fail: the directory, the reading of the file, its opening for appends.
pub record Access : Type 0 where
  pub create_dir : Bool
  pub read : Bool
  pub open_append : Bool

-- The loop of `scan_tail`, from a last sequence number and chain hash on.
unfoldable pub scan_lines : ℕ → Bytes → List Line → Result AuditError (ℕ × Bytes)
scan_lines seq chain [] = ok ((seq + 1) % 2 ^ 64, chain)
scan_lines seq chain (blank ∷ ls) = scan_lines seq chain ls
scan_lines seq chain (whole e ∷ ls) = scan_lines e.sequence e.chain_hash ls
scan_lines seq chain (malformed ∷ ls) = scan_lines seq chain ls
scan_lines seq chain (unreadable ∷ ls) = err AuditError.io

unfoldable pub scan_tail : Bool → Option File → Result AuditError (ℕ × Bytes)
unfolding scan_lines
scan_tail read none = ok (1, zero_hash_text)
scan_tail read (some f) =
    if read then scan_lines 0 zero_hash_text (file_lines f) else err AuditError.io

abbrev pub or_empty : Option File → File
or_empty none = record { lines = []; tail = closed }
or_empty (some f) = f

abbrev pub with_tail :
    Bool → Option File → Result AuditError (ℕ × Bytes) → Result AuditError AuditLog
with_tail opens f (err e) = err e
with_tail opens f (ok (seq, chain)) =
    if opens
    then ok (record { file = or_empty f; next_seq = seq; last_chain = chain })
    else err AuditError.io

unfoldable pub open_log : Access → Option File → Result AuditError AuditLog
unfolding scan_tail
open_log a f =
    let opened = with_tail a.open_append f (scan_tail a.read f) in
    if a.create_dir then opened else err AuditError.io

abbrev pub counted : Result AuditError ℕ → Result AuditError ℕ
counted (ok n) = ok (suc n)
counted (err e) = err e

module _ (C : Encoders) where
  -- The half of `append` under the lock of the chain, for a number that was taken before.
  unfoldable pub append_event :
      Outcome → ℤ → AuditEventKind → ℕ → Action AuditLog AuditError AuditEvent
  unfolding finalise
  append_event o ts kind seq log =
      let e = finalise C log.last_chain (blank_event seq ts kind) in
      write_json (C.event_json e) o e log

  unfoldable pub append : Outcome → ℤ → AuditEventKind → Action AuditLog AuditError AuditEvent
  unfolding take_sequence append_event
  append o ts kind = do seq ← take_sequence; append_event o ts kind seq

  -- The loop of `verify_chain`, from a chain hash on. Serde's message is left out, and
  -- the count, a `u64` in the source, has no bound here.
  unfoldable pub verify_lines : Bytes → List Line → Result AuditError ℕ
  unfolding verify
  verify_lines prev [] = ok 0
  verify_lines prev (blank ∷ ls) = verify_lines prev ls
  verify_lines prev (malformed ∷ ls) = err (AuditError.serialisation [])
  verify_lines prev (unreadable ∷ ls) = err AuditError.io
  verify_lines prev (whole e ∷ ls) =
      let rest = counted (verify_lines e.chain_hash ls) in
      if not (verify C e)
      then err (AuditError.chain_broken e.sequence Reason.hash_mismatch)
      else if not (bytes_eq e.prev_hash prev)
      then err (AuditError.chain_broken e.sequence (Reason.prev_hash_mismatch prev e.prev_hash))
      else rest

  unfoldable pub verify_chain : Bool → AuditLog → Result AuditError ℕ
  unfolding verify_lines
  verify_chain read log =
      if read then verify_lines zero_hash_text (file_lines log.file) else err AuditError.io
