-- ===== src/Audit/Tests.antt =====
-- Tests of the audit log, and the theorems at concrete inputs.
use vector_ledger.Common.{
  ◌+◌, ◌≡◌, refl, [], ◌∷◌, true, none, some, ok, err, arith, length, ◌⊎◌, All, ◌++◌, append-nil,
}
use vector_ledger.Common.Bytes.{Bytes, bytes_eq, to_le_bytes}
use vector_ledger.Common.Int.{pos}
use vector_ledger.Crypto.Hash.{Collision}
use vector_ledger.Crypto.Tests.{toy}
use vector_ledger.Audit.Event.{
  AuditEvent, AuditEventKind, AuditError, Encoders, Reason, zero_hash_text, finalise,
}
use vector_ledger.Audit.Log.{
  AuditLog, Tail, Line, Outcome, blank_event, append, append_event, open_log, scan_tail, file_lines,
  verify_chain,
}
use vector_ledger.Audit.Steps.{Reach, Reach-verifies}
use vector_ledger.Audit.Faults.{
  all_works, Serialises, Reach-continues, append_event-unsynced_breaks,
}
use vector_ledger.Audit.Tamper.{Hexadecimal, AllSame, IsU64, events, verify_chain-pins}

abbrev two_each : Bytes → Bytes
two_each [] = []
two_each (x ∷ b) = x ∷ 0 ∷ two_each b

abbrev encoders : Encoders
encoders = record {
  platform = toy;
  hex_encode = two_each;
  kind_json = λ k. ok [];
  event_json = λ e. ok [];
  timestamp_nanos_opt = λ t. some t;
}

two_each-length : (b : Bytes) → length (two_each b) ≡ length b + length b
two_each-length [] = refl
two_each-length (x ∷ b) = omega (arith, two_each-length b)

two_each-injective : (x y : Bytes) → two_each x ≡ two_each y → x ≡ y
two_each-injective [] [] h = refl
two_each-injective [] (b ∷ y) h = cc
two_each-injective (a ∷ x) [] h = cc
two_each-injective (a ∷ x) (b ∷ y) h =
    let tails : two_each x ≡ two_each y = cc in let rest = two_each-injective x y tails in cc

encoders-Hexadecimal : Hexadecimal encoders
encoders-Hexadecimal = record { hex_length = two_each-length; hex_injective = two_each-injective }

encoders-Serialises : Serialises encoders
encoders-Serialises e = ([], refl)

abbrev new_log : AuditLog
new_log = record {
  file = record { lines = []; tail = Tail.closed };
  next_seq = 1;
  last_chain = zero_hash_text;
}

abbrev started : AuditEventKind
started = AuditEventKind.server_started (1 ∷ []) (2 ∷ [])

abbrev closed : AuditEventKind
closed = AuditEventKind.account_closed 5 (7 ∷ [])

new_log-opened : open_log all_works none ≡ ok new_log
unfolding open_log scan_tail
new_log-opened = refl

-- Number 2 is written before number 1.
abbrev early : AuditEvent
early = finalise encoders zero_hash_text (blank_event 2 (pos 10) started)

abbrev log_1 : AuditLog
log_1 = record {
  file = record { lines = Line.whole early ∷ []; tail = Tail.closed };
  next_seq = 1;
  last_chain = early.chain_hash;
}

log_1-wrote : append_event encoders Outcome.written (pos 10) started 2 new_log ≡ (ok early, log_1)
unfolding append_event
log_1-wrote = refl

abbrev late_event : AuditEvent
late_event = finalise encoders early.chain_hash (blank_event 1 (pos 11) closed)

abbrev log_2 : AuditLog
log_2 = record {
  file = record { lines = Line.whole early ∷ Line.whole late_event ∷ []; tail = Tail.closed };
  next_seq = 1;
  last_chain = late_event.chain_hash;
}

log_2-wrote : append_event encoders Outcome.written (pos 11) closed 1 log_1 ≡ (ok late_event, log_2)
unfolding append_event
log_2-wrote = refl

reached : Reach encoders (early ∷ late_event ∷ []) log_2
reached =
    Reach.wrote (pos 11) closed 1
      (Reach.wrote (pos 10) started 2 (Reach.created all_works new_log-opened) log_1-wrote)
      log_2-wrote

Reach-verifies_example : verify_chain encoders true log_2 ≡ ok 2
Reach-verifies_example = Reach-verifies encoders reached

Reach-continues_example :
    (log' : AuditLog) × (e : AuditEvent) × (log'' : AuditLog) × (open_log all_works
        (some log_2.file)
      ≡ ok log')
    × (append encoders Outcome.written (pos 12) closed log' ≡ (ok e, log''))
    × (verify_chain encoders true log'' ≡ ok 3)
Reach-continues_example = Reach-continues encoders (pos 12) closed encoders-Serialises reached

-- The file after an unsynced event and one more, and one more line.
abbrev later : AuditLog
unfolding append_event
later = record {
  file = record {
    lines =
        (append_event encoders Outcome.written (pos 13) started 4
          (append_event encoders Outcome.unsynced (pos 12) closed 3 log_2).1).1.file.lines
        ++ Line.malformed ∷ [];
    tail = Tail.closed;
  };
  next_seq = 9;
  last_chain = zero_hash_text;
}

later_lines :
    file_lines later.file
    ≡ (append_event encoders Outcome.written
        (pos 13)
        started
        4
        (append_event encoders Outcome.unsynced (pos 12) closed 3 log_2).1).1.file.lines
      ++ Line.malformed ∷ []
unfolding later append_event
later_lines = append-nil _

append_event-unsynced_breaks_example :
    let d = finalise encoders log_2.last_chain (blank_event 3 (pos 12) closed) in
    (verify_chain encoders true later
      ≡ err (AuditError.chain_broken 4 (Reason.prev_hash_mismatch d.chain_hash log_2.last_chain)))
    ⊎ (d.chain_hash ≡ log_2.last_chain)
append_event-unsynced_breaks_example =
    append_event-unsynced_breaks encoders (pos 12) (pos 13) closed started 3 4 later
      (Line.malformed ∷ []) encoders-Serialises reached later_lines

-- The same events, with a blank line between them.
abbrev spaced : AuditLog
spaced = record {
  file = record {
    lines = Line.whole early ∷ Line.blank ∷ Line.whole late_event ∷ [];
    tail = Tail.closed;
  };
  next_seq = 7;
  last_chain = late_event.chain_hash;
}

spaced-verifies : verify_chain encoders true spaced ≡ ok 2
unfolding verify_chain bytes_eq finalise to_le_bytes
spaced-verifies = refl

small : All IsU64 (early ∷ late_event ∷ [])
unfolding finalise
small = (omega arith, (omega arith, tt))

verify_chain-pins_example : AllSame encoders (events log_2) (events spaced) ⊎ Collision toy
verify_chain-pins_example =
    verify_chain-pins encoders encoders-Hexadecimal log_2 spaced 2 small small
      (Reach-verifies encoders reached) spaced-verifies refl
