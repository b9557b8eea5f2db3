-- ===== src/Audit/Steps.antt =====
-- The audit log (log.rs) over every order of its steps: threads that take numbers and write events,
-- and restarts that open the file again.
use vector_ledger.Common.{
  ℕ, suc, ◌≡◌, refl, sym, ap, ◌∙◌, List, [], ◌∷◌, ◌++◌, true, none, some, Result, ok, err, arith,
  append-nil, map-append, length-append, map, length,
}
use vector_ledger.Common.Bytes.{Bytes, bytes_eq}
use vector_ledger.Common.Encoding.{bytes_eq_refl}
use vector_ledger.Common.Int.{ℤ}
use vector_ledger.Audit.Event.{
  AuditEvent, AuditEventKind, AuditError, Encoders, zero_hash_text, finalise, verify, content_hex,
  chain_hex, canonical_bytes,
}
use vector_ledger.Audit.Log.{
  Line, whole, closed, File, AuditLog, Outcome, Access, write_json, put_line, blank_event,
  take_sequence, append_event, open_log, scan_tail, scan_lines, verify_lines, verify_chain,
  file_lines, counted,
}

-- The log of events that are whole lines, each with its line break.
abbrev pub events_file : List AuditEvent → File
events_file es = record { lines = map whole es; tail = closed }

-- The chain hash that the next event has to name.
abbrev pub chain_tip : Bytes → List AuditEvent → Bytes
chain_tip prev [] = prev
chain_tip prev (e ∷ es) = chain_tip e.chain_hash es

chain_tip-last :
    (prev : Bytes) (es : List AuditEvent) (e : AuditEvent)
    → chain_tip prev (es ++ e ∷ []) ≡ e.chain_hash
chain_tip-last prev [] e = refl
chain_tip-last prev (d ∷ es) e = chain_tip-last d.chain_hash es e

put_line-events :
    (e : AuditEvent) (es : List AuditEvent)
    → put_line e (events_file es) ≡ events_file (es ++ e ∷ [])
put_line-events e es =
    ap (λ (ls : List Line). record { lines = ls; tail = closed })
      (sym (map-append whole es (e ∷ [])))

module _ (C : Encoders) where
  -- The steps of any number of threads and restarts, from a directory without a log: a thread takes
  -- a number; a thread writes an event under some number, and the write is whole or does nothing; a
  -- new process opens what the file holds. `es` are the events whose append returned them.
  pub data Reach : List AuditEvent → AuditLog → Type 0 where
    created : {log : AuditLog} (a : Access) → open_log a none ≡ ok log → Reach [] log
    taken : {es : List AuditEvent} {log : AuditLog} → Reach es log → Reach es (take_sequence log).1
    wrote :
        {es : List AuditEvent} {log log' : AuditLog} {e : AuditEvent} (ts : ℤ)
        (kind : AuditEventKind) (seq : ℕ)
        → Reach es log
        → append_event C Outcome.written ts kind seq log ≡ (ok e, log')
        → Reach (es ++ e ∷ []) log'
    failed :
        {es : List AuditEvent} {log : AuditLog} (ts : ℤ) (kind : AuditEventKind) (seq : ℕ)
        → Reach es log
        → Reach es (append_event C Outcome.refused ts kind seq log).1
    restarted :
        {es : List AuditEvent} {log log' : AuditLog} (a : Access)
        → Reach es log
        → open_log a (some log.file) ≡ ok log'
        → Reach es log'

  -- The events are chained, and the log holds them and ends in their last chain hash.
  pub record IsChained (es : List AuditEvent) (log : AuditLog) : Type 0 where
    pub file : log.file ≡ events_file es
    pub last_chain : log.last_chain ≡ chain_tip zero_hash_text es
    pub verified : verify_lines C zero_hash_text (map whole es) ≡ ok (length es)

  pub finalise-verify : (prev : Bytes) (d : AuditEvent) → verify C (finalise C prev d) ≡ true
  unfolding verify finalise content_hex chain_hex canonical_bytes
  finalise-verify prev d = rw (bytes_eq_refl _, bytes_eq_refl _)

  verify_lines-last :
      (prev : Bytes) (d : AuditEvent) → verify_lines C prev (whole (finalise C prev d) ∷ []) ≡ ok 1
  unfolding verify_lines finalise
  verify_lines-last prev d = rw (finalise-verify prev d) (rw (bytes_eq_refl prev) refl)

  pub counted-ok :
      (r : Result AuditError ℕ) (n : ℕ) → counted r ≡ ok n → (m : ℕ) × (r ≡ ok m) × (n ≡ suc m)
  counted-ok (ok m) n h = (m, refl, ground arith)
  counted-ok (err e) n h = cc

  pub verify_lines-rest :
      (prev : Bytes) (e : AuditEvent) (ls : List Line) (n : ℕ)
      → verify_lines C prev (whole e ∷ ls) ≡ ok n
      → (verify C e ≡ true)
        × (bytes_eq e.prev_hash prev ≡ true)
        × (counted (verify_lines C e.chain_hash ls) ≡ ok n)
  unfolding verify_lines
  verify_lines-rest prev e ls n h = ground arith

  -- The event that `finalise` makes from the last chain hash keeps an accepted log accepted.
  verify_lines-append :
      (prev : Bytes) (es : List AuditEvent) (d : AuditEvent) (n : ℕ)
      → verify_lines C prev (map whole es) ≡ ok n
      → verify_lines C prev (map whole (es ++ finalise C (chain_tip prev es) d ∷ [])) ≡ ok (suc n)
  unfolding verify_lines
  verify_lines-append prev [] d n h = verify_lines-last prev d ∙ cc
  verify_lines-append prev (e ∷ es) d n h =
      let (right, linked, rest) = verify_lines-rest prev e (map whole es) n h in
      let (m, inner, count) = counted-ok _ n rest in
      rw right (rw linked (rw (verify_lines-append e.chain_hash es d m inner) (rw count refl)))

  pub scan_lines-events :
      (seq : ℕ) (chain : Bytes) (es : List AuditEvent)
      → (n : ℕ) × (scan_lines seq chain (map whole es) ≡ ok (n, chain_tip chain es))
  unfolding scan_lines
  scan_lines-events seq chain [] = (_, refl)
  scan_lines-events seq chain (e ∷ es) = scan_lines-events e.sequence e.chain_hash es

  opened_new :
      (a : Access) (log : AuditLog)
      → open_log a none ≡ ok log
      → (log.file ≡ events_file []) × (log.last_chain ≡ zero_hash_text)
  unfolding open_log scan_tail
  opened_new a log h = ground arith

  opened_old :
      (a : Access) (f : File) (log : AuditLog) (n : ℕ) (chain : Bytes)
      → scan_lines 0 zero_hash_text (file_lines f) ≡ ok (n, chain)
      → open_log a (some f) ≡ ok log
      → (log.file ≡ f) × (log.last_chain ≡ chain)
  unfolding open_log scan_tail
  opened_old a f log n chain scanned h = ground arith

  IsChained-created : (a : Access) (log : AuditLog) → open_log a none ≡ ok log → IsChained [] log
  unfolding open_log scan_tail verify_lines
  IsChained-created a log h =
      let (file, chain) = opened_new a log h in
      record { file = file; last_chain = chain; verified = refl }

  IsChained-restarted :
      (a : Access) (es : List AuditEvent) (log log' : AuditLog)
      → IsChained es log
      → open_log a (some log.file) ≡ ok log'
      → IsChained es log'
  unfolding open_log scan_tail
  IsChained-restarted a es log log' c h =
      let (n, scanned) = scan_lines-events 0 zero_hash_text es in
      let (file, chain) =
        opened_old a log.file log' n (chain_tip zero_hash_text es)
          (ap (λ f. scan_lines 0 zero_hash_text (file_lines f)) c.file
            ∙ ap (scan_lines 0 zero_hash_text) (append-nil (map whole es))
            ∙ scanned)
          h in
      record { file = file ∙ c.file; last_chain = chain; verified = c.verified }

  IsChained-refused :
      (r : Result Bytes Bytes) (e : AuditEvent) (es : List AuditEvent) (log : AuditLog)
      → IsChained es log
      → IsChained es (write_json r Outcome.refused e log).1
  IsChained-refused (ok json) e es log c = c
  IsChained-refused (err message) e es log c = c

  write_json-written :
      (r : Result Bytes Bytes) (d e : AuditEvent) (log log' : AuditLog)
      → write_json r Outcome.written d log ≡ (ok e, log')
      → (e ≡ d) × (log'.file ≡ put_line d log.file) × (log'.last_chain ≡ d.chain_hash)
  write_json-written r d e log log' h = ground arith

  IsChained-wrote :
      (ts : ℤ) (kind : AuditEventKind) (seq : ℕ) (es : List AuditEvent) (log log' : AuditLog)
      (e : AuditEvent)
      → IsChained es log
      → append_event C Outcome.written ts kind seq log ≡ (ok e, log')
      → IsChained (es ++ e ∷ []) log'
  unfolding append_event
  IsChained-wrote ts kind seq es log log' e c h =
      let d : AuditEvent = finalise C log.last_chain (blank_event seq ts kind) in
      let (same, file, chain) = write_json-written (C.event_json d) d e log log' h in
      let same_d : e ≡ finalise C (chain_tip zero_hash_text es) (blank_event seq ts kind) =
        same ∙ ap (λ tip. finalise C tip (blank_event seq ts kind)) c.last_chain in
      record {
        file =
            file
            ∙ ap (put_line d) c.file
            ∙ ap (λ x. put_line x (events_file es)) (sym same)
            ∙ put_line-events e es;
        last_chain =
            chain
            ∙ ap (λ (x : AuditEvent). x.chain_hash) (sym same)
            ∙ sym (chain_tip-last zero_hash_text es e);
        verified =
            ap (λ x. verify_lines C zero_hash_text (map whole (es ++ x ∷ []))) same_d
            ∙ verify_lines-append zero_hash_text es (blank_event seq ts kind) (length es) c.verified
            ∙ ap ok (omega (arith, length-append es (e ∷ [])));
      }

  IsChained-taken :
      (es : List AuditEvent) (log : AuditLog)
      → IsChained es log
      → IsChained es (take_sequence log).1
  unfolding take_sequence
  IsChained-taken es log c = record {
    file = c.file;
    last_chain = c.last_chain;
    verified = c.verified;
  }

  pub Reach-IsChained : {es : List AuditEvent} {log : AuditLog} → Reach es log → IsChained es log
  unfolding append_event
  Reach-IsChained (created a h) = IsChained-created a _ h
  Reach-IsChained (taken r) = IsChained-taken _ _ (Reach-IsChained r)
  Reach-IsChained (wrote ts kind seq r h) =
      IsChained-wrote ts kind seq _ _ _ _ (Reach-IsChained r) h
  Reach-IsChained (failed ts kind seq r) = IsChained-refused _ _ _ _ (Reach-IsChained r)
  Reach-IsChained (restarted a r h) = IsChained-restarted a _ _ _ (Reach-IsChained r) h

  -- The audit log stays verifiable: from a directory without a log, whatever threads take numbers and
  -- write events in whatever order, whatever restarts stand between, and whatever writes the disk
  -- refuses whole, `verify_chain` accepts the file, and counts the events whose `append` returned.
  pub Reach-verifies :
      {es : List AuditEvent} {log : AuditLog}
      → Reach es log
      → verify_chain C true log ≡ ok (length es)
  unfolding verify_chain
  Reach-verifies {es = es} r =
      let c = Reach-IsChained r in
      ap (λ f. verify_lines C zero_hash_text (file_lines f)) c.file
      ∙ ap (verify_lines C zero_hash_text) (append-nil (map whole es))
      ∙ c.verified
