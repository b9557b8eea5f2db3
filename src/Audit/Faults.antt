-- ===== src/Audit/Faults.antt =====
-- The audit log (log.rs) after a restart, and after an `fsync` that fails.
use vector_ledger.Common.{
  ℕ, suc, ◌≡◌, refl, sym, ap, ◌∙◌, List, [], ◌∷◌, ◌++◌, true, some, ok, err, inl, inr, ◌⊎◌,
  Bool-cases, arith, append-nil, append_assoc, map, length, length-append,
}
use vector_ledger.Common.Bytes.{Bytes, bytes_eq, bytes_eq_iff}
use vector_ledger.Common.Encoding.{bytes_eq_refl}
use vector_ledger.Common.Int.{ℤ}
use vector_ledger.Audit.Event.{
  AuditEvent, AuditEventKind, AuditError, Encoders, Reason, zero_hash_text, finalise,
}
use vector_ledger.Audit.Log.{
  Line, whole, File, AuditLog, Outcome, Access, write, write_json, put_line, blank_event,
  take_sequence, append_event, append, open_log, scan_tail, scan_lines, verify_lines, verify_chain,
  file_lines,
}
use vector_ledger.Audit.Steps.{
  Reach, Reach-IsChained, Reach-verifies, chain_tip, scan_lines-events, events_file,
  finalise-verify, verify_lines-rest, counted-ok,
}

abbrev pub all_works : Access
all_works = record { create_dir = true; read = true; open_append = true }

-- serde_json turns every event into text: no field of an event is of a kind that JSON lacks.
abbrev pub Serialises : Encoders → Type 0
Serialises C = (e : AuditEvent) → (json : Bytes) × (C.event_json e ≡ ok json)

opens :
    (f : File) (n : ℕ) (chain : Bytes)
    → scan_lines 0 zero_hash_text (file_lines f) ≡ ok (n, chain)
    → open_log all_works (some f) ≡ ok (record { file = f; next_seq = n; last_chain = chain })
unfolding open_log scan_tail
opens f n chain h = rw h refl

module _ (C : Encoders) where
  append-ok :
      (json : Bytes) (o : Outcome) (e : AuditEvent) (log : AuditLog)
      → C.event_json e ≡ ok json
      → write_json (C.event_json e) o e log ≡ write o e log
  append-ok json o e log h = rw h refl

  -- Nothing that happened before blocks the log: from every state of `Reach`, an `open` with a working
  -- file system succeeds, and if serde_json turns every event into text, the next `append` whose write
  -- works returns an event, and leaves a log that `verify_chain` accepts with one event more.
  pub Reach-continues :
      {es : List AuditEvent} {log : AuditLog} (ts : ℤ) (kind : AuditEventKind)
      → Serialises C
      → Reach C es log
      → (log' : AuditLog) × (e : AuditEvent) × (log'' : AuditLog) × (open_log all_works
            (some log.file)
          ≡ ok log')
        × (append C Outcome.written ts kind log' ≡ (ok e, log''))
        × (verify_chain C true log'' ≡ ok (suc (length es)))
  unfolding append append_event take_sequence
  Reach-continues {es = es} {log = log} ts kind s r =
      let c = Reach-IsChained C r in
      let (n, scanned) = scan_lines-events C 0 zero_hash_text es in
      let found : scan_lines 0 zero_hash_text (file_lines log.file)
          ≡ ok (n, chain_tip zero_hash_text es) =
        ap (λ f. scan_lines 0 zero_hash_text (file_lines f)) c.file
        ∙ ap (scan_lines 0 zero_hash_text) (append-nil (map whole es))
        ∙ scanned in
      let log' : AuditLog = record {
        file = log.file;
        next_seq = n;
        last_chain = chain_tip zero_hash_text es;
      } in
      let e : AuditEvent = finalise C log'.last_chain (blank_event n ts kind) in
      let (json, text) = s e in
      let wrote = append-ok json Outcome.written e (take_sequence log').1 text in
      (
        log',
        e,
        (write Outcome.written e (take_sequence log').1).1,
        opens log.file n _ found,
        wrote,
        Reach-verifies C (
              Reach.wrote ts kind n
                (Reach.taken (Reach.restarted all_works r (opens log.file n _ found))) wrote)
            ∙ ap ok (omega (arith, length-append es (e ∷ []))),
      )

  verify_lines-after :
      (prev : Bytes) (es : List AuditEvent) (ls : List Line) (n : ℕ) (x : AuditError)
      → verify_lines C prev (map whole es) ≡ ok n
      → verify_lines C (chain_tip prev es) ls ≡ err x
      → verify_lines C prev (map whole es ++ ls) ≡ err x
  unfolding verify_lines
  verify_lines-after prev [] ls n x h k = k
  verify_lines-after prev (e ∷ es) ls n x h k =
      let (right, linked, rest) = verify_lines-rest C prev e (map whole es) n h in
      let (m, inner, count) = counted-ok C _ n rest in
      rw right (rw linked (rw (verify_lines-after e.chain_hash es ls m x inner k) refl))

  -- Two events that name the same predecessor, and any lines after them.
  verify_lines-twins :
      (prev : Bytes) (d e : AuditEvent) (more : List Line)
      → (verify_lines C prev (whole (finalise C prev d) ∷ whole (finalise C prev e) ∷ more)
          ≡ err (
              AuditError.chain_broken e.sequence
                (Reason.prev_hash_mismatch (finalise C prev d).chain_hash prev)))
        ⊎ ((finalise C prev d).chain_hash ≡ prev)
  unfolding verify_lines finalise
  verify_lines-twins prev d e more =
      let first = finalise-verify C prev d in
      let second = finalise-verify C prev e in
      elim (Bool-cases (bytes_eq prev (finalise C prev d).chain_hash)) [
        | inl same ↦ inr (sym ((bytes_eq_iff prev (finalise C prev d).chain_hash).0 same))
        | inr other ↦ inl (rw first (rw (bytes_eq_refl prev) (rw second (rw other refl))))
      ]

  two_lines :
      (es : List AuditEvent) (f : File) (d e : AuditEvent) (more : List Line)
      → f ≡ events_file es
      → (put_line e (put_line d f)).lines ++ more ≡ map whole es ++ whole d ∷ whole e ∷ more
  two_lines es f d e more h =
      ap (λ g. (put_line e (put_line d g)).lines ++ more) h
      ∙ append_assoc (map whole es ++ whole d ∷ []) (whole e ∷ []) more
      ∙ append_assoc (map whole es) (whole d ∷ []) (whole e ∷ more)

  -- The log after an event whose `fsync` failed, and the next one.
  after_two :
      (ts ts' : ℤ) (kind kind' : AuditEventKind) (seq seq' : ℕ) (log : AuditLog)
      → Serialises C
      → (append_event C Outcome.written ts' kind' seq'
          (append_event C Outcome.unsynced ts kind seq log).1).1.file
        ≡ put_line
            (finalise C log.last_chain (blank_event seq' ts' kind'))
            (put_line (finalise C log.last_chain (blank_event seq ts kind)) log.file)
  unfolding append_event
  after_two ts ts' kind kind' seq seq' log s =
      let (json, text) = s (finalise C log.last_chain (blank_event seq ts kind)) in
      let (json', text') = s (finalise C log.last_chain (blank_event seq' ts' kind')) in
      rw text (rw text' refl)

  -- An `fsync` that fails after the line is written breaks the log, once the next event is written
  -- with no restart between: the chain hash in memory has not moved, so that event names the
  -- predecessor of the unsynced line. Whatever lines then follow in the file, and whatever log holds
  -- that file, `verify_chain` reports that event as a break, unless the chain hash of the unsynced
  -- event is the one before it. The log is one of `Reach` before, and serde_json turns every event
  -- into text.
  pub append_event-unsynced_breaks :
      {es : List AuditEvent} {log : AuditLog} (ts ts' : ℤ) (kind kind' : AuditEventKind)
      (seq seq' : ℕ) (later : AuditLog) (more : List Line)
      → Serialises C
      → Reach C es log
      → file_lines later.file
        ≡ (append_event C Outcome.written ts' kind' seq'
            (append_event C Outcome.unsynced ts kind seq log).1).1.file.lines
          ++ more
      → let d = finalise C log.last_chain (blank_event seq ts kind) in
        (verify_chain C true later
          ≡ err (
              AuditError.chain_broken seq' (Reason.prev_hash_mismatch d.chain_hash log.last_chain)))
        ⊎ (d.chain_hash ≡ log.last_chain)
  unfolding finalise verify_chain
  append_event-unsynced_breaks {es = es} {log = log} ts ts' kind kind' seq seq' later more s r
        same =
      let c = Reach-IsChained C r in
      let d = finalise C log.last_chain (blank_event seq ts kind) in
      let e = finalise C log.last_chain (blank_event seq' ts' kind') in
      let lines : file_lines later.file ≡ map whole es ++ whole d ∷ whole e ∷ more =
        same
        ∙ ap (λ (f : File). f.lines ++ more) (after_two ts ts' kind kind' seq seq' log s)
        ∙ two_lines es log.file d e more c.file in
      elim (verify_lines-twins log.last_chain (blank_event seq ts kind) (blank_event seq' ts' kind')
        more) [
          | inr twin ↦ inr twin
          | inl breaks ↦ inl (
              ap (verify_lines C zero_hash_text) lines
              ∙ verify_lines-after zero_hash_text es _ (length es) _ c.verified (
                  ap (λ tip. verify_lines C tip (whole d ∷ whole e ∷ more)) (sym c.last_chain)
                  ∙ breaks))
        ]
