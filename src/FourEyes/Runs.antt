-- ===== src/FourEyes/Runs.antt =====
-- The calls on a queue (queue.rs) in any order, and what they keep of the files of decisions.
use vector_ledger.Common.{
  Fault, arith, ℕ, ◌≡◌, ◌≢◌, refl, [], Bool, true, false, Option, none, some, Result, ok, err,
  ok_or,
}
use vector_ledger.Common.Action.{
  Action, ◌>>◌, pure, lift, modify, throw_if, Keeps, Keeps-bind, Keeps-then, Keeps-read,
}
use vector_ledger.Common.Bytes.{Bytes, bytes_eq, bytes_eq_iff}
use vector_ledger.Common.Dict.{Dict}
use vector_ledger.Common.Int.{ℤ}
use vector_ledger.FourEyes.Record.{ApprovalRecord, FourEyesError}
use vector_ledger.FourEyes.File.{File, Outcome, append_record, file_lines, without}
use vector_ledger.FourEyes.Queue.{
  Hex, Faults, FourEyesQueue, Call, change_file, approved_record, rejected_record, reopen,
  with_pending, submit, get_pending, find_approved, posted, call_post, leave_pending,
  approve_pending, approve, reject, persist_pending, persist_approved, persist_rejected,
}

-- The calls on a queue, with any faults, and restarts: a new process opens what the files hold.
pub data Step (L : Type 0) : FourEyesQueue L → FourEyesQueue L → Type 0 where
  submits :
      (hex : Hex) (o : Outcome) (id : ℕ) (now : ℤ) (entry description domain submitter : Bytes)
      (q : FourEyesQueue L)
      → Step L q (submit hex o id now entry description domain submitter q).1
  approves :
      (hex : Hex) (faults : Faults) (post : Bytes → Action L Bytes (Unit {0})) (id : ℕ) (a : Bytes)
      (now : ℤ) (q : FourEyesQueue L)
      → Step L q (approve hex faults post id a now q).1
  rejects :
      (faults : Faults) (id : ℕ) (a reason : Bytes) (now : ℤ) (q : FourEyesQueue L)
      → Step L q (reject faults id a reason now q).1
  restarts : (q q' : FourEyesQueue L) → reopen q ≡ ok q' → Step L q q'

pub data Run (L : Type 0) : FourEyesQueue L → FourEyesQueue L → Type 0 where
  done : (q : FourEyesQueue L) → Run L q q
  more : (q q' q'' : FourEyesQueue L) → Run L q q' → Step L q' q'' → Run L q q''

-- A property of the two files of decisions that every write of a decision by another person keeps.
pub record IsKept (L : Type 0) (I : File → File → Type 0) : Type 0 where
  pub approval :
      (o : Outcome) (r : ApprovalRecord) (a : Bytes) (now : ℤ) (f g : File)
      → r.submitter_id ≢ a
      → I f g
      → I (append_record o (approved_record r a now) f) g
  pub rejection :
      (o : Outcome) (r : ApprovalRecord) (a reason : Bytes) (now : ℤ) (f g : File)
      → r.submitter_id ≢ a
      → I f g
      → I f (append_record o (rejected_record r a reason now) g)

module _ (L : Type 0) (I : File → File → Type 0) (K : IsKept L I) where
  abbrev Files : FourEyesQueue L → Type 0
  Files q = I q.approved_file q.rejected_file

  Keeps-throw_if :
      {A : Type 0} (b : Bool) (e : FourEyesError) (k : Call L A)
      → (b ≡ false → Keeps Files k)
      → Keeps Files (throw_if b e >> k)
  unfolding Keeps
  Keeps-throw_if true e k h q s = s
  Keeps-throw_if false e k h q s = h refl q s

  Keeps-change_file :
      (fault : Fault) (f : FourEyesQueue L → FourEyesQueue L)
      → ((q : FourEyesQueue L) → Files q → Files (f q))
      → Keeps Files (change_file fault f)
  unfolding Keeps
  Keeps-change_file Fault.works f h q s = h q s
  Keeps-change_file Fault.refused f h q s = s
  Keeps-change_file Fault.late f h q s = h q s

  posted-Files :
      {A : Type 0} (q : FourEyesQueue L) (x : Result Bytes A × L) → Files q → Files (posted q x).1
  posted-Files q (ok a, l) s = s
  posted-Files q (err m, l) s = s

  Keeps-call_post :
      (post : Bytes → Action L Bytes (Unit {0})) (entry : Bytes)
      → Keeps Files (call_post post entry)
  unfolding Keeps call_post
  Keeps-call_post post entry q s = posted-Files q (post entry q.ledger) s

  -- A step that leaves both files of decisions.
  Keeps-modify :
      (f : FourEyesQueue L → FourEyesQueue L)
      → ((q : FourEyesQueue L) → Files q → Files (f q))
      → Keeps Files (modify {E = FourEyesError} f)
  unfolding Keeps
  Keeps-modify f h q s = h q s

  kept_pure : {A : Type 0} (x : A) → Keeps Files (pure {S = FourEyesQueue L} {E = FourEyesError} x)
  unfolding Keeps
  kept_pure x q s = s

  kept_lift : {A : Type 0} (x : Result FourEyesError A) → Keeps Files (lift {S = FourEyesQueue L} x)
  unfolding Keeps
  kept_lift x q s = s

  kept_get : (id : ℕ) → Keeps Files (get_pending {L = L} id)
  unfolding Keeps get_pending
  kept_get id q s = s

  kept_find : (found : Bool) (id : ℕ) → Keeps Files (find_approved {L = L} found id)
  unfolding Keeps find_approved
  kept_find found id q s = s

  kept_leave : (fault : Fault) (id : ℕ) → Keeps Files (leave_pending {L = L} fault id)
  unfolding leave_pending
  kept_leave fault id =
      Keeps-bind Files _ _
        (Keeps-read Files (λ (q : FourEyesQueue L). without id (file_lines q.pending_file)))
        λ kept.
          Keeps-then Files _ _ (Keeps-change_file fault _ (λ q s. s)) (Keeps-modify _ (λ q s. s))

  kept_approval :
      (o : Outcome) (r : ApprovalRecord) (a : Bytes) (now : ℤ)
      → r.submitter_id ≢ a
      → Keeps Files (persist_approved {L = L} o (approved_record r a now))
  unfolding Keeps persist_approved
  kept_approval o r a now two q s = K.approval o r a now q.approved_file q.rejected_file two s

  kept_rejection :
      (o : Outcome) (r : ApprovalRecord) (a reason : Bytes) (now : ℤ)
      → r.submitter_id ≢ a
      → Keeps Files (persist_rejected {L = L} o (rejected_record r a reason now))
  unfolding Keeps persist_rejected
  kept_rejection o r a reason now two q s =
      K.rejection o r a reason now q.approved_file q.rejected_file two s

  two_of : (r : ApprovalRecord) (a : Bytes) → bytes_eq r.submitter_id a ≡ false → r.submitter_id ≢ a
  two_of r a other same = absurd (ground (arith, bytes_eq_iff r.submitter_id a))

  Keeps-approve_pending :
      (hex : Hex) (faults : Faults) (post : Bytes → Action L Bytes (Unit {0})) (id : ℕ) (a : Bytes)
      (now : ℤ)
      → Keeps Files (approve_pending hex faults post id a now)
  unfolding approve_pending
  Keeps-approve_pending hex faults post id a now =
      Keeps-bind Files (get_pending id) _ (kept_get id) λ r.
        Keeps-throw_if (bytes_eq r.submitter_id a) _ _ λ other.
          Keeps-bind Files _ _
            (kept_lift (ok_or (hex.decode r.entry_payload_hex) (FourEyesError.serialisation [])))
            λ entry. Keeps-then Files (call_post post entry) _ (Keeps-call_post post entry) (
              Keeps-then Files _ _ (kept_approval faults.persist r a now (two_of r a other))
                (Keeps-then Files _ _ (kept_leave faults.rewrite id) (kept_pure _)))

  Keeps-reject :
      (faults : Faults) (id : ℕ) (a reason : Bytes) (now : ℤ)
      → Keeps Files (reject {L = L} faults id a reason now)
  unfolding reject
  Keeps-reject faults id a reason now = Keeps-bind Files (get_pending id) _ (kept_get id) λ r.
      Keeps-throw_if (bytes_eq r.submitter_id a) _ _ λ other.
        Keeps-then Files _ _ (kept_rejection faults.persist r a reason now (two_of r a other))
          (Keeps-then Files _ _ (kept_leave faults.rewrite id) (kept_pure _))

  Keeps-or :
      (o : Option ApprovalRecord) (k : Call L ApprovalRecord)
      → Keeps Files k
      → Keeps Files (elim o [ some r ↦ pure r | none ↦ k ])
  Keeps-or (some r) k h = kept_pure r
  Keeps-or none k h = h

  Keeps-approve :
      (hex : Hex) (faults : Faults) (post : Bytes → Action L Bytes (Unit {0})) (id : ℕ) (a : Bytes)
      (now : ℤ)
      → Keeps Files (approve hex faults post id a now)
  unfolding approve
  Keeps-approve hex faults post id a now =
      Keeps-bind Files (find_approved faults.find id) _ (kept_find faults.find id)
        λ o. Keeps-or o _ (Keeps-approve_pending hex faults post id a now)

  submit-Files :
      (hex : Hex) (o : Outcome) (id : ℕ) (now : ℤ) (entry description domain submitter : Bytes)
      (q : FourEyesQueue L)
      → Files q
      → Files (submit hex o id now entry description domain submitter q).1
  unfolding submit persist_pending
  submit-Files hex Outcome.written id now entry description domain submitter q s = s
  submit-Files hex Outcome.refused id now entry description domain submitter q s = s
  submit-Files hex Outcome.unsynced id now entry description domain submitter q s = s
  submit-Files hex (Outcome.partly u) id now entry description domain submitter q s = s
  submit-Files hex Outcome.broken_off id now entry description domain submitter q s = s

  with_pending-Files :
      (q q' : FourEyesQueue L) (x : Result FourEyesError (Dict ApprovalRecord))
      → with_pending q x ≡ ok q'
      → Files q
      → Files q'
  with_pending-Files q q' (ok d) e s =
      let same : record q { pending = d } ≡ q' = ground arith in rw⁻¹ same s
  with_pending-Files q q' (err x) e s = absurd (ground arith)

  reopen-Files : (q q' : FourEyesQueue L) → reopen q ≡ ok q' → Files q → Files q'
  unfolding reopen
  reopen-Files q q' e s = with_pending-Files q q' _ e s

  pub Run-Files :
      (q q' : FourEyesQueue L)
      → Run L q q'
      → I q.approved_file q.rejected_file
      → I q'.approved_file q'.rejected_file
  unfolding Keeps
  Run-Files q q' (done _) s = s
  Run-Files q q' (more _ p _ run (submits hex o id now e d m b _)) s =
      submit-Files hex o id now e d m b p (Run-Files q p run s)
  Run-Files q q' (more _ p _ run (approves hex f post id a now _)) s =
      Keeps-approve hex f post id a now p (Run-Files q p run s)
  Run-Files q q' (more _ p _ run (rejects f id a why now _)) s =
      Keeps-reject f id a why now p (Run-Files q p run s)
  Run-Files q q' (more _ p _ run (restarts _ _ e)) s = reopen-Files p q' e (Run-Files q p run s)
