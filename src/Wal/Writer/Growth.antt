-- ===== src/Wal/Writer/Growth.antt =====
-- How `append` and `sync` (writer.rs) change the log.
use vector_ledger.Common.{
  Bool, true, false, ℕ, ◌+◌, ◌≡◌, refl, ap, sym, ◌∙◌, List, [], ◌∷◌, ◌++◌, append_assoc, append-nil,
  Result, ok, err, inl, inr, ◌⊎◌,
}
use vector_ledger.Wal.Record.{Body, WalRecord, WalError, Slot}
use vector_ledger.Wal.Writer.{
  WalWriter, WalSyncMode, Outcome, next_record, append, put, write, after_write,
}

-- The slots are added at the end of the log; nothing before them changes.
abbrev pub Grown : WalWriter → List Slot → WalWriter → Type 0
Grown w slots w' = (w'.log ≡ w.log ++ slots) × (w'.sync_mode ≡ w.sync_mode)

pub Grown-none : (w : WalWriter) → Grown w [] w
Grown-none w = (sym (append-nil w.log), refl)

pub Grown-trans :
    (w w' w'' : WalWriter) (a b : List Slot) → Grown w a w' → Grown w' b w'' → Grown w (a ++ b) w''
Grown-trans w w' w'' a b (e, m) (e', m') =
    (e' ∙ ap (λ l. l ++ b) e ∙ append_assoc w.log a b, m' ∙ m)

-- What `append` did: the whole record at the end of the log; or an error, with nothing, a torn
-- record, or, in `PerRecord` mode only, the whole record there.
abbrev pub AfterAppend : WalRecord → WalWriter → Result WalError WalRecord × WalWriter → Type 0
AfterAppend r w (ok r', w') = (r' ≡ r) × Grown w (Slot.whole r ∷ []) w'
AfterAppend r w (err e, w') =
    Grown w [] w'
    ⊎ (Grown w (Slot.torn ∷ []) w'
        ⊎ ((w.sync_mode ≡ WalSyncMode.per_record) × Grown w (Slot.whole r ∷ []) w'))

module _ (r : WalRecord) (w : WalWriter) (n : ℕ) where
  -- The writer after the sequence number was taken.
  abbrev numbered : WalWriter
  numbered = record w { sequence = n }

  after_write-grows :
      (mode : WalSyncMode) (s : Bool)
      → w.sync_mode ≡ mode
      → AfterAppend r w (after_write mode s r (put (Slot.whole r) numbered))
  after_write-grows WalSyncMode.per_record true e = (refl, (refl, refl))
  after_write-grows WalSyncMode.per_record false e = inr (inr (e, (refl, refl)))
  after_write-grows WalSyncMode.group_commit s e = (refl, (refl, refl))

  write-grows : (o : Outcome) → AfterAppend r w (write o r numbered)
  write-grows Outcome.written = after_write-grows w.sync_mode true refl
  write-grows Outcome.unsynced = after_write-grows w.sync_mode false refl
  write-grows Outcome.refused = inl (Grown-none w)
  write-grows Outcome.partly = inr (inl (refl, refl))

-- Whatever the disk does, `append` keeps every slot of the log. With a result, the log ends with the
-- returned record, which carries the next sequence number. With an error, the log is unchanged or
-- ends with a torn record; in `PerRecord` mode it may also end with the whole record, when the
-- `fsync` failed.
pub append-grows :
    (tx_id : ℕ) (body : Body) (w : WalWriter)
    → AfterAppend (next_record tx_id body w) w (append tx_id body w)
unfolding append
append-grows tx_id body w =
    write-grows (next_record tx_id body w) w (w.sequence + 1) (w.disk.outcome (w.sequence + 1))
