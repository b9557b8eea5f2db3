-- ===== src/Transaction/Records.antt =====
-- The records that `commit` (manager.rs) writes, whatever the disk does.
use vector_ledger.Common.{
  sym, ◌∙◌, ℕ, ◌≡◌, refl, List, [], ◌∷◌, ◌++◌, map, Option, some, Result, ok, err, inl, inr, ◌⊎◌,
  All,
}
use vector_ledger.Common.Action.{bind_from}
use vector_ledger.Common.Bytes.{Bytes}
use vector_ledger.Crypto.Hash.{Platform}
use vector_ledger.Crypto.Sign.{Ed25519}
use vector_ledger.Wal.Record.{Body, CommitPayload, WalRecord, WalError, Slot}
use vector_ledger.Wal.Writer.{WalWriter, WalSyncMode, append, next_record}
use vector_ledger.Wal.Writer.Growth.{Grown, Grown-none, Grown-trans, AfterAppend, append-grows}
use vector_ledger.Wal.Recovery.Crash.{Unfinished}
use vector_ledger.Transaction.Tx.{Transaction, PendingMutation}
use vector_ledger.Transaction.Manager.{payload_of, append_rows, commit_payload, append_commit}

-- The Data records of the mutations, in order.
abbrev pub AreRows : ℕ → List PendingMutation → List WalRecord → Type 0
AreRows tx_id [] [] = Unit {0}
AreRows tx_id [] (r ∷ rs) = ⊥
AreRows tx_id (m ∷ ms) [] = ⊥
AreRows tx_id (m ∷ ms) (r ∷ rs) =
    (r.tx_id ≡ tx_id) × (r.body ≡ Body.row (some (payload_of m))) × AreRows tx_id ms rs

-- A part of a transaction with no Commit record was added.
abbrev pub GrownUnfinished : WalWriter → WalWriter → Type 0
GrownUnfinished w w' = (slots : List Slot) × All Unfinished slots × Grown w slots w'

abbrev AfterRows :
    ℕ → List PendingMutation → WalWriter → Result WalError (Unit {0}) × WalWriter → Type 0
AfterRows tx_id ms w (ok u, w') =
    (rs : List WalRecord) × AreRows tx_id ms rs × Grown w (map Slot.whole rs) w'
AfterRows tx_id ms w (err e, w') = GrownUnfinished w w'

module _ (tx_id : ℕ) where
  one_row :
      (m : PendingMutation) (ms : List PendingMutation) (w w' : WalWriter)
      (x : Result WalError (Unit {0}) × WalWriter)
      → Grown w (Slot.whole (next_record tx_id (Body.row (some (payload_of m))) w) ∷ []) w'
      → AfterRows tx_id ms w' x
      → AfterRows tx_id (m ∷ ms) w x
  one_row m ms w w' (ok u, w'') g (rs, rows, g') =
      (_ ∷ rs, (refl, refl, rows), Grown-trans w w' w'' _ _ g g')
  one_row m ms w w' (err e, w'') g (slots, h, g') =
      (_ ∷ slots, ((λ i. i), h), Grown-trans w w' w'' _ _ g g')

  Unfinished-row :
      (r : WalRecord) (w w' : WalWriter) (e : WalError)
      → Unfinished (Slot.whole r)
      → AfterAppend r w (err e, w')
      → GrownUnfinished w w'
  Unfinished-row r w w' e h (inl g) = ([], tt, g)
  Unfinished-row r w w' e h (inr (inl g)) = (_, (tt, tt), g)
  Unfinished-row r w w' e h (inr (inr (mode, g))) = (_, (h, tt), g)

  next_rows :
      (m : PendingMutation) (ms : List PendingMutation) (w : WalWriter)
      (x : Result WalError WalRecord × WalWriter)
      → ((w' : WalWriter) → AfterRows tx_id ms w' (append_rows tx_id ms w'))
      → AfterAppend (next_record tx_id (Body.row (some (payload_of m))) w) w x
      → AfterRows tx_id (m ∷ ms) w (bind_from (λ _. append_rows tx_id ms) x)
  next_rows m ms w (ok r, w') ih (same, g) = one_row m ms w w' (append_rows tx_id ms w') g (ih w')
  next_rows m ms w (err e, w') ih h = Unfinished-row _ w w' e (λ i. i) h

  append_rows-grows :
      (ms : List PendingMutation) (w : WalWriter) → AfterRows tx_id ms w (append_rows tx_id ms w)
  unfolding append_rows
  append_rows-grows [] w = ([], tt, Grown-none w)
  append_rows-grows (m ∷ ms) w = next_rows m ms w _ (append_rows-grows ms) (append-grows tx_id _ w)

-- The Data records of the mutations and then the Commit record were added.
abbrev pub GrownCommitted :
    ℕ → List PendingMutation → CommitPayload → WalWriter → WalWriter → Type 0
GrownCommitted tx_id ms p w w' =
    (rs : List WalRecord) × (c : WalRecord) × AreRows tx_id ms rs
    × (c.tx_id ≡ tx_id)
    × (c.body ≡ Body.commit (some p))
    × Grown w (map Slot.whole rs ++ Slot.whole c ∷ []) w'

abbrev pub AfterCommit :
    ℕ
    → List PendingMutation
    → CommitPayload
    → WalWriter
    → Result WalError (Unit {0}) × WalWriter
    → Type 0
AfterCommit tx_id ms p w (ok u, w') = GrownCommitted tx_id ms p w w'
AfterCommit tx_id ms p w (err e, w') =
    GrownUnfinished w w' ⊎ ((w.sync_mode ≡ WalSyncMode.per_record) × GrownCommitted tx_id ms p w w')

module _ (tx_id : ℕ) (ms : List PendingMutation) (p : CommitPayload) where
  abbrev body : Body
  body = Body.commit (some p)

  Unfinished-commit :
      (w w' w'' : WalWriter) (rs : List WalRecord) (slots : List Slot)
      → AreRows tx_id ms rs
      → All Unfinished slots
      → Grown w (map Slot.whole rs) w'
      → Grown w' slots w''
      → GrownUnfinished w w''
  Unfinished-commit w w' w'' rs slots rows h g g' =
      (map Slot.whole rs ++ slots, unfinished_rows ms rs rows, Grown-trans w w' w'' _ _ g g')
    where
      unfinished_rows :
          (ms : List PendingMutation) (rs : List WalRecord)
          → AreRows tx_id ms rs
          → All Unfinished (map Slot.whole rs ++ slots)
      unfinished_rows [] [] rows = h
      unfinished_rows [] (r ∷ rs) rows = absurd rows
      unfinished_rows (m ∷ ms) [] rows = absurd rows
      unfinished_rows (m ∷ ms) (r ∷ rs) (_, b, rows) = (rw b (λ i. i), unfinished_rows ms rs rows)

  last_record :
      (w w' : WalWriter) (rs : List WalRecord) (x : Result WalError WalRecord × WalWriter)
      → AreRows tx_id ms rs
      → Grown w (map Slot.whole rs) w'
      → AfterAppend (next_record tx_id body w') w' x
      → AfterCommit tx_id ms p w (bind_from (λ _ w. (ok tt, w)) x)
  last_record w w' rs (ok r, w'') rows g (same, g') =
      (rs, _, rows, refl, refl, Grown-trans w w' w'' _ _ g g')
  last_record w w' rs (err e, w'') rows g (inl g') =
      inl (Unfinished-commit w w' w'' rs [] rows tt g g')
  last_record w w' rs (err e, w'') rows g (inr (inl g')) =
      inl (Unfinished-commit w w' w'' rs (Slot.torn ∷ []) rows (tt, tt) g g')
  last_record w w' rs (err e, w'') rows g (inr (inr (mode, g'))) =
      inr (sym g.1 ∙ mode, (rs, _, rows, refl, refl, Grown-trans w w' w'' _ _ g g'))

  after_rows :
      (w : WalWriter) (x : Result WalError (Unit {0}) × WalWriter)
      → AfterRows tx_id ms w x
      → AfterCommit tx_id ms p w
          (bind_from (λ _ w. bind_from (λ _ w. (ok tt, w)) (append tx_id body w)) x)
  after_rows w (ok u, w') (rs, rows, g) = last_record w w' rs _ rows g (append-grows tx_id body w')
  after_rows w (err e, w') h = inl h

-- Whatever the disk does, writing a commit only adds to the log. With no error it adds the Data
-- records of all the mutations in order, and then the Commit record. With an error it adds a part of
-- the transaction that holds no Commit record; in `PerRecord` mode the whole transaction may be
-- there, when the last `fsync` failed.
pub append_commit-grows :
    (P : Platform) (S : Ed25519) (tx_id : ℕ) (key : Option Bytes) (t : Transaction) (w : WalWriter)
    → AfterCommit tx_id t.mutations (commit_payload P S key t) w (append_commit P S tx_id key t w)
unfolding append_commit
append_commit-grows P S tx_id key t w =
    after_rows tx_id t.mutations (commit_payload P S key t) w _
      (append_rows-grows tx_id t.mutations w)
