-- ===== src/Wal/Recovery/Crash.antt =====
-- Recovery (recovery.rs) after a crash: what reaches the callback.
use vector_ledger.Common.{
  ◌≡◌, refl, ap, List, [], ◌∷◌, ◌++◌, Bool, true, false, Result, ok, err, ◌>>=◌, ◌∙◌, sym, All,
}
use vector_ledger.Crypto.Hash.{Platform}
use vector_ledger.Crypto.Sign.{Ed25519}
use vector_ledger.Wal.Record.{Body, WalRecord, WalError, Slot}
use vector_ledger.Wal.Recovery.{
  CommittedTransaction, RecoveryResult, Scan, on_body, scan_record, scan, finish, recover_streaming,
}

-- What recovery makes of the log, without the counts.
abbrev pub outcome : {T E : Type 0} → Result E (T × RecoveryResult) → Result E T
outcome (ok r) = ok r.0
outcome (err e) = err e

abbrev pub state_of : {T E : Type 0} → Result E (Scan T × Bool) → Result E T
state_of (ok r) = ok r.0.state
state_of (err e) = err e

abbrev IsCommit : Body → Type 0
IsCommit (Body.commit p) = Unit {0}
IsCommit _ = ⊥

-- A slot that a crash may leave behind an unfinished transaction: any record but a Commit, or a torn
-- write.
abbrev pub Unfinished : Slot → Type 0
Unfinished (Slot.whole r) = IsCommit r.body → ⊥
Unfinished Slot.torn = Unit {0}
Unfinished (Slot.unreadable e) = ⊥

-- What follows the same step with the same state ends in the same state.
state_of-bind :
    {T E : Type 0} (r : Result E (Scan T)) (f g : Scan T → Result E (Scan T × Bool))
    → ((s : Scan T) → state_of (f s) ≡ state_of (g s))
    → state_of (r >>= f) ≡ state_of (r >>= g)
state_of-bind (ok s) f g h = h s
state_of-bind (err e) f g h = refl

state_of_step :
    {T E : Type 0} {t : T} {r : Result E (Scan T)} (f : Scan T → Result E (Scan T × Bool))
    → (s : Scan T) × (r ≡ ok s) × (s.state ≡ t)
    → ((s : Scan T) → state_of (f s) ≡ ok s.state)
    → state_of (r >>= f) ≡ ok t
state_of_step f (s, e, same) h = ap (λ r. state_of (r >>= f)) e ∙ h s ∙ ap ok same

pub outcome-finish :
    {T E : Type 0} (r : Result E (Scan T × Bool)) → outcome (r >>= λ x. ok (finish x)) ≡ state_of r
outcome-finish (ok r) = refl
outcome-finish (err e) = refl

module _ (P : Platform) (S : Ed25519) {T E : Type 0} (from : WalError → E) (verify : Bool)
    (on_commit : T → CommittedTransaction → Result E T) where
  -- A record that is no Commit leaves the callback's state.
  keeps_state :
      (r : WalRecord) (b : Body) (s : Scan T)
      → (IsCommit b → ⊥)
      → (s' : Scan T) × (on_body P S from verify on_commit r b s ≡ ok s') × (s'.state ≡ s.state)
  unfolding on_body
  keeps_state r (Body.begin d) s h =
      elim verify
        as (λ v.
          (s' : Scan T) × (on_body P S from v on_commit r (Body.begin d) s ≡ ok s')
          × (s'.state ≡ s.state)) [ true ↦ (_, refl, refl) | false ↦ (_, refl, refl) ]
  keeps_state r (Body.row p) s h =
      elim verify
        as (λ v.
          (s' : Scan T) × (on_body P S from v on_commit r (Body.row p) s ≡ ok s')
          × (s'.state ≡ s.state)) [ true ↦ (_, refl, refl) | false ↦ (_, refl, refl) ]
  keeps_state r (Body.commit p) s h = absurd (h tt)
  keeps_state r Body.rollback s h = (_, refl, refl)
  keeps_state r Body.schema s h = (_, refl, refl)
  keeps_state r Body.segment_header s h = (_, refl, refl)
  keeps_state r (Body.checkpoint p) s h = (_, refl, refl)

  scan-Unfinished :
      (tail : List Slot) (s : Scan T)
      → All Unfinished tail
      → state_of (scan P S from verify on_commit tail s) ≡ ok s.state
  unfolding scan scan_record
  scan-Unfinished [] s h = refl
  scan-Unfinished (Slot.torn ∷ tail) s h = refl
  scan-Unfinished (Slot.unreadable e ∷ tail) s h = absurd h.0
  scan-Unfinished (Slot.whole r ∷ tail) s h =
      state_of_step _ (keeps_state r r.body _ h.0) λ s'. scan-Unfinished tail s' h.1

  scan-append :
      (log tail : List Slot) (s : Scan T)
      → All Unfinished tail
      → state_of (scan P S from verify on_commit (log ++ tail) s)
        ≡ state_of (scan P S from verify on_commit log s)
  unfolding scan
  scan-append [] tail s h = scan-Unfinished tail s h
  scan-append (Slot.torn ∷ log) tail s h = refl
  scan-append (Slot.unreadable e ∷ log) tail s h = refl
  scan-append (Slot.whole r ∷ log) tail s h =
      state_of-bind (scan_record P S from verify on_commit r s) _ _ λ s'. scan-append log tail s' h

  -- Records of transactions that reached no Commit, and torn writes, at the end of the log change
  -- nothing that recovery delivers to the callback, and give no error, with and without verification.
  pub recover_streaming-Unfinished :
      (log tail : List Slot) (t : T)
      → All Unfinished tail
      → outcome (recover_streaming P S from verify on_commit (log ++ tail) t)
        ≡ outcome (recover_streaming P S from verify on_commit log t)
  unfolding recover_streaming
  recover_streaming-Unfinished log tail t h =
      outcome-finish (scan P S from verify on_commit (log ++ tail) _)
      ∙ scan-append log tail _ h
      ∙ sym (outcome-finish (scan P S from verify on_commit log _))
