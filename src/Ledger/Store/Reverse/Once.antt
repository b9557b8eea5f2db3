-- ===== src/Ledger/Store/Reverse/Once.antt =====
-- What `reverse_entry` (store.rs) takes back, and that it does so once.
use vector_ledger.Common.{
  arith, ℕ, suc, ◌≡◌, refl, sym, ap, ◌∙◌, List, [], ◌∷◌, Option, none, some, Result, ok, err, Bool,
  true, false, ==_refl,
}
use vector_ledger.Common.Bytes.{Bytes}
use vector_ledger.Common.Dict.{Dict, lookup, lookup-insert}
use vector_ledger.Common.Int.{ℤ, pos, neg, ◌+ℤ◌, int_laws, neg-neg}
use vector_ledger.Crypto.Hash.{Platform}
use vector_ledger.Crypto.Sign.{Ed25519}
use vector_ledger.Ledger.Account.{Uuid, Account}
use vector_ledger.Ledger.Entry.{JournalEntry, JournalLine, DrCr}
use vector_ledger.Ledger.Entry.Hashes.{finalize_hashes, precompute_content_hash}
use vector_ledger.Ledger.Error.{EntryStatus, LedgerError}
use vector_ledger.Ledger.Store.Balance.{
  affects_balance, signed_delta, line_effect, lines_effect, entry_effect, update_lines-value,
}
use vector_ledger.Ledger.Store.Post.Effect.{finalize_chain_hash-link}
use vector_ledger.Ledger.Store.Post.Outcome.{numbered}
use vector_ledger.Ledger.Store.Records.{Bincode}
use vector_ledger.Ledger.Store.Reverse.{
  find_original, check_status, flip, flip_lines, check_reversed, reversal_entry, reversal_written,
  reverse_entry, reversed_by,
}
use vector_ledger.Ledger.Store.Reverse.Outcome.{Reversed, reversed_as, reverse_entry-Reversed}
use vector_ledger.Ledger.Store.Storage.{Storage}
use vector_ledger.Ledger.Store.State.{LedgerStore, World, balance}

flip-neg : (b : Bool) (c : DrCr) (x : ℤ) → signed_delta b (flip c) x ≡ neg (signed_delta b c x)
flip-neg true DrCr.debit x = refl
flip-neg true DrCr.credit x = sym (neg-neg x)
flip-neg false DrCr.debit x = sym (neg-neg x)
flip-neg false DrCr.credit x = refl

neg_zero : neg (pos 0) ≡ pos 0
neg_zero = omega int_laws

neg-add : (x y : ℤ) → neg (x +ℤ y) ≡ neg x +ℤ neg y
neg-add x y = omega int_laws

line_effect-flip :
    (o : Option Account) (l l' : JournalLine)
    → l'.dr_cr ≡ flip l.dr_cr
    → l'.amount ≡ l.amount
    → line_effect o l' ≡ neg (line_effect o l)
unfolding line_effect
line_effect-flip none l l' c x = sym neg_zero
line_effect-flip (some acct) l l' c x = rw c (rw x (flip-neg _ l.dr_cr _))

module _ (P : Platform) where
  flip_lines-effect :
      (accounts : Dict Account) (b : Uuid) (ids : ℕ → Uuid) (n : ℕ) (ls : List JournalLine)
      → lines_effect accounts b (flip_lines P ids n ls) ≡ neg (lines_effect accounts b ls)
  unfolding flip_lines lines_effect
  flip_lines-effect accounts b ids n [] = sym neg_zero
  flip_lines-effect accounts b ids n (l ∷ ls) = ground (
    arith,
    flip_lines-effect accounts b ids (suc n) ls,
    line_effect-flip (lookup b accounts) l (record l { dr_cr = flip l.dr_cr }) refl refl,
    neg-add (line_effect (lookup b accounts) l) (lines_effect accounts b ls),
  )

  -- The lines of the reversal are the flipped ones of the original.
  pub reversed_as-lines :
      (w : World) (a : Uuid) (description domain : Bytes) (o : JournalEntry) (s : LedgerStore)
      → (reversed_as P w a description domain o s).lines ≡ flip_lines P w.fresh_id 0 o.lines
  unfolding finalize_hashes precompute_content_hash reversal_entry
  reversed_as-lines w a description domain o s =
      let (h, q) =
        finalize_chain_hash-link P
          (precompute_content_hash P (record (reversal_entry P w a description domain o) {
            sequence = s.next_sequence;
            posted_at = w.now;
          }))
          s.last_chain_hash in
      ap (λ e. e.lines) q

  posted_status : (a : Uuid) (x : EntryStatus) → check_status a x ≡ ok tt → x ≡ EntryStatus.posted
  unfolding check_status
  posted_status a EntryStatus.posted h = refl
  posted_status a EntryStatus.reversed h = absurd (ground arith)
  posted_status a EntryStatus.reversal h = absurd (ground arith)
  posted_status a EntryStatus.pending_approval h = absurd (ground arith)
  posted_status a EntryStatus.rejected h = absurd (ground arith)
  posted_status a EntryStatus.pending h = absurd (ground arith)
  posted_status a EntryStatus.settled h = absurd (ground arith)
  posted_status a EntryStatus.failed h = absurd (ground arith)

  posted-effect :
      (accounts : Dict Account) (b : Uuid) (o : JournalEntry)
      → o.status ≡ EntryStatus.posted
      → lines_effect accounts b o.lines ≡ entry_effect accounts b o
  unfolding entry_effect
  posted-effect accounts b o h = ground (arith, ap affects_balance h)

  written-cancels :
      (w : World) (a b : Uuid) (description domain : Bytes) (s : LedgerStore) (o : JournalEntry)
      (d : Storage)
      → check_status a o.status ≡ ok tt
      → balance b (reversal_written w a (reversed_as P w a description domain o s) (numbered s d))
        ≡ balance b s +ℤ neg (entry_effect s.accounts b o)
  unfolding balance reversal_written
  written-cancels w a b description domain s o d c =
      update_lines-value s.accounts b (reversed_as P w a description domain o s).lines
        s.balance_cache
      ∙ ap (λ ls. balance b s +ℤ lines_effect s.accounts b ls)
          (reversed_as-lines w a description domain o s)
      ∙ ap (λ x. balance b s +ℤ x) (flip_lines-effect s.accounts b w.fresh_id 0 o.lines)
      ∙ ap (λ x. balance b s +ℤ neg x) (posted-effect s.accounts b o (posted_status a o.status c))

  Reversed-cancels :
      (w : World) (a b r : Uuid) (description domain : Bytes) (s s' : LedgerStore)
      (x : Result LedgerError Uuid × LedgerStore)
      → Reversed P w a description domain s x
      → ◌≡◌ {A = Result LedgerError Uuid × LedgerStore} x (ok r, s')
      → (o : JournalEntry) × (find_original w a s ≡ ok o)
        × (balance b s' ≡ balance b s +ℤ neg (entry_effect s.accounts b o))
  Reversed-cancels w a b r description domain s s' _ (Reversed.refused x) q = absurd (ground arith)
  Reversed-cancels w a b r description domain s s' _ (Reversed.lost x o d f h c) q =
      absurd (ground arith)
  Reversed-cancels w a b r description domain s s' _ (Reversed.written o d f c h n) q =
      let e = reversed_as P w a description domain o s in
      let same : reversal_written w a e (numbered s d) ≡ s' = ap (λ y. y.1) q in
      (o, f, rw⁻¹ same (written-cancels w a b description domain s o d c))

  Reversed-indexed :
      (w : World) (a r : Uuid) (description domain : Bytes) (s s' : LedgerStore)
      (x : Result LedgerError Uuid × LedgerStore)
      → Reversed P w a description domain s x
      → ◌≡◌ {A = Result LedgerError Uuid × LedgerStore} x (ok r, s')
      → reversed_by a s' ≡ some r
  unfolding reversed_by reversal_written
  Reversed-indexed w a r description domain s s' _ (Reversed.refused x) q = absurd (ground arith)
  Reversed-indexed w a r description domain s s' _ (Reversed.lost x o d f h c) q =
      absurd (ground arith)
  Reversed-indexed w a r description domain s s' _ (Reversed.written o d f c h n) q =
      let e = reversed_as P w a description domain o s in
      let same : reversal_written w a e (numbered s d) ≡ s' = ap (λ y. y.1) q in
      let id : e.id ≡ r = ground arith in
      rw⁻¹ same (lookup-insert a a e.id s.reversal_event_index ∙ rw (==_refl a) (rw id refl))

  Reversed-refused :
      (w : World) (a r : Uuid) (description domain : Bytes) (s : LedgerStore)
      (x : Result LedgerError Uuid × LedgerStore)
      → Reversed P w a description domain s x
      → reversed_by a s ≡ some r
      → (z : LedgerError) × (◌≡◌ {A = Result LedgerError Uuid × LedgerStore} x (err z, s))
  unfolding reversed_by check_reversed
  Reversed-refused w a r description domain s _ (Reversed.refused x) i = (x, refl)
  Reversed-refused w a r description domain s _ (Reversed.lost x o d f h c) i =
      absurd (ground (arith, rw i at c))
  Reversed-refused w a r description domain s _ (Reversed.written o d f c h n) i =
      absurd (ground (arith, rw i at n))

module _ (P : Platform) (S : Ed25519) (B : Bincode) where
  -- A reversal takes back exactly what the original put in: when `reverse_entry` returns an id, the
  -- balance of every account has changed by the negative of the effect of the entry that it found.
  pub reverse_entry-cancels :
      (w : World) (a b r : Uuid) (description domain : Bytes) (s s' : LedgerStore)
      → reverse_entry P S B w a description domain s ≡ (ok r, s')
      → (o : JournalEntry) × (find_original w a s ≡ ok o)
        × (balance b s' ≡ balance b s +ℤ neg (entry_effect s.accounts b o))
  reverse_entry-cancels w a b r description domain s s' q =
      Reversed-cancels P w a b r description domain s s' _
        (reverse_entry-Reversed P S B w a description domain s) q

  -- An entry is reversed at most once: after a reversal that returned an id, `reversed_by` gives that
  -- id, and every further call for the same entry, whatever the world does, gives an error and leaves
  -- the store as it is.
  pub reverse_entry-once :
      (w : World) (a r : Uuid) (description domain : Bytes) (s s' : LedgerStore) (w' : World)
      (description' domain' : Bytes)
      → reverse_entry P S B w a description domain s ≡ (ok r, s')
      → (reversed_by a s' ≡ some r)
        × ((z : LedgerError) × (reverse_entry P S B w' a description' domain' s' ≡ (err z, s')))
  reverse_entry-once w a r description domain s s' w' description' domain' q =
      let i =
        Reversed-indexed P w a r description domain s s' _
          (reverse_entry-Reversed P S B w a description domain s) q in
      (
        i,
        Reversed-refused P w' a r description' domain' s' _
            (reverse_entry-Reversed P S B w' a description' domain' s') i,
      )
