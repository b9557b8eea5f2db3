-- ===== src/Ledger/Store/Accounts/Holds.antt =====
-- A legal hold (store.rs) stops postings, reversals and settlements.
use vector_ledger.Common.{
  arith, ℕ, ◌≡◌, refl, ap, ◌∙◌, ◌⊎◌, inl, inr, List, [], ◌∷◌, Option, none, some, Result, ok, err,
  Bool, true, false, ◌==◌, ==_refl, if◌then◌else◌, Result-cases, Option-cases, Bool-cases,
}
use vector_ledger.Common.Action.{bind_from, zoom_result}
use vector_ledger.Common.Bytes.{Bytes}
use vector_ledger.Common.Dict.{
  Dict, lookup, insert, lookup-insert, member, set_insert, member-set_insert,
}
use vector_ledger.Crypto.Hash.{Platform}
use vector_ledger.Crypto.Sign.{Ed25519}
use vector_ledger.Ledger.Account.{Uuid, Account}
use vector_ledger.Ledger.Entry.{JournalEntry, JournalLine}
use vector_ledger.Ledger.Error.{EntryStatus, LedgerError}
use vector_ledger.Ledger.Store.Accounts.{
  account_or_missing, put_account, set_hold, set_legal_hold, place_legal_hold,
}
use vector_ledger.Ledger.Store.Database.{stream_all}
use vector_ledger.Ledger.Store.Post.{known_key}
use vector_ledger.Ledger.Store.Records.{Bincode, encode}
use vector_ledger.Ledger.Store.Reverse.{find_original, check_holds, last_with_id, reverse_entry}
use vector_ledger.Ledger.Store.Reverse.Outcome.{Reversed, reverse_entry-Reversed}
use vector_ledger.Ledger.Store.Settlement.{apply_settlement_event}
use vector_ledger.Ledger.Store.State.{LedgerStore, World}
use vector_ledger.Ledger.Store.Storage.{Storage}

-- The account with an id is under a hold, in both places that say so.
abbrev pub IsHeld : Uuid → LedgerStore → Type 0
IsHeld a s =
    (acct : Account) × (lookup a s.accounts ≡ some acct)
    × (acct.legal_hold ≡ true)
    × (member a s.legal_hold_accounts ≡ true)

-- A line of the list is on the account.
unfoldable pub touches : Uuid → List JournalLine → Bool
touches a [] = false
touches a (l ∷ ls) = let rest = touches a ls in if l.account_id == a then true else rest

check_holds-held :
    (held : List Uuid) (ls : List JournalLine) (a : Uuid)
    → member a held ≡ true
    → touches a ls ≡ true
    → check_holds held ls ≡ ok tt
    → ⊥
unfolding check_holds touches
check_holds-held held [] a m t c = ground arith
check_holds-held held (x ∷ xs) a m t c = elim (Bool-cases (x.account_id == a)) [
  | inl same ↦
      let key : x.account_id ≡ a = ground arith in
      let held_too : member x.account_id held ≡ true = rw key m in ground arith
  | inr other ↦ check_holds-held held xs a m (ground arith) (ground arith)
]

module _ (P : Platform) where
  -- What a posting on a held account gives: an error, or the number of the entry that has the key.
  abbrev pub Blocked :
      World → JournalEntry → LedgerStore → Result LedgerError ℕ × LedgerStore → Type 0
  Blocked w e s x =
      ((z : LedgerError) × (◌≡◌ {A = Result LedgerError ℕ × LedgerStore} x (err z, s)))
      ⊎ ((n : ℕ) × (known_key w e.idempotency_key s ≡ some n)
          × (◌≡◌ {A = Result LedgerError ℕ × LedgerStore} x (ok n, s)))

  held-Reversed :
      (w : World) (a id : Uuid) (description domain : Bytes) (s : LedgerStore) (o : JournalEntry)
      (x : Result LedgerError Uuid × LedgerStore)
      → Reversed P w id description domain s x
      → IsHeld a s
      → find_original w id s ≡ ok o
      → touches a o.lines ≡ true
      → (z : LedgerError) × (◌≡◌ {A = Result LedgerError Uuid × LedgerStore} x (err z, s))
  held-Reversed w a id de dom s o _ (Reversed.refused z) h found t = (z, refl)
  held-Reversed w a id de dom s o _ (Reversed.lost z o' d f c r) (acct, l, h, m) found t =
      let same : o' ≡ o = ground arith in
      absurd (check_holds-held s.legal_hold_accounts o'.lines a m (rw same t) c)
  held-Reversed w a id de dom s o _ (Reversed.written o' d f y c r) (acct, l, h, m) found t =
      let same : o' ≡ o = ground arith in
      absurd (check_holds-held s.legal_hold_accounts o'.lines a m (rw same t) c)

module _ (P : Platform) (S : Ed25519) (B : Bincode) where
  held_settlement :
      (w : World) (a id : Uuid) (status : EntryStatus) (notes : Option Bytes) (s : LedgerStore)
      (row : JournalEntry)
      → last_with_id id none (stream_all w.reads s.entry_db) ≡ some row
      → touches a row.lines ≡ true
      → member a s.legal_hold_accounts ≡ true
      → (z : LedgerError) × (apply_settlement_event P S B w id status notes s ≡ (err z, s))
  unfolding apply_settlement_event
  held_settlement w a id status notes s row found t m =
      elim (Result-cases (check_holds s.legal_hold_accounts row.lines)) [
        | inl (u, c) ↦ absurd (check_holds-held s.legal_hold_accounts row.lines a m t c)
        | inr (x, c) ↦ (x, rw found (rw c refl))
      ]

  abbrev with_hold : Uuid → Account → LedgerStore → LedgerStore
  unfolding put_account
  with_hold a old s = put_account a (record old { legal_hold = true }) s

  abbrev listed : Uuid → LedgerStore → LedgerStore
  listed a t = record t { legal_hold_accounts = set_hold true a t.legal_hold_accounts }

  put_hold :
      (a : Uuid) (old : Account) (s s' : LedgerStore) (x : Result LedgerError (ℕ × ℕ) × Storage)
      → bind_from {E = LedgerError}
          (λ _ t. (ok tt, listed a t))
          (zoom_result (λ e. e) (λ d s. record s { storage = d }) (with_hold a old s) x)
        ≡ (ok tt, s')
      → IsHeld a s'
  unfolding with_hold put_account set_hold
  put_hold a old s s' (ok p, d) q =
      let acct = record old { legal_hold = true } in
      let same : record s {
        storage = d;
        accounts = insert a acct s.accounts;
        legal_hold_accounts = set_insert a s.legal_hold_accounts;
      }
          ≡ s' =
        ap (λ y. y.1) q in
      rw⁻¹ same (
        acct,
        lookup-insert a a acct s.accounts ∙ rw (==_refl a) refl,
        refl,
        member-set_insert a a s.legal_hold_accounts ∙ rw (==_refl a) refl,
      )
  put_hold a old s s' (err z, d) q = absurd (ground arith)

  place_legal_hold-IsHeld :
      (w : World) (a : Uuid) (s s' : LedgerStore)
      → place_legal_hold P S B w a s ≡ (ok tt, s')
      → IsHeld a s'
  unfolding place_legal_hold set_legal_hold account_or_missing with_hold
  place_legal_hold-IsHeld w a s s' q = elim (Option-cases (lookup a s.accounts)) [
    | inl n ↦ absurd (ground (arith, rw n at q))
    | inr (old, o) ↦ elim (Result-cases (encode B.account (record old { legal_hold = true }))) [
      | inl (bytes, b) ↦ put_hold a old s s' _ (rw b at (rw o at q))
      | inr (x, b) ↦ absurd (ground (arith, rw b at (rw o at q)))
    ]
  ]

  -- Once `place_legal_hold` has returned with no error, no entry with a line on the account is
  -- reversed: if the id is that of such an entry, `reverse_entry` gives an error and leaves the store
  -- as it is.
  pub place_legal_hold-reverse_entry :
      (w w' : World) (a id : Uuid) (s s' : LedgerStore) (original : JournalEntry)
      (description domain : Bytes)
      → place_legal_hold P S B w a s ≡ (ok tt, s')
      → find_original w' id s' ≡ ok original
      → touches a original.lines ≡ true
      → (x : LedgerError) × (reverse_entry P S B w' id description domain s' ≡ (err x, s'))
  place_legal_hold-reverse_entry w w' a id s s' original description domain q found t =
      held-Reversed P w' a id description domain s' original _
        (reverse_entry-Reversed P S B w' id description domain s')
        (place_legal_hold-IsHeld w a s s' q) found t

  -- Once `place_legal_hold` has returned with no error, an entry with a line on the account gets no
  -- settlement event: if the newest row of the id has such a line, `apply_settlement_event` gives an
  -- error and leaves the store as it is.
  place_legal_hold-apply_settlement_event :
      (w w' : World) (a id : Uuid) (s s' : LedgerStore) (row : JournalEntry) (status : EntryStatus)
      (notes : Option Bytes)
      → place_legal_hold P S B w a s ≡ (ok tt, s')
      → last_with_id id none (stream_all w'.reads s'.entry_db) ≡ some row
      → touches a row.lines ≡ true
      → (x : LedgerError) × (apply_settlement_event P S B w' id status notes s' ≡ (err x, s'))
  place_legal_hold-apply_settlement_event w w' a id s s' row status notes q found t =
      held_settlement w' a id status notes s' row found t (place_legal_hold-IsHeld w a s s' q).3
