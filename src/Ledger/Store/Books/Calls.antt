-- ===== src/Ledger/Store/Books/Calls.antt =====
-- The other calls on a store (store.rs) keep the books too.
use vector_ledger.Common.{
  ◌∙◌, ◌≡◌, refl, Option, none, some, true, false, Bool, Result, ok, err, Option-cases,
  Result-cases, inl, inr,
}
use vector_ledger.Common.Action.{
  Action, bind_from, zoom_result, ◌>>=◌, ◌>>◌, lift, modify, Keeps, Keeps-bind, Keeps-then,
  Keeps-read, Keeps-zoom,
}
use vector_ledger.Common.Bytes.{Bytes}
use vector_ledger.Common.Dict.{lookup, insert}
use vector_ledger.Crypto.Hash.{Platform}
use vector_ledger.Crypto.Sign.{Ed25519}
use vector_ledger.Ledger.Account.{Uuid, Account, AccountStatus}
use vector_ledger.Ledger.Error.{EntryStatus, LedgerError}
use vector_ledger.Ledger.Store.Accounts.{
  set_hold, apply_account, account_or_missing, put_account, index_account, create_account,
  close_account, set_legal_hold, persist_account,
}
use vector_ledger.Ledger.Store.Books.{AreIndexed, IsBooked}
use vector_ledger.Ledger.Store.Books.Kinds.{
  KeepTypes, KeepTypes-new, KeepTypes-update, AreBooks-keep, AreIndexed-insert, AreIndexed-lookup,
}
use vector_ledger.Ledger.Store.Database.{EntryDb, stream_all, upsert_account}
use vector_ledger.Ledger.Store.Reconcile.{reconcile, reconciliation_record, reconcile_and_record}
use vector_ledger.Ledger.Store.Records.{
  Bincode, encode, table_accounts, table_settlement_events, table_reconciliation_events,
}
use vector_ledger.Ledger.Store.Reverse.{last_with_id, check_holds}
use vector_ledger.Ledger.Store.Settlement.{settlement_event, apply_settlement_event}
use vector_ledger.Ledger.Store.State.{LedgerStore, World, Call, on_storage}
use vector_ledger.Ledger.Store.Storage.{Storage, persist_row}
use vector_ledger.Wal.Record.{MutationKind}

abbrev settled : Uuid → EntryStatus → LedgerStore → LedgerStore
settled a status t = record t { settlement_event_index = insert a status t.settlement_event_index }

module _ (P : Platform) where
  on_storage-Keeps :
      {A : Type 0} (m : Action Storage LedgerError A) → Keeps (IsBooked P) (on_storage m)
  unfolding IsBooked
  on_storage-Keeps m = Keeps-zoom (IsBooked P) _ _ _ m (λ d s b. b)

  entries-upsert_account :
      (works : Bool) (acct : Account) (db : EntryDb)
      → (upsert_account works acct db).entries ≡ db.entries
  unfolding upsert_account
  entries-upsert_account true acct db = refl
  entries-upsert_account false acct db = refl

  index_account-Keeps :
      (w : World) (acct : Account)
      → Keeps (IsBooked P) (modify {E = LedgerError} (index_account w acct))
  unfolding Keeps IsBooked index_account
  index_account-Keeps w acct s b = rw (entries-upsert_account w.upserts acct s.entry_db) b

  hold_list :
      (hold : Bool) (a : Uuid)
      → Keeps (IsBooked P) (
          modify {E = LedgerError} (λ (s : LedgerStore). record s {
            legal_hold_accounts = set_hold hold a s.legal_hold_accounts;
          }))
  unfolding Keeps IsBooked
  hold_list hold a s b = b

  settled-IsBooked :
      (a : Uuid) (status : EntryStatus) (t : LedgerStore)
      → IsBooked P t
      → IsBooked P (settled a status t)
  unfolding IsBooked
  settled-IsBooked a status t b = b

  indexed : (s : LedgerStore) → IsBooked P s → AreIndexed s.accounts
  unfolding IsBooked
  indexed s b = b.indexed

  put_account-IsBooked :
      (a : Uuid) (acct : Account) (s : LedgerStore)
      → KeepTypes s.accounts (insert a acct s.accounts)
      → acct.id ≡ a
      → IsBooked P s
      → IsBooked P (put_account a acct s)
  unfolding IsBooked put_account
  put_account-IsBooked a acct s keep id b =
      AreBooks-keep P s.accounts (insert a acct s.accounts) _ _ _ _ keep
        (AreIndexed-insert a acct s.accounts id b.indexed) b

module _ (P : Platform) (S : Ed25519) (B : Bincode) where
  -- The end of a change of an account.
  abbrev rewritten : World → Account → Call (Unit {0}) → Call (Unit {0})
  rewritten w acct after = lift (encode B.account acct) >>= λ bytes.
      persist_account P S B w MutationKind.delete bytes >> after

  rewritten-Keeps :
      (w : World) (acct : Account) (after : Call (Unit {0}))
      → Keeps (IsBooked P) after
      → Keeps (IsBooked P) (rewritten w acct after)
  rewritten-Keeps w acct after k =
      Keeps-bind (IsBooked P) (lift (encode B.account acct))
        (λ bytes. persist_account P S B w MutationKind.delete bytes >> after)
        (Keeps-read (IsBooked P) (λ _. encode B.account acct))
        (λ bytes.
          Keeps-then (IsBooked P) (persist_account P S B w MutationKind.delete bytes) after
            (on_storage-Keeps P
              (persist_row P S w.takes_page table_accounts bytes MutationKind.delete none))
            k)

  changed-IsBooked :
      (w : World) (a : Uuid) (old acct : Account) (after : Call (Unit {0})) (s : LedgerStore)
      → lookup a s.accounts ≡ some old
      → acct.account_type ≡ old.account_type
      → acct.id ≡ old.id
      → Keeps (IsBooked P) after
      → IsBooked P s
      → IsBooked P (rewritten w acct after (put_account a acct s)).1
  unfolding Keeps
  changed-IsBooked w a old acct after s o t id k b =
      rewritten-Keeps w acct after k (put_account a acct s) (
        put_account-IsBooked P a acct s (KeepTypes-update a old acct s.accounts o t)
          (id ∙ AreIndexed-lookup a old s.accounts o (indexed P s b)) b)

  pub close_account-IsBooked :
      (w : World) (a : Uuid) (s : LedgerStore)
      → IsBooked P s
      → IsBooked P (close_account P S B w a s).1
  unfolding close_account account_or_missing
  close_account-IsBooked w a s b = elim (Option-cases (lookup a s.accounts)) [
    | inl n ↦ rw n b
    | inr (old, o) ↦
        let acct = record old { status = AccountStatus.closed } in
        rw o (
          changed-IsBooked w a old acct (modify (index_account w acct)) s o refl refl
            (index_account-Keeps P w acct) b)
  ]

  pub set_legal_hold-IsBooked :
      (w : World) (a : Uuid) (hold : Bool) (s : LedgerStore)
      → IsBooked P s
      → IsBooked P (set_legal_hold P S B w a hold s).1
  unfolding set_legal_hold account_or_missing
  set_legal_hold-IsBooked w a hold s b = elim (Option-cases (lookup a s.accounts)) [
    | inl n ↦ rw n b
    | inr (old, o) ↦
        let acct = record old { legal_hold = hold } in
        rw o (
          changed-IsBooked w a old acct
            (modify (λ (s : LedgerStore). record s {
              legal_hold_accounts = set_hold hold a s.legal_hold_accounts;
            }))
            s o refl refl (hold_list P hold a) b)
  ]

  -- A durable write, and then a change of the store.
  stored-IsBooked :
      {A V : Type 0} (v : V) (f : LedgerStore → LedgerStore) (s : LedgerStore)
      (x : Result LedgerError A × Storage)
      → ((t : LedgerStore) → IsBooked P t → t.accounts ≡ s.accounts → IsBooked P (f t))
      → IsBooked P s
      → IsBooked P
          (bind_from {E = LedgerError}
            (λ _ (t : LedgerStore). (ok v, f t))
            (zoom_result (λ e. e) (λ d s. record s { storage = d }) s x)).1
  unfolding IsBooked
  stored-IsBooked v f s (ok a, d) k b = k (record s { storage = d }) b refl
  stored-IsBooked v f s (err e, d) k b = b

  applied-IsBooked :
      (w : World) (acct : Account) (t : LedgerStore)
      → lookup acct.id t.accounts ≡ none
      → IsBooked P t
      → IsBooked P (apply_account acct (index_account w acct t))
  unfolding IsBooked apply_account index_account
  applied-IsBooked w acct t free b = rw (entries-upsert_account P w.upserts acct t.entry_db) (
      AreBooks-keep P t.accounts (insert acct.id acct t.accounts) _ _ _ _
        (KeepTypes-new acct.id acct t.accounts free)
        (AreIndexed-insert acct.id acct t.accounts refl b.indexed) b)

  pub create_account-IsBooked :
      (w : World) (acct : Account) (s : LedgerStore)
      → lookup acct.id s.accounts ≡ none
      → IsBooked P s
      → IsBooked P (create_account P S B w acct s).1
  unfolding create_account
  create_account-IsBooked w acct s free b = elim (Result-cases (encode B.account acct)) [
    | inr (x, e) ↦ rw e b
    | inl (bytes, e) ↦ rw e (
        stored-IsBooked acct.id (λ t. apply_account acct (index_account w acct t)) s
          (persist_row P S w.takes_page table_accounts bytes MutationKind.insert none s.storage)
          (λ t h same. applied-IsBooked w acct t (rw same free) h) b)
  ]

  pub apply_settlement_event-IsBooked :
      (w : World) (a : Uuid) (status : EntryStatus) (notes : Option Bytes) (s : LedgerStore)
      → IsBooked P s
      → IsBooked P (apply_settlement_event P S B w a status notes s).1
  unfolding apply_settlement_event
  apply_settlement_event-IsBooked w a status notes s b =
      elim (Option-cases (last_with_id a none (stream_all w.reads s.entry_db))) [
        | inl n ↦ rw n b
        | inr (row, r) ↦ elim (Result-cases (check_holds s.legal_hold_accounts row.lines)) [
          | inr (x, h) ↦ rw r (rw h b)
          | inl (u, h) ↦
              elim (Result-cases (encode B.settlement (settlement_event w a status notes))) [
                | inr (x, e) ↦ rw r (rw h (rw e b))
                | inl (bytes, e) ↦ rw r (
                    rw h (
                      rw e (
                        stored-IsBooked tt (settled a status) s
                          (persist_row P S w.takes_page table_settlement_events bytes
                            MutationKind.insert none s.storage)
                          (λ t h same. settled-IsBooked P a status t h) b)))
              ]
        ]
      ]

  pub reconcile_and_record-IsBooked :
      (w : World) (s : LedgerStore) → IsBooked P s → IsBooked P (reconcile_and_record P S B w s).1
  unfolding reconcile_and_record
  reconcile_and_record-IsBooked w s b =
      let ds = reconcile P.uuid_string w.reads s in
      let r = reconciliation_record w s ds in
      elim (Result-cases (encode B.reconciliation r)) [
        | inr (x, e) ↦ rw e b
        | inl (bytes, e) ↦ rw e (
            stored-IsBooked (ds, r) (λ t. t) s
              (persist_row P S w.takes_page table_reconciliation_events bytes MutationKind.insert
                none s.storage)
              (λ t h same. h) b)
      ]
