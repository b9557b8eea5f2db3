-- ===== src/Ledger/Store/Books/Run.antt =====
-- The calls on a store (store.rs), in any order from an empty ledger, and the books after them.
use vector_ledger.Common.{◌^◌, ◌<◌, ◌≡◌, ◌∙◌, refl, Option, none, true, Bool, Fault, ok, arith}
use vector_ledger.Common.Bytes.{Bytes}
use vector_ledger.Common.Dict.{lookup, value_at}
use vector_ledger.Crypto.Hash.{Platform, zero_hash}
use vector_ledger.Crypto.Sign.{Ed25519}
use vector_ledger.Ledger.Account.{Uuid, Account}
use vector_ledger.Ledger.Currency.{Currency}
use vector_ledger.Ledger.Entry.{JournalEntry}
use vector_ledger.Ledger.Error.{EntryStatus}
use vector_ledger.Ledger.Store.Accounts.{
  register_currency, create_account, close_account, set_legal_hold,
}
use vector_ledger.Ledger.Store.Balance.{journal_balance}
use vector_ledger.Ledger.Store.Balance.Rules.{ledger_balance, journal_balance-ledger}
use vector_ledger.Ledger.Store.Books.{AreIndexed, IsBooked}
use vector_ledger.Ledger.Store.Books.Calls.{
  create_account-IsBooked, close_account-IsBooked, set_legal_hold-IsBooked,
  apply_settlement_event-IsBooked, reconcile_and_record-IsBooked,
}
use vector_ledger.Ledger.Store.Books.Entries.{post_entry-IsBooked}
use vector_ledger.Ledger.Store.Books.Reversals.{reverse_entry-IsBooked}
use vector_ledger.Ledger.Store.Chain.{verify_rows, verify_chain_integrity}
use vector_ledger.Ledger.Store.Database.{stream_all}
use vector_ledger.Ledger.Store.Post.{post_entry}
use vector_ledger.Ledger.Store.Reconcile.{reconcile_and_record}
use vector_ledger.Ledger.Store.Records.{Bincode}
use vector_ledger.Ledger.Store.Reverse.{reverse_entry}
use vector_ledger.Ledger.Store.Settlement.{apply_settlement_event}
use vector_ledger.Ledger.Store.State.{LedgerStore, World, balance, empty_store}
use vector_ledger.Ledger.Store.Storage.{Storage}

-- A call that the books survive. Four conditions narrow it: the index works where an entry is written;
-- the counter is then below 2^63; an entry comes with no content hash; and a new account has an id
-- that is not taken, which `create_account` itself does not check. Two calls are left out: the bulk
-- import, which moves the chain tip without a row of the index, and the opening of a store. The other
-- faults of the world, those of the log and the pages too, are free.
pub data Step (P : Platform) (S : Ed25519) (B : Bincode) : LedgerStore → LedgerStore → Type 0 where
  posts :
      (w : World) (e : JournalEntry) (s : LedgerStore)
      → w.insert ≡ Fault.works
      → w.finds_key ≡ true
      → s.next_sequence < 2 ^ 63
      → e.content_hash ≡ zero_hash
      → Step P S B s (post_entry P S B w e s).1
  reverses :
      (w : World) (a : Uuid) (description domain : Bytes) (s : LedgerStore)
      → w.insert ≡ Fault.works
      → s.next_sequence < 2 ^ 63
      → Step P S B s (reverse_entry P S B w a description domain s).1
  creates :
      (w : World) (acct : Account) (s : LedgerStore)
      → lookup acct.id s.accounts ≡ none
      → Step P S B s (create_account P S B w acct s).1
  closes : (w : World) (a : Uuid) (s : LedgerStore) → Step P S B s (close_account P S B w a s).1
  holds :
      (w : World) (a : Uuid) (hold : Bool) (s : LedgerStore)
      → Step P S B s (set_legal_hold P S B w a hold s).1
  settles :
      (w : World) (a : Uuid) (status : EntryStatus) (notes : Option Bytes) (s : LedgerStore)
      → Step P S B s (apply_settlement_event P S B w a status notes s).1
  reconciles : (w : World) (s : LedgerStore) → Step P S B s (reconcile_and_record P S B w s).1
  registers : (c : Currency) (s : LedgerStore) → Step P S B s (register_currency c s)

pub data Run (P : Platform) (S : Ed25519) (B : Bincode) : LedgerStore → Type 0 where
  opened : (d : Storage) → Run P S B (empty_store d)
  then_call : (s s' : LedgerStore) → Run P S B s → Step P S B s s' → Run P S B s'

module _ (P : Platform) (S : Ed25519) (B : Bincode) where
  empty_store-IsBooked : (d : Storage) → IsBooked P (empty_store d)
  unfolding IsBooked AreIndexed verify_rows journal_balance empty_store value_at
  empty_store-IsBooked d = record {
    positive = omega arith;
    below = tt;
    known = tt;
    balances = λ a. refl;
    indexed = tt;
    even = tt;
    chain = refl;
  }

  registered-IsBooked :
      (c : Currency) (s : LedgerStore) → IsBooked P s → IsBooked P (register_currency c s)
  unfolding IsBooked register_currency
  registered-IsBooked c s b = b

  Step-IsBooked : (s s' : LedgerStore) → Step P S B s s' → IsBooked P s → IsBooked P s'
  Step-IsBooked s _ (Step.posts w e _ i f n u) b = post_entry-IsBooked P S B w e s i f n u b
  Step-IsBooked s _ (Step.reverses w a description domain _ i n) b =
      reverse_entry-IsBooked P S B w a description domain s i n b
  Step-IsBooked s _ (Step.creates w acct _ free) b = create_account-IsBooked P S B w acct s free b
  Step-IsBooked s _ (Step.closes w a _) b = close_account-IsBooked P S B w a s b
  Step-IsBooked s _ (Step.holds w a hold _) b = set_legal_hold-IsBooked P S B w a hold s b
  Step-IsBooked s _ (Step.settles w a status notes _) b =
      apply_settlement_event-IsBooked P S B w a status notes s b
  Step-IsBooked s _ (Step.reconciles w _) b = reconcile_and_record-IsBooked P S B w s b
  Step-IsBooked s _ (Step.registers c _) b = registered-IsBooked c s b

  pub Run-IsBooked : (s : LedgerStore) → Run P S B s → IsBooked P s
  Run-IsBooked _ (Run.opened d) = empty_store-IsBooked d
  Run-IsBooked s (Run.then_call r _ h step) = Step-IsBooked r s step (Run-IsBooked r h)

  -- The running balances are those of the journal. Take any calls of `post_entry`, `reverse_entry`,
  -- `create_account`, `close_account`, `set_legal_hold`, `apply_settlement_event`,
  -- `reconcile_and_record` and `register_currency` on an empty ledger, with any faults of the log and
  -- the pages, that meet these conditions: an account is created under an id that no account has; an
  -- entry is posted with no content hash; in a call that writes an entry the index works, and the
  -- sequence counter is below 2^63. There is no bulk import and no restart among them. Then the
  -- cached balance of every account is what the entries of the index add up to: debits less credits
  -- for an asset or an expense, credits less debits for the other types.
  pub Run-balance :
      (s : LedgerStore) (a : Uuid)
      → Run P S B s
      → balance a s ≡ ledger_balance s.accounts a s.entry_db.entries
  unfolding balance IsBooked
  Run-balance s a r =
      (Run-IsBooked s r).balances a ∙ journal_balance-ledger s.accounts a s.entry_db.entries

  -- The chain holds: after any calls on an empty ledger that meet these conditions,
  -- `verify_chain_integrity` finds every row's hashes right and every row linked to the one before.
  -- The calls are postings, reversals, the creation and closing of accounts, legal holds, settlement
  -- events, reconciliations and new currencies, with any faults of the log and the pages; an account
  -- is created under an id that no account has; an entry is posted with no content hash; in a call
  -- that writes an entry the index works, and the sequence counter is below 2^63. There is no bulk
  -- import and no restart.
  pub Run-verifies : (s : LedgerStore) → Run P S B s → verify_chain_integrity P none s ≡ ok tt
  unfolding verify_chain_integrity IsBooked stream_all
  Run-verifies s r = rw ((Run-IsBooked s r).chain) refl
