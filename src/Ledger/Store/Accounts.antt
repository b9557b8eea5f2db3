-- ===== src/Ledger/Store/Accounts.antt =====
-- crates/vledger-ledger/src/store.rs: accounts and legal holds. `close_account` and `set_legal_hold` change
-- the account in memory before the write, and an error does not undo it.
pub mod Holds
use vector_ledger.Common.{ℕ, Bool, true, false, Option, none, some, ok_or, if◌then◌else◌, List}
use vector_ledger.Common.Action.{◌>>=◌, ◌>>◌, pure, lift, modify, inspect}
use vector_ledger.Common.Bytes.{Bytes}
use vector_ledger.Common.Dict.{lookup, insert, member, set_insert, set_remove}
use vector_ledger.Crypto.Hash.{Platform}
use vector_ledger.Crypto.Sign.{Ed25519}
use vector_ledger.Ledger.Account.{Uuid, Account, AccountStatus}
use vector_ledger.Ledger.Currency.{Currency, register}
use vector_ledger.Ledger.Error.{LedgerError}
use vector_ledger.Ledger.Store.Database.{upsert_account}
use vector_ledger.Ledger.Store.Records.{Bincode, encode, table_accounts}
use vector_ledger.Ledger.Store.State.{LedgerStore, World, Call, on_storage}
use vector_ledger.Ledger.Store.Storage.{persist_row}
use vector_ledger.Wal.Record.{MutationKind}

unfoldable pub set_hold : Bool → Uuid → List Uuid → List Uuid
unfolding member set_remove
set_hold true a held = set_insert a held
set_hold false a held = set_remove a held

unfoldable pub apply_account : Account → LedgerStore → LedgerStore
unfolding set_hold insert
apply_account acct s = record s {
  legal_hold_accounts = set_hold acct.legal_hold acct.id s.legal_hold_accounts;
  accounts = insert acct.id acct s.accounts;
}

unfoldable pub get_account : Uuid → LedgerStore → Option Account
unfolding lookup
get_account a s = lookup a s.accounts

-- `accounts.get_mut(id)`, with its error.
unfoldable pub account_or_missing : Uuid → Call Account
unfolding lookup
account_or_missing a =
    inspect (λ (s : LedgerStore). ok_or (lookup a s.accounts) (LedgerError.account_not_found a))

-- The change through the reference that `get_mut` gives.
unfoldable pub put_account : Uuid → Account → LedgerStore → LedgerStore
unfolding insert
put_account a acct s = record s { accounts = insert a acct s.accounts }

unfoldable pub index_account : World → Account → LedgerStore → LedgerStore
unfolding upsert_account
index_account w acct s = record s { entry_db = upsert_account w.upserts acct s.entry_db }

unfoldable pub register_currency : Currency → LedgerStore → LedgerStore
unfolding register
register_currency c s = record s { currency_registry = register c s.currency_registry }

unfoldable pub is_under_legal_hold : Uuid → LedgerStore → Bool
unfolding member
is_under_legal_hold a s = member a s.legal_hold_accounts

module _ (P : Platform) (S : Ed25519) (B : Bincode) where
  abbrev pub persist_account : World → MutationKind → Bytes → Call (ℕ × ℕ)
  persist_account w kind bytes =
      on_storage (persist_row P S w.takes_page table_accounts bytes kind none)

  unfoldable pub create_account : World → Account → Call Uuid
  unfolding encode persist_row index_account apply_account
  create_account w acct = do
    bytes ← lift (encode B.account acct)
    persist_account w MutationKind.insert bytes
    modify (index_account w acct)
    modify (apply_account acct)
    pure acct.id

  unfoldable pub close_account : World → Uuid → Call (Unit {0})
  unfolding account_or_missing put_account encode persist_row index_account
  close_account w a = do
    old ← account_or_missing a
    let acct = record old { status = AccountStatus.closed }
    modify (put_account a acct)
    bytes ← lift (encode B.account acct)
    persist_account w MutationKind.delete bytes
    modify (index_account w acct)

  unfoldable pub set_legal_hold : World → Uuid → Bool → Call (Unit {0})
  unfolding account_or_missing put_account encode persist_row set_hold
  set_legal_hold w a hold = do
    old ← account_or_missing a
    let acct = record old { legal_hold = hold }
    modify (put_account a acct)
    bytes ← lift (encode B.account acct)
    persist_account w MutationKind.delete bytes
    modify (λ (s : LedgerStore). record s {
      legal_hold_accounts = set_hold hold a s.legal_hold_accounts;
    })

  unfoldable pub place_legal_hold : World → Uuid → Call (Unit {0})
  unfolding set_legal_hold
  place_legal_hold w a = set_legal_hold w a true

  unfoldable pub lift_legal_hold : World → Uuid → Call (Unit {0})
  unfolding set_legal_hold
  lift_legal_hold w a = set_legal_hold w a false
