-- ===== src/Ledger/Store/Tests.antt =====
-- Tests of `post_entry`, and its theorems at a concrete store.
use vector_ledger.Ledger.Account.{DateTime}
use vector_ledger.Ledger.Store.Balance.Rules.{entry_growth}
use vector_ledger.Common.{
  ℕ, ◌+◌, ◌^◌, ◌%◌, ◌≡◌, ◌⊎◌, refl, arith, [], ◌∷◌, none, some, true, false, Fault, ok, err,
}
use vector_ledger.Common.Bytes.{codes, to_uppercase}
use vector_ledger.Common.Dict.{lookup}
use vector_ledger.Common.Int.{pos, neg, ◌+ℤ◌, ◌≤ℤ◌}
use vector_ledger.Crypto.Tests.{toy}
use vector_ledger.Ledger.Account.{Uuid, Account, AccountType}
use vector_ledger.Ledger.Account
use vector_ledger.Ledger.Currency.{get}
use vector_ledger.Ledger.Entry.Tests.{transfer}
use vector_ledger.Ledger.Entry.Validate.{totals}
use vector_ledger.Ledger.Error.{LedgerError}
use vector_ledger.Ledger.Store.Post.{known_key, post_entry}
use vector_ledger.Ledger.Store.Post.Effect.{post_entry-balance, post_entry-error}
use vector_ledger.Ledger.Store.Post.Funds.{IsGuarded, post_entry-guarded}
use vector_ledger.Ledger.Store.Records.{Bincode, Codec}
use vector_ledger.Ledger.Store.State.{LedgerStore, World, balance, empty_store}
use vector_ledger.Ledger.Store.Storage.{Storage}
use vector_ledger.Transaction.Manager.{get_active, put_active, drop_active}
use vector_ledger.Transaction.Tests.{fresh}
use vector_ledger.Wal.Tests.{toy_signatures}

-- One row fits every value; nothing here reads it back.
abbrev pub toy_codec : {A : Type 0} → Codec A
toy_codec = record { encode_to_vec = λ a. some (1 ∷ []); decode_from_slice = λ b. none }

abbrev pub toy_bincode : Bincode
toy_bincode = record {
  account = toy_codec;
  entry = toy_codec;
  reversal = toy_codec;
  settlement = toy_codec;
  reconciliation = toy_codec;
}

-- A world in which everything works.
abbrev pub fine : World
fine = record {
  now = DateTime.stamped (pos 1000);
  fresh_id = λ n. 100 + n;
  takes_page = λ n. true;
  finds_key = true;
  finds_sequence = true;
  finds_entry = true;
  insert = Fault.works;
  links = λ a. true;
  upserts = true;
  reads = none;
}

abbrev pub storage : Storage
storage = record {
  tx_manager = fresh 9;
  page_store = [];
  next_account_page = 0;
  next_entry_page = 0;
}

unfoldable pub account : Uuid → AccountType → Account
unfolding Account.new to_uppercase
account a t =
    Account.new a (DateTime.stamped (pos 900)) (codes "1000") (codes "Cash") t (codes "USD")
      (codes "main")

-- Account 1 is an asset with 600, account 2 an expense.
unfoldable pub bank : LedgerStore
unfolding empty_store account
bank = record (empty_store storage) {
  accounts = (1, account 1 AccountType.asset) ∷ (2, account 2 AccountType.expense) ∷ [];
  balance_cache = (1, pos 600) ∷ [];
}

unfoldable pub after_post : LedgerStore
unfolding bank post_entry
after_post = (post_entry toy toy_signatures toy_bincode fine transfer bank).1

posts : post_entry toy toy_signatures toy_bincode fine transfer bank ≡ (ok 1, after_post)
unfolding after_post bank post_entry totals ◌+ℤ◌ get neg get_active put_active drop_active
posts = refl

no_key : known_key fine transfer.idempotency_key bank ≡ none
unfolding known_key bank
no_key = refl

post_entry-balance_example :
    (◌≡◌ {A = ℕ} 1 bank.next_sequence)
    × (balance 1 after_post ≡ balance 1 bank +ℤ entry_growth bank.accounts 1 transfer)
post_entry-balance_example =
    post_entry-balance toy toy_signatures toy_bincode fine transfer bank after_post 1 1 no_key posts

-- The pages take nothing.
abbrev pub broken : World
broken = record fine { takes_page = λ n. false }

unfoldable after_error : LedgerStore
unfolding bank post_entry
after_error = (post_entry toy toy_signatures toy_bincode broken transfer bank).1

post_fails :
    post_entry toy toy_signatures toy_bincode broken transfer bank
    ≡ (err LedgerError.serialization, after_error)
unfolding after_error bank post_entry totals ◌+ℤ◌ get neg get_active put_active drop_active
post_fails = refl

post_entry-error_example :
    (after_error ≡ bank)
    ⊎ (after_error ≡ record bank {
      storage = after_error.storage;
      next_sequence = (bank.next_sequence + 1) % 2 ^ 64;
    })
post_entry-error_example =
    post_entry-error toy toy_signatures toy_bincode broken transfer bank after_error
      LedgerError.serialization post_fails

bank-IsGuarded : IsGuarded 1 bank
unfolding bank account lookup
bank-IsGuarded = (account 1 AccountType.asset, refl, refl, refl)

six_hundred : pos 0 ≤ℤ balance 1 bank
unfolding bank balance
six_hundred = omega arith

post_entry-guarded_example :
    pos 0 ≤ℤ balance 1 (post_entry toy toy_signatures toy_bincode fine transfer bank).1
post_entry-guarded_example =
    post_entry-guarded toy toy_signatures toy_bincode fine transfer bank 1 bank-IsGuarded
      six_hundred
