-- ===== src/Ledger/Store/Books.antt =====
-- The books of the store (store.rs): its balances, its chain tip and its counter against the rows of
-- the index.
pub mod Rows
pub mod Kinds
pub mod Append
pub mod Entries
pub mod Reversals
pub mod Calls
pub mod Run
pub mod Reconciled
pub mod Sums
pub mod Equation
use vector_ledger.Common.{ℕ, ◌+◌, ◌<◌, ◌≡◌, List, [], ◌∷◌, ok, some, none, All, length}
use vector_ledger.Common.Dict.{Dict, lookup, value_at}
use vector_ledger.Common.Int.{ℤ, pos}
use vector_ledger.Crypto.Hash.{Platform, Hash, zero_hash}
use vector_ledger.Ledger.Account.{Uuid, Account}
use vector_ledger.Ledger.Entry.{JournalEntry, JournalLine}
use vector_ledger.Ledger.Entry.Validate.{net}
use vector_ledger.Ledger.Store.Balance.{journal_balance}
use vector_ledger.Ledger.Store.Chain.{verify_rows}
use vector_ledger.Ledger.Store.State.{LedgerStore}

abbrev pub Known : Dict Account → JournalLine → Type 0
Known accounts l = (acct : Account) × (lookup l.account_id accounts ≡ some acct)

abbrev pub AllKnown : Dict Account → List JournalEntry → Type 0
AllKnown accounts es = All (λ (e : JournalEntry). All (Known accounts) e.lines) es

abbrev pub AllBelow : ℕ → List JournalEntry → Type 0
AllBelow n es = All (λ (e : JournalEntry). e.sequence < n) es

-- Each account stands under its own id, once.
unfoldable pub AreIndexed : Dict Account → Type 0
unfolding lookup
AreIndexed [] = Unit
AreIndexed ((k, x) ∷ d) = (x.id ≡ k) × (lookup k d ≡ none) × AreIndexed d

-- The rows are below the counter and on accounts that exist, the cache is the balance by the rows,
-- the rows are a chain that ends in the tip, and each of them is balanced.
pub record AreBooks (P : Platform) (accounts : Dict Account) (cache : Dict ℤ)
    (rows : List JournalEntry) (next : ℕ) (tip : Hash) : Type 0 where
  pub positive : 0 < next
  pub below : AllBelow next rows
  pub known : AllKnown accounts rows
  pub balances : (a : Uuid) → value_at a cache ≡ journal_balance accounts a rows
  pub indexed : AreIndexed accounts
  pub even : All (λ (e : JournalEntry). net e.lines ≡ pos 0) rows
  pub chain : verify_rows P zero_hash 0 rows ≡ ok (length rows, tip)

unfoldable pub IsBooked : Platform → LedgerStore → Type 0
IsBooked P s =
    AreBooks P s.accounts s.balance_cache s.entry_db.entries s.next_sequence s.last_chain_hash
