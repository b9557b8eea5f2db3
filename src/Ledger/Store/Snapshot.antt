-- ===== src/Ledger/Store/Snapshot.antt =====
-- crates/vledger-ledger/src/store.rs: reading at a sequence number, by the rows of the index.
use vector_ledger.Common.{
  ℕ, ◌-◌, List, [], ◌∷◌, not, ◌||◌, Option, none, some, ltb, ◌==◌, if◌then◌else◌, Result, ok, err,
}
use vector_ledger.Common.Dict.{lookup}
use vector_ledger.Common.Int.{ℤ, pos, ◌+ℤ◌}
use vector_ledger.Ledger.Account.{Uuid, Account}
use vector_ledger.Ledger.Entry.{JournalEntry, JournalLine}
use vector_ledger.Ledger.Error.{LedgerError}
use vector_ledger.Ledger.Store.Balance.{affects_balance, line_delta}
use vector_ledger.Ledger.Store.Database.{entries_for_account, find_sequence, scan_range}
use vector_ledger.Ledger.Store.State.{LedgerStore, World}

-- `next_sequence - 1`, which stops at 0.
unfoldable pub current_snapshot : LedgerStore → ℕ
current_snapshot s = s.next_sequence - 1

unfoldable pub add_lines_of : Account → Uuid → List JournalLine → ℤ → ℤ
add_lines_of acct a [] acc = acc
add_lines_of acct a (l ∷ ls) acc =
    add_lines_of acct a ls (if l.account_id == a then acc +ℤ line_delta acct l else acc)

-- The loop over the rows that touch the account.
unfoldable pub add_entries_of : Account → Uuid → ℕ → List JournalEntry → ℤ → ℤ
unfolding add_lines_of
add_entries_of acct a snap [] acc = acc
add_entries_of acct a snap (e ∷ es) acc = add_entries_of acct a snap es (
    if ltb snap e.sequence || not (affects_balance e.status)
    then acc
    else add_lines_of acct a e.lines acc)

abbrev balance_of_account : Option Account → Uuid → ℕ → List JournalEntry → ℤ
unfolding add_entries_of
balance_of_account none a snap es = pos 0
balance_of_account (some acct) a snap es = add_entries_of acct a snap es (pos 0)

-- A failing query counts as no rows.
unfoldable pub balance_at_snapshot : World → Uuid → ℕ → LedgerStore → ℤ
unfolding lookup entries_for_account balance_of_account
balance_at_snapshot w a snap s =
    balance_of_account (lookup a s.accounts) a snap
      (if w.finds_entry then entries_for_account a s.entry_db else [])

abbrev or_nothing : Result LedgerError (List JournalEntry) → List JournalEntry
or_nothing (ok es) = es
or_nothing (err e) = []

unfoldable pub entries_at_snapshot : World → ℕ → LedgerStore → List JournalEntry
unfolding scan_range
entries_at_snapshot w snap s = or_nothing (scan_range w.finds_entry 1 snap s.entry_db)

unfoldable pub get_entry_by_sequence : World → ℕ → LedgerStore → Option JournalEntry
unfolding find_sequence
get_entry_by_sequence w n s = if w.finds_entry then find_sequence n s.entry_db.entries else none
