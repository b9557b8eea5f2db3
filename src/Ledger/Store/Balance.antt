-- ===== src/Ledger/Store/Balance.antt =====
-- crates/vledger-ledger/src/store.rs: `update_balance_cache`, and the bookkeeping it stands for.
pub mod Rules
use vector_ledger.Common.{
  ◌≡◌, sym, ap, ◌∙◌, List, [], ◌∷◌, Bool, true, false, Option, none, some, ◌==◌, if◌then◌else◌,
  arith,
}
use vector_ledger.Common.Dict.{Dict, lookup, add_at, value_at, value_at-add_at}
use vector_ledger.Common.Int.{ℤ, pos, ◌+ℤ◌, neg, +ℤ_zero, +ℤ_assoc}
use vector_ledger.Ledger.Account.{Uuid, Account, is_debit_normal}
use vector_ledger.Ledger.Amount.{as_i128}
use vector_ledger.Ledger.Entry.{JournalEntry, JournalLine, DrCr}
use vector_ledger.Ledger.Error.{EntryStatus}

-- `matches!(status, EntryStatus::Posted | EntryStatus::Reversal)`.
abbrev pub affects_balance : EntryStatus → Bool
affects_balance EntryStatus.posted = true
affects_balance EntryStatus.reversal = true
affects_balance _ = false

abbrev pub signed_delta : Bool → DrCr → ℤ → ℤ
signed_delta true DrCr.debit x = x
signed_delta true DrCr.credit x = neg x
signed_delta false DrCr.credit x = x
signed_delta false DrCr.debit x = neg x

abbrev pub line_delta : Account → JournalLine → ℤ
line_delta acct l = signed_delta (is_debit_normal acct.account_type) l.dr_cr (as_i128 l.amount)

unfoldable add_line : Option Account → JournalLine → Dict ℤ → Dict ℤ
unfolding add_at
add_line none l cache = cache
add_line (some acct) l cache = add_at l.account_id (line_delta acct l) cache

unfoldable pub update_balance_cache : Dict Account → JournalLine → Dict ℤ → Dict ℤ
unfolding lookup add_line
update_balance_cache accounts l cache = add_line (lookup l.account_id accounts) l cache

unfoldable pub update_lines : Dict Account → List JournalLine → Dict ℤ → Dict ℤ
unfolding update_balance_cache
update_lines accounts [] cache = cache
update_lines accounts (l ∷ ls) cache =
    update_lines accounts ls (update_balance_cache accounts l cache)

-- The loop over the lines of an entry.
unfoldable pub update_entry : Dict Account → JournalEntry → Dict ℤ → Dict ℤ
unfolding update_lines
update_entry accounts e cache =
    if affects_balance e.status then update_lines accounts e.lines cache else cache

-- What a line adds to the balance of the account with an id, by the books.
unfoldable pub line_effect : Option Account → JournalLine → ℤ
line_effect none l = pos 0
line_effect (some acct) l = line_delta acct l

unfoldable pub lines_effect : Dict Account → Uuid → List JournalLine → ℤ
unfolding lookup line_effect
lines_effect accounts a [] = pos 0
lines_effect accounts a (l ∷ ls) =
    let rest = lines_effect accounts a ls in
    if a == l.account_id then line_effect (lookup a accounts) l +ℤ rest else rest

unfoldable pub entry_effect : Dict Account → Uuid → JournalEntry → ℤ
unfolding lines_effect
entry_effect accounts a e =
    if affects_balance e.status then lines_effect accounts a e.lines else pos 0

-- The balance of an account by its journal.
unfoldable pub journal_balance : Dict Account → Uuid → List JournalEntry → ℤ
unfolding entry_effect
journal_balance accounts a [] = pos 0
journal_balance accounts a (e ∷ es) = entry_effect accounts a e +ℤ journal_balance accounts a es

add_line-value :
    (o : Option Account) (a : Uuid) (l : JournalLine) (cache : Dict ℤ)
    → value_at a (add_line o l cache)
      ≡ (if a == l.account_id then value_at a cache +ℤ line_effect o l else value_at a cache)
unfolding add_line line_effect
add_line-value none a l cache = ground (arith, +ℤ_zero (value_at a cache))
add_line-value (some acct) a l cache = value_at-add_at l.account_id a (line_delta acct l) cache

update_balance_cache-value :
    (accounts : Dict Account) (a : Uuid) (l : JournalLine) (cache : Dict ℤ)
    → value_at a (update_balance_cache accounts l cache) ≡ (
        if a == l.account_id
        then value_at a cache +ℤ line_effect (lookup a accounts) l
        else value_at a cache)
unfolding update_balance_cache
update_balance_cache-value accounts a l cache =
    ground (arith, add_line-value (lookup l.account_id accounts) a l cache, same_account)
  where
    same_account :
        (a == l.account_id) ≡ true
        → line_effect (lookup l.account_id accounts) l ≡ line_effect (lookup a accounts) l
    same_account h =
        let key : l.account_id ≡ a = ground arith in ap (λ i. line_effect (lookup i accounts) l) key

-- The cache after the lines of an entry is the cache before with their effects.
pub update_lines-value :
    (accounts : Dict Account) (a : Uuid) (ls : List JournalLine) (cache : Dict ℤ)
    → value_at a (update_lines accounts ls cache) ≡ value_at a cache +ℤ lines_effect accounts a ls
unfolding update_lines lines_effect
update_lines-value accounts a [] cache = sym (+ℤ_zero (value_at a cache))
update_lines-value accounts a (l ∷ ls) cache =
    update_lines-value accounts a ls (update_balance_cache accounts l cache)
    ∙ ground (
      arith,
      update_balance_cache-value accounts a l cache,
      +ℤ_assoc (value_at a cache) (line_effect (lookup a accounts) l) (lines_effect accounts a ls),
    )

pub update_entry-value :
    (accounts : Dict Account) (a : Uuid) (e : JournalEntry) (cache : Dict ℤ)
    → value_at a (update_entry accounts e cache) ≡ value_at a cache +ℤ entry_effect accounts a e
unfolding update_entry entry_effect
update_entry-value accounts a e cache =
    ground (arith, update_lines-value accounts a e.lines cache, +ℤ_zero (value_at a cache))
