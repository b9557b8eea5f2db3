-- ===== src/Ledger/Store/Balance/Rules.antt =====
-- The bookkeeping rules, said without the code of `update_balance_cache` (store.rs): an asset or an
-- expense grows by its debits less its credits, and every other account by its credits less its
-- debits. `Suspense` is among the others here, as the store counts it.
use vector_ledger.Common.{
  arith, ◌≡◌, refl, List, [], ◌∷◌, Bool, true, false, Option, none, some, ◌==◌, if◌then◌else◌,
}
use vector_ledger.Common.Dict.{Dict, lookup}
use vector_ledger.Common.Int.{ℤ, pos, ◌+ℤ◌, ◌-ℤ◌, int_laws}
use vector_ledger.Ledger.Account.{Uuid, Account, AccountType, is_debit_normal}
use vector_ledger.Ledger.Entry.{JournalEntry, JournalLine, DrCr}
use vector_ledger.Ledger.Error.{EntryStatus}
use vector_ledger.Ledger.Store.Balance.{
  signed_delta, line_effect, lines_effect, entry_effect, journal_balance, affects_balance,
}

abbrev pub on_side : DrCr → DrCr → ℤ → ℤ
on_side DrCr.debit DrCr.debit x = x
on_side DrCr.credit DrCr.credit x = x
on_side _ _ x = pos 0

-- The sum of the amounts on one side of an account.
abbrev pub turnover : DrCr → Uuid → List JournalLine → ℤ
turnover side a [] = pos 0
turnover side a (l ∷ ls) =
    let rest = turnover side a ls in
    if a == l.account_id then on_side side l.dr_cr l.amount.minor_units +ℤ rest else rest

-- What debits and credits add to an account.
abbrev pub growth : AccountType → ℤ → ℤ → ℤ
growth AccountType.asset debits credits = debits -ℤ credits
growth AccountType.expense debits credits = debits -ℤ credits
growth AccountType.liability debits credits = credits -ℤ debits
growth AccountType.equity debits credits = credits -ℤ debits
growth AccountType.income debits credits = credits -ℤ debits
growth AccountType.contra debits credits = credits -ℤ debits
growth AccountType.suspense debits credits = credits -ℤ debits

abbrev pub growth_of : Option Account → ℤ → ℤ → ℤ
growth_of none debits credits = pos 0
growth_of (some acct) debits credits = growth acct.account_type debits credits

-- The entries that count: those that are posted, and the reversals.
abbrev pub counts : EntryStatus → Bool
counts EntryStatus.posted = true
counts EntryStatus.reversal = true
counts EntryStatus.reversed = false
counts EntryStatus.pending_approval = false
counts EntryStatus.rejected = false
counts EntryStatus.pending = false
counts EntryStatus.settled = false
counts EntryStatus.failed = false

-- What an entry does to an account.
abbrev pub entry_growth : Dict Account → Uuid → JournalEntry → ℤ
unfolding lookup
entry_growth accounts a e =
    if counts e.status
    then growth_of (lookup a accounts) (turnover DrCr.debit a e.lines)
        (turnover DrCr.credit a e.lines)
    else pos 0

abbrev pub ledger_balance : Dict Account → Uuid → List JournalEntry → ℤ
unfolding lookup
ledger_balance accounts a [] = pos 0
ledger_balance accounts a (e ∷ es) = entry_growth accounts a e +ℤ ledger_balance accounts a es

step :
    (t : AccountType) (side : DrCr) (x d c : ℤ)
    → signed_delta (is_debit_normal t) side x +ℤ growth t d c
      ≡ growth t (on_side DrCr.debit side x +ℤ d) (on_side DrCr.credit side x +ℤ c)
step AccountType.asset DrCr.debit x d c = omega int_laws
step AccountType.asset DrCr.credit x d c = omega int_laws
step AccountType.expense DrCr.debit x d c = omega int_laws
step AccountType.expense DrCr.credit x d c = omega int_laws
step AccountType.liability DrCr.debit x d c = omega int_laws
step AccountType.liability DrCr.credit x d c = omega int_laws
step AccountType.equity DrCr.debit x d c = omega int_laws
step AccountType.equity DrCr.credit x d c = omega int_laws
step AccountType.income DrCr.debit x d c = omega int_laws
step AccountType.income DrCr.credit x d c = omega int_laws
step AccountType.contra DrCr.debit x d c = omega int_laws
step AccountType.contra DrCr.credit x d c = omega int_laws
step AccountType.suspense DrCr.debit x d c = omega int_laws
step AccountType.suspense DrCr.credit x d c = omega int_laws

nothing : (t : AccountType) → pos 0 ≡ growth t (pos 0) (pos 0)
nothing AccountType.asset = omega int_laws
nothing AccountType.expense = omega int_laws
nothing AccountType.liability = omega int_laws
nothing AccountType.equity = omega int_laws
nothing AccountType.income = omega int_laws
nothing AccountType.contra = omega int_laws
nothing AccountType.suspense = omega int_laws

line_growth :
    (o : Option Account) (l : JournalLine) (d c : ℤ)
    → line_effect o l +ℤ growth_of o d c
      ≡ growth_of o
          (on_side DrCr.debit l.dr_cr l.amount.minor_units +ℤ d)
          (on_side DrCr.credit l.dr_cr l.amount.minor_units +ℤ c)
unfolding line_effect
line_growth none l d c = omega int_laws
line_growth (some acct) l d c = step acct.account_type l.dr_cr l.amount.minor_units d c

no_growth : (o : Option Account) → pos 0 ≡ growth_of o (pos 0) (pos 0)
no_growth none = refl
no_growth (some acct) = nothing acct.account_type

lines_growth :
    (accounts : Dict Account) (a : Uuid) (ls : List JournalLine)
    → lines_effect accounts a ls
      ≡ growth_of (lookup a accounts) (turnover DrCr.debit a ls) (turnover DrCr.credit a ls)
unfolding lines_effect
lines_growth accounts a [] = no_growth (lookup a accounts)
lines_growth accounts a (l ∷ ls) = ground (
  arith,
  lines_growth accounts a ls,
  line_growth (lookup a accounts) l (turnover DrCr.debit a ls) (turnover DrCr.credit a ls),
)

affects-counts : (s : EntryStatus) → affects_balance s ≡ counts s
affects-counts EntryStatus.posted = refl
affects-counts EntryStatus.reversal = refl
affects-counts EntryStatus.reversed = refl
affects-counts EntryStatus.pending_approval = refl
affects-counts EntryStatus.rejected = refl
affects-counts EntryStatus.pending = refl
affects-counts EntryStatus.settled = refl
affects-counts EntryStatus.failed = refl

pub entry_effect-growth :
    (accounts : Dict Account) (a : Uuid) (e : JournalEntry)
    → entry_effect accounts a e ≡ entry_growth accounts a e
unfolding entry_effect
entry_effect-growth accounts a e =
    rw (affects-counts e.status) (rw (lines_growth accounts a e.lines) refl)

pub journal_balance-ledger :
    (accounts : Dict Account) (a : Uuid) (es : List JournalEntry)
    → journal_balance accounts a es ≡ ledger_balance accounts a es
unfolding journal_balance
journal_balance-ledger accounts a [] = refl
journal_balance-ledger accounts a (e ∷ es) =
    rw (entry_effect-growth accounts a e, journal_balance-ledger accounts a es) refl
