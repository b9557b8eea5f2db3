-- ===== src/Ledger/Store/Check.antt =====
-- crates/vledger-ledger/src/store.rs: the checks of `post_entry`, line by line and on the totals of
-- each account. The hash map of the totals is walked in the order of the first lines of the accounts;
-- another order can only change which of several errors is given.
use vector_ledger.Common.{
  ℕ, ◌-◌, ◌*◌, ◌^◌, min, List, [], ◌∷◌, not, ◌&&◌, Option, none, some, is_some, Result, ok, ok_or,
  fail_if, ◌>>=◌, ◌>>◌,
}
use vector_ledger.Common.Bytes.{Bytes, bytes_eq}
use vector_ledger.Common.Dict.{Dict, lookup, add_at, value_at}
use vector_ledger.Common.Int.{ℤ, pos, ◌+ℤ◌, neg, ltb_ℤ}
use vector_ledger.Ledger.Account.{Uuid, Account, is_active, is_debit_normal}
use vector_ledger.Ledger.Amount.{as_i64, as_i128, abs_i64}
use vector_ledger.Ledger.Currency.{CurrencyRegistry, precision}
use vector_ledger.Ledger.Entry.{JournalLine, DrCr}
use vector_ledger.Ledger.Error.{LedgerError}

-- `saturating_pow` and `saturating_mul` of `i64` values that are not negative.
abbrev saturated : ℕ → ℕ
saturated n = min n (2 ^ 63 - 1)

abbrev pub max_minor_units : ℕ → ℕ
max_minor_units p = saturated (saturated (10 ^ (18 - p)) * saturated (10 ^ p))

unfoldable pub check_precision : Option ℕ → JournalLine → Result LedgerError (Unit {0})
check_precision none l = ok tt
check_precision (some p) l =
    fail_if (ltb_ℤ (pos (max_minor_units p)) (abs_i64 (as_i64 l.amount))) (
      LedgerError.precision_violation l.currency_code p (as_i64 l.amount) (pos (max_minor_units p)))

unfoldable pub check_account :
    CurrencyRegistry → Option Bytes → JournalLine → Account → Result LedgerError (Unit {0})
unfolding is_active bytes_eq precision check_precision
check_account registry approved_by l acct = do
  fail_if (not (is_active acct)) (LedgerError.account_closed l.account_id)
  fail_if acct.legal_hold (LedgerError.account_under_legal_hold l.account_id)
  fail_if (not (bytes_eq acct.currency_code l.currency_code))
      (LedgerError.currency_mismatch acct.currency_code l.currency_code)
  check_precision (precision l.currency_code registry) l
  fail_if (acct.require_four_eyes && not (is_some approved_by)) LedgerError.four_eyes_required

unfoldable pub check_line :
    CurrencyRegistry → Dict Account → Option Bytes → JournalLine → Result LedgerError (Unit {0})
unfolding lookup check_account
check_line registry accounts approved_by l = do
  acct ← ok_or (lookup l.account_id accounts) (LedgerError.account_not_found l.account_id)
  check_account registry approved_by l acct

unfoldable pub check_lines :
    CurrencyRegistry
    → Dict Account
    → Option Bytes
    → List JournalLine
    → Result LedgerError (Unit {0})
unfolding check_line
check_lines registry accounts approved_by [] = ok tt
check_lines registry accounts approved_by (l ∷ ls) = do
  check_line registry accounts approved_by l
  check_lines registry accounts approved_by ls

abbrev pub debit_delta : DrCr → ℤ → ℤ
debit_delta DrCr.debit x = x
debit_delta DrCr.credit x = neg x

-- Debits less credits, for each account.
unfoldable pub net_debit_delta : List JournalLine → Dict ℤ → Dict ℤ
unfolding add_at
net_debit_delta [] d = d
net_debit_delta (l ∷ ls) d =
    net_debit_delta ls (add_at l.account_id (debit_delta l.dr_cr (as_i128 l.amount)) d)

abbrev add_debit : DrCr → ℕ → ℤ → Dict ℤ → Dict ℤ
unfolding add_at
add_debit DrCr.debit a x d = add_at a x d
add_debit DrCr.credit a x d = d

unfoldable pub total_debit : List JournalLine → Dict ℤ → Dict ℤ
unfolding add_debit
total_debit [] d = d
total_debit (l ∷ ls) d = total_debit ls (add_debit l.dr_cr l.account_id (as_i128 l.amount) d)

unfoldable pub check_exposure : Uuid → Option ℤ → ℤ → Result LedgerError (Unit {0})
check_exposure a none debits = ok tt
check_exposure a (some limit) debits =
    fail_if (ltb_ℤ limit debits) (LedgerError.exposure_limit_exceeded a limit debits)

unfoldable pub check_funds : Uuid → Account → ℤ → ℤ → Result LedgerError (Unit {0})
check_funds a acct delta current =
    fail_if
      (acct.require_non_negative_balance
        && (is_debit_normal acct.account_type
            && (ltb_ℤ delta (pos 0) && ltb_ℤ (current +ℤ delta) (pos 0))))
      (LedgerError.insufficient_funds a current (neg delta))

-- The body of the loop over the accounts of the entry.
unfoldable pub check_total :
    Dict Account → Dict ℤ → Dict ℤ → Uuid → ℤ → Result LedgerError (Unit {0})
unfolding lookup value_at check_exposure check_funds
check_total accounts cache debits a delta = do
  acct ← ok_or (lookup a accounts) (LedgerError.account_not_found a)
  check_exposure a acct.exposure_limit (value_at a debits)
  check_funds a acct delta (value_at a cache)

unfoldable pub check_totals_of :
    Dict Account → Dict ℤ → Dict ℤ → Dict ℤ → Result LedgerError (Unit {0})
unfolding check_total
check_totals_of accounts cache debits [] = ok tt
check_totals_of accounts cache debits ((a, delta) ∷ d) = do
  check_total accounts cache debits a delta
  check_totals_of accounts cache debits d

unfoldable pub check_totals :
    Dict Account → Dict ℤ → List JournalLine → Result LedgerError (Unit {0})
unfolding check_totals_of net_debit_delta total_debit
check_totals accounts cache ls =
    check_totals_of accounts cache (total_debit ls []) (net_debit_delta ls [])

-- The checks of an import: existence, status and currency.
unfoldable pub check_import_account : JournalLine → Account → Result LedgerError (Unit {0})
unfolding is_active bytes_eq
check_import_account l acct = do
  fail_if (not (is_active acct)) (LedgerError.account_closed l.account_id)
  fail_if (not (bytes_eq acct.currency_code l.currency_code))
      (LedgerError.currency_mismatch acct.currency_code l.currency_code)

unfoldable pub check_import : Dict Account → List JournalLine → Result LedgerError (Unit {0})
unfolding lookup check_import_account
check_import accounts [] = ok tt
check_import accounts (l ∷ ls) = do
  acct ← ok_or (lookup l.account_id accounts) (LedgerError.account_not_found l.account_id)
  check_import_account l acct
  check_import accounts ls
