-- ===== src/Ledger/Store/Post/Funds.antt =====
-- The checks on funds of `post_entry` (store.rs) keep balances from going below zero.
use vector_ledger.Common.{
  arith, ℕ, ◌≡◌, refl, sym, ◌∙◌, inl, inr, List, [], ◌∷◌, Option, some, Result, ok, true, ◌==◌,
  Bool-cases, then_ok, passed_if,
}
use vector_ledger.Common.Dict.{Dict, lookup, add_at, value_at, value_at-add_at}
use vector_ledger.Common.Int.{ℤ, pos, ◌+ℤ◌, ◌≤ℤ◌, +ℤ_parts, +ℤ_zero, +ℤ_assoc, zero_+ℤ}
use vector_ledger.Crypto.Hash.{Platform}
use vector_ledger.Crypto.Sign.{Ed25519}
use vector_ledger.Ledger.Account.{Uuid, Account, is_debit_normal}
use vector_ledger.Ledger.Amount.{as_i128}
use vector_ledger.Ledger.Entry.{JournalEntry, JournalLine, DrCr}
use vector_ledger.Ledger.Error.{LedgerError}
use vector_ledger.Ledger.Store.Balance.{signed_delta, line_effect, lines_effect, entry_effect}
use vector_ledger.Ledger.Store.Check.{
  debit_delta, net_debit_delta, check_funds, check_total, check_totals_of, check_totals,
  total_debit,
}
use vector_ledger.Ledger.Store.Post.{post_entry}
use vector_ledger.Ledger.Store.Post.Effect.{Written-balance}
use vector_ledger.Ledger.Store.Post.Outcome.{Posted, Written, post_entry-Posted}
use vector_ledger.Ledger.Store.Records.{Bincode}
use vector_ledger.Ledger.Store.State.{LedgerStore, World, balance}

-- An account that may not go below zero: a debit-normal one with the constraint.
abbrev pub IsGuarded : Uuid → LedgerStore → Type 0
IsGuarded a s =
    (acct : Account) × (lookup a s.accounts ≡ some acct)
    × (is_debit_normal acct.account_type ≡ true)
    × (acct.require_non_negative_balance ≡ true)

signed_debit : (c : DrCr) (x : ℤ) → signed_delta true c x ≡ debit_delta c x
signed_debit DrCr.debit x = refl
signed_debit DrCr.credit x = refl

line_effect-debit :
    (o : Option Account) (acct : Account) (l : JournalLine)
    → o ≡ some acct
    → is_debit_normal acct.account_type ≡ true
    → line_effect o l ≡ debit_delta l.dr_cr (as_i128 l.amount)
unfolding line_effect
line_effect-debit o acct l h n = rw h (rw n (signed_debit l.dr_cr (as_i128 l.amount)))

net_debit_delta-value :
    (accounts : Dict Account) (a : Uuid) (acct : Account) (ls : List JournalLine) (d : Dict ℤ)
    → lookup a accounts ≡ some acct
    → is_debit_normal acct.account_type ≡ true
    → value_at a (net_debit_delta ls d) ≡ value_at a d +ℤ lines_effect accounts a ls
unfolding net_debit_delta lines_effect
net_debit_delta-value accounts a acct [] d h n = sym (+ℤ_zero (value_at a d))
net_debit_delta-value accounts a acct (l ∷ ls) d h n =
    let x = debit_delta l.dr_cr (as_i128 l.amount) in
    net_debit_delta-value accounts a acct ls (add_at l.account_id x d) h n
    ∙ ground (
      arith,
      value_at-add_at l.account_id a x d,
      line_effect-debit (lookup a accounts) acct l h n,
      +ℤ_assoc (value_at a d) x (lines_effect accounts a ls),
    )

check_funds-passed :
    (a : Uuid) (acct : Account) (x current : ℤ)
    → is_debit_normal acct.account_type ≡ true
    → acct.require_non_negative_balance ≡ true
    → check_funds a acct x current ≡ ok tt
    → pos 0 ≤ℤ current
    → pos 0 ≤ℤ current +ℤ x
unfolding check_funds
check_funds-passed a acct x current n g c b =
    let safe = passed_if _ _ c in ground (arith, +ℤ_parts current x)

check_total-passed :
    (accounts : Dict Account) (cache debits : Dict ℤ) (a : Uuid) (x : ℤ) (acct : Account)
    → lookup a accounts ≡ some acct
    → is_debit_normal acct.account_type ≡ true
    → acct.require_non_negative_balance ≡ true
    → check_total accounts cache debits a x ≡ ok tt
    → pos 0 ≤ℤ value_at a cache
    → pos 0 ≤ℤ value_at a cache +ℤ x
unfolding check_total
check_total-passed accounts cache debits a x acct h n g c b =
    check_funds-passed a acct x (value_at a cache) n g (then_ok _ _ (rw h at c)).1 b

check_totals_of-passed :
    (accounts : Dict Account) (cache debits d : Dict ℤ) (a : Uuid) (acct : Account)
    → lookup a accounts ≡ some acct
    → is_debit_normal acct.account_type ≡ true
    → acct.require_non_negative_balance ≡ true
    → check_totals_of accounts cache debits d ≡ ok tt
    → pos 0 ≤ℤ value_at a cache
    → pos 0 ≤ℤ value_at a cache +ℤ value_at a d
unfolding check_totals_of value_at lookup
check_totals_of-passed accounts cache debits [] a acct h n g c b =
    ground (arith, +ℤ_zero (value_at a cache))
check_totals_of-passed accounts cache debits ((k, x) ∷ d) a acct h n g c b =
    let both =
      then_ok (check_total accounts cache debits k x) (check_totals_of accounts cache debits d) c in
    elim (Bool-cases (a == k)) [
      | inl same ↦
          let key : k ≡ a = ground arith in
          rw same (check_total-passed accounts cache debits a x acct h n g (rw key at both.0) b)
      | inr other ↦ rw other (check_totals_of-passed accounts cache debits d a acct h n g both.1 b)
    ]

module _ (P : Platform) where
  guarded-Posted :
      (w : World) (e : JournalEntry) (s : LedgerStore) (a : Uuid)
      (x : Result LedgerError ℕ × LedgerStore)
      → Posted P w e s x
      → IsGuarded a s
      → pos 0 ≤ℤ balance a s
      → pos 0 ≤ℤ balance a x.1
  unfolding balance check_totals entry_effect value_at lookup
  guarded-Posted w e s a _ (Posted.refused z) g b = b
  guarded-Posted w e s a _ (Posted.known m v k) g b = b
  guarded-Posted w e s a _ (Posted.passed _ v k h c (Written.lost z d)) g b = b
  guarded-Posted w e s a _ (Posted.passed _ v k h c (Written.written bytes d)) (acct, l, n, g) b =
      let debits = total_debit e.lines [] in
      let after =
        check_totals_of-passed s.accounts s.balance_cache debits (net_debit_delta e.lines []) a acct
          l n g c b in
      let books = net_debit_delta-value s.accounts a acct e.lines [] l n in
      let sum = (Written-balance P w e s _ _ a _ (Written.written bytes d) refl).1 in
      ground (
        arith,
        after,
        books,
        sum,
        +ℤ_zero (balance a s),
        zero_+ℤ (lines_effect s.accounts a e.lines),
      )

module _ (P : Platform) (S : Ed25519) (B : Bincode) where
  -- Whatever is posted, and whether or not the call fails, the balance of an asset or expense account
  -- with the constraint on negative balances does not go from zero or above to below zero.
  pub post_entry-guarded :
      (w : World) (e : JournalEntry) (s : LedgerStore) (a : Uuid)
      → IsGuarded a s
      → pos 0 ≤ℤ balance a s
      → pos 0 ≤ℤ balance a (post_entry P S B w e s).1
  post_entry-guarded w e s a g b = guarded-Posted P w e s a _ (post_entry-Posted P S B w e s) g b
