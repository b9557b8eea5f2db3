-- ===== src/Ledger/Store/RunTests.antt =====
-- The theorems on the books at a store that calls have made.
use vector_ledger.Ledger.Store.Balance.Rules.{ledger_balance}
use vector_ledger.Common.{
  some, ℕ, ◌^◌, ◌<◌, ◌≡◌, ◌≢◌, refl, arith, Bool-cases, ◌==◌, inl, inr, [], ◌∷◌, none, ok,
}
use vector_ledger.Common.Dict.{lookup}
use vector_ledger.Common.Int.{pos, neg, ◌+ℤ◌}
use vector_ledger.Crypto.Hash.{zero_hash}
use vector_ledger.Crypto.Tests.{toy}
use vector_ledger.Ledger.Account.{Account, AccountType}
use vector_ledger.Ledger.Currency.{get}
use vector_ledger.Ledger.Entry.Tests.{transfer}
use vector_ledger.Ledger.Entry.Validate.{totals}
use vector_ledger.Ledger.Store.Accounts.{create_account}
use vector_ledger.Ledger.Store.Books.Equation.{AllPlain, Run-equation}
use vector_ledger.Ledger.Store.Books.Reconciled.{NoSuspense, Run-reconcile}
use vector_ledger.Ledger.Store.Books.Run.{Step, Run, Run-balance, Run-verifies}
use vector_ledger.Ledger.Store.Chain.{verify_chain_integrity, verify_chain_range}
use vector_ledger.Ledger.Store.Chain.Range.{verify_chain_range-open_end}
use vector_ledger.Ledger.Store.Post.{post_entry}
use vector_ledger.Ledger.Store.Reconcile.{reconcile, check_financial_invariants}
use vector_ledger.Ledger.Store.State.{LedgerStore, balance, empty_store}
use vector_ledger.Transaction.Manager.{get_active, put_active, drop_active}
use vector_ledger.Wal.Tests.{toy_signatures}
use vector_ledger.Ledger.Store.Tests.{toy_bincode, fine, storage, account}

abbrev cash : Account
unfolding account
cash = account 1 AccountType.liability

abbrev rent : Account
unfolding account
rent = account 2 AccountType.expense

unfoldable with_cash : LedgerStore
unfolding empty_store create_account cash
with_cash = (create_account toy toy_signatures toy_bincode fine cash (empty_store storage)).1

unfoldable with_rent : LedgerStore
unfolding with_cash create_account rent
with_rent = (create_account toy toy_signatures toy_bincode fine rent with_cash).1

unfoldable paid : LedgerStore
unfolding with_rent post_entry
paid = (post_entry toy toy_signatures toy_bincode fine transfer with_rent).1

rent_is_new : lookup rent.id with_cash.accounts ≡ none
unfolding with_cash create_account cash rent empty_store lookup get_active put_active drop_active
rent_is_new = refl

few : with_rent.next_sequence < 2 ^ 63
unfolding with_rent with_cash create_account cash rent empty_store get_active put_active drop_active
few = omega arith

paid-Run : Run toy toy_signatures toy_bincode paid
unfolding paid with_rent with_cash
paid-Run =
    Run.then_call with_rent _
      (Run.then_call with_cash _
        (Run.then_call (empty_store storage) _ (Run.opened storage)
          (Step.creates fine cash (empty_store storage) refl))
        (Step.creates fine rent with_cash rent_is_new))
      (Step.posts fine transfer with_rent refl refl few refl)

Run-balance_example : balance 2 paid ≡ ledger_balance paid.accounts 2 paid.entry_db.entries
Run-balance_example = Run-balance toy toy_signatures toy_bincode paid 2 paid-Run

Run-verifies_example : verify_chain_integrity toy none paid ≡ ok tt
Run-verifies_example = Run-verifies toy toy_signatures toy_bincode paid paid-Run

-- Not a test of zeros: 500 stand on both accounts.
paid_balances : (balance 1 paid ≡ pos 500) × (balance 2 paid ≡ pos 500)
unfolding balance paid with_rent with_cash create_account cash rent empty_store post_entry totals
    ◌+ℤ◌ get neg get_active put_active drop_active
paid_balances = (refl, refl)

of_two :
    (Q : Account → Type 0) (a b : Account)
    → Q a
    → Q b
    → (k : ℕ) (x : Account) → lookup k ((1, a) ∷ (2, b) ∷ []) ≡ some x
    → Q x
unfolding lookup
of_two Q a b ha hb k x h = elim (Bool-cases (k == 1)) [
  | inl one ↦ let this : a ≡ x = ground (arith, rw one at h) in rw⁻¹ this ha
  | inr other ↦ elim (Bool-cases (k == 2)) [
    | inl two ↦ let this : b ≡ x = ground (arith, rw two at (rw other at h)) in rw⁻¹ this hb
    | inr none_left ↦ absurd (ground (arith, rw none_left at (rw other at h)))
  ]
]

paid_types : NoSuspense paid.accounts
unfolding paid totals ◌+ℤ◌ get_active put_active drop_active get
paid_types =
    of_two (λ x. x.account_type ≢ AccountType.suspense) cash rent (λ t. ground arith)
      (λ t. ground arith)

paid_plain : AllPlain paid.accounts
unfolding paid totals ◌+ℤ◌ get_active put_active drop_active get
paid_plain =
    of_two (λ x. (x.account_type ≢ AccountType.contra) × (x.account_type ≢ AccountType.suspense))
      cash rent (λ t. ground arith, λ t. ground arith) (λ t. ground arith, λ t. ground arith)

Run-equation_example : check_financial_invariants paid ≡ ok tt
Run-equation_example = Run-equation toy toy_signatures toy_bincode paid paid-Run paid_plain

Run-reconcile_example : reconcile toy.uuid_string none paid ≡ []
Run-reconcile_example = Run-reconcile toy toy_signatures toy_bincode paid paid-Run paid_types

verify_chain_range-open_end_example : verify_chain_range toy fine none none paid ≡ ok (0, zero_hash)
verify_chain_range-open_end_example =
    verify_chain_range-open_end toy fine none paid refl (omega arith)
