-- ===== src/Ledger/Store/Books/Equation.antt =====
-- The global equation of the ledger (store.rs) holds after any calls.
use vector_ledger.Common.{
  arith, ◌≡◌, ◌≢◌, refl, sym, ap, ◌∙◌, List, [], ◌∷◌, some, true, ◌==◌, Bool-cases, inl, inr, All,
  ok,
}
use vector_ledger.Common.Dict.{Dict, lookup}
use vector_ledger.Common.Int.{ℤ, pos, neg, ◌+ℤ◌, ==ℤ_iff, int_laws, eq→parts, neg-neg, zero_+ℤ}
use vector_ledger.Crypto.Hash.{Platform}
use vector_ledger.Crypto.Sign.{Ed25519}
use vector_ledger.Ledger.Account.{Uuid, Account, AccountType, is_debit_normal}
use vector_ledger.Ledger.Entry.{JournalEntry, JournalLine, DrCr, signed, signed_amount}
use vector_ledger.Ledger.Entry.Validate.{net}
use vector_ledger.Ledger.Store.Balance.{
  affects_balance, signed_delta, line_delta, line_effect, lines_effect, entry_effect,
  journal_balance,
}
use vector_ledger.Ledger.Store.Books.{Known, AllKnown, AreIndexed, IsBooked}
use vector_ledger.Ledger.Store.Books.Run.{Run, Run-IsBooked}
use vector_ledger.Ledger.Store.Books.Sums.{
  side, sum, only, sum-same, sum-add, sum-zero, sum-only, normal_sums-sum,
}
use vector_ledger.Ledger.Store.Reconcile.{normal_sums, check_financial_invariants}
use vector_ledger.Ledger.Store.Records.{Bincode}
use vector_ledger.Ledger.Store.State.{LedgerStore}

-- Accounts of the two types that the equation leaves out.
abbrev pub AllPlain : Dict Account → Type 0
AllPlain accounts =
    (k : Uuid) (x : Account)
    → lookup k accounts ≡ some x
    → (x.account_type ≢ AccountType.contra) × (x.account_type ≢ AccountType.suspense)

side-signed :
    (t : AccountType) (c : DrCr) (v : ℤ)
    → t ≢ AccountType.contra
    → t ≢ AccountType.suspense
    → side t (signed_delta (is_debit_normal t) c v) ≡ neg (signed c v)
side-signed AccountType.asset DrCr.debit v h h' = sym (neg-neg v)
side-signed AccountType.asset DrCr.credit v h h' = refl
side-signed AccountType.expense DrCr.debit v h h' = sym (neg-neg v)
side-signed AccountType.expense DrCr.credit v h h' = refl
side-signed AccountType.liability DrCr.debit v h h' = refl
side-signed AccountType.liability DrCr.credit v h h' = refl
side-signed AccountType.equity DrCr.debit v h h' = refl
side-signed AccountType.equity DrCr.credit v h h' = refl
side-signed AccountType.income DrCr.debit v h h' = refl
side-signed AccountType.income DrCr.credit v h h' = refl
side-signed AccountType.contra c v h h' = absurd (h refl)
side-signed AccountType.suspense c v h h' = absurd (h' refl)

-- A line counts on its account alone, as debits count.
line_effect-only :
    (accounts : Dict Account) (l : JournalLine) (x : Account)
    → lookup l.account_id accounts ≡ some x
    → AreIndexed accounts
    → AllPlain accounts
    → sum (only l.account_id (line_effect (some x) l)) accounts ≡ neg (signed_amount l)
unfolding line_effect signed_amount
line_effect-only accounts l x h i plain =
    let (p, p') = plain l.account_id x h in
    sum-only accounts l.account_id (line_delta x l) x h i
    ∙ side-signed x.account_type l.dr_cr l.amount.minor_units p p'

lines_effect-split :
    (accounts : Dict Account) (l : JournalLine) (ls : List JournalLine) (x : Account) (a : Uuid)
    → lookup l.account_id accounts ≡ some x
    → lines_effect accounts a (l ∷ ls)
      ≡ only l.account_id (line_effect (some x) l) a +ℤ lines_effect accounts a ls
unfolding lines_effect
lines_effect-split accounts l ls x a h =
    ground (arith, same_account, zero_+ℤ (lines_effect accounts a ls))
  where
    same_account :
        (a == l.account_id) ≡ true → line_effect (lookup a accounts) l ≡ line_effect (some x) l
    same_account q =
        let key : a ≡ l.account_id = ground arith in
        ap (λ i. line_effect (lookup i accounts) l) key ∙ ap (λ o. line_effect o l) h

neg-sum : (v w : ℤ) → neg v +ℤ neg w ≡ neg (v +ℤ w)
neg-sum v w = omega int_laws

no_lines-sum :
    (accounts : Dict Account) → sum (λ a. lines_effect accounts a []) accounts ≡ neg (pos 0)
unfolding lines_effect neg
no_lines-sum accounts = sum-zero accounts

lines_effect-sum :
    (accounts : Dict Account) (ls : List JournalLine)
    → All (Known accounts) ls
    → AreIndexed accounts
    → AllPlain accounts
    → sum (λ a. lines_effect accounts a ls) accounts ≡ neg (net ls)
lines_effect-sum accounts [] h i plain = no_lines-sum accounts
lines_effect-sum accounts (l ∷ ls) ((x, h), hs) i plain =
    sum-same _ _ accounts (λ a. lines_effect-split accounts l ls x a h)
    ∙ sum-add (only l.account_id (line_effect (some x) l)) (λ a. lines_effect accounts a ls)
        accounts
    ∙ ap (λ v. v +ℤ sum (λ a. lines_effect accounts a ls) accounts)
        (line_effect-only accounts l x h i plain)
    ∙ ap (λ v. neg (signed_amount l) +ℤ v) (lines_effect-sum accounts ls hs i plain)
    ∙ neg-sum (signed_amount l) (net ls)

entry_effect-sum :
    (accounts : Dict Account) (e : JournalEntry)
    → All (Known accounts) e.lines
    → net e.lines ≡ pos 0
    → AreIndexed accounts
    → AllPlain accounts
    → sum (λ a. entry_effect accounts a e) accounts ≡ pos 0
unfolding entry_effect
entry_effect-sum accounts e known even i plain = elim (Bool-cases (affects_balance e.status)) [
  | inl counts ↦
      sum-same _ _ accounts (λ a. ground arith)
      ∙ lines_effect-sum accounts e.lines known i plain
      ∙ negated even
  | inr skipped ↦ sum-same _ (λ a. pos 0) accounts (λ a. ground arith) ∙ sum-zero accounts
]
  where
    negated : net e.lines ≡ pos 0 → neg (net e.lines) ≡ pos 0
    negated h = omega (int_laws, eq→parts h)

journal_balance-sum :
    (accounts : Dict Account) (es : List JournalEntry)
    → AllKnown accounts es
    → All (λ (e : JournalEntry). net e.lines ≡ pos 0) es
    → AreIndexed accounts
    → AllPlain accounts
    → sum (λ a. journal_balance accounts a es) accounts ≡ pos 0
unfolding journal_balance
journal_balance-sum accounts [] known even i plain = sum-zero accounts
journal_balance-sum accounts (e ∷ es) known even i plain =
    sum-add (λ a. entry_effect accounts a e) (λ a. journal_balance accounts a es) accounts
    ∙ ap (λ v. v +ℤ sum (λ a. journal_balance accounts a es) accounts)
        (entry_effect-sum accounts e known.0 even.0 i plain)
    ∙ zero_+ℤ _
    ∙ journal_balance-sum accounts es known.1 even.1 i plain

module _ (P : Platform) (S : Ed25519) (B : Bincode) where
  -- The global equation holds: if no account is a contra or a suspense account,
  -- `check_financial_invariants` finds the balances of assets and expenses equal in sum to those of
  -- liabilities, equity and income. This is so after any calls on an empty ledger that meet these
  -- conditions, with any faults of the log and the pages: an account is created under an id that no
  -- account has; an entry is posted with no content hash; in a call that writes an entry the index
  -- works, and the sequence counter is below 2^63; there is no bulk import and no restart.
  pub Run-equation :
      (s : LedgerStore) → Run P S B s → AllPlain s.accounts → check_financial_invariants s ≡ ok tt
  unfolding check_financial_invariants IsBooked
  Run-equation s r plain =
      let b = Run-IsBooked P S B s r in
      let sums = normal_sums s.accounts s.balance_cache (pos 0, pos 0) in
      let total =
        sum-same _ _ s.accounts b.balances
        ∙ journal_balance-sum s.accounts s.entry_db.entries b.known b.even b.indexed plain in
      let apart = normal_sums-sum s.accounts s.balance_cache (pos 0) (pos 0) in
      let equal : sums.0 ≡ sums.1 = omega (int_laws, eq→parts apart, eq→parts total) in
      rw ((==ℤ_iff sums.0 sums.1).1 equal) refl
