-- ===== src/Ledger/Store/Books/Reconciled.antt =====
-- Reconciliation (store.rs) finds nothing in a store that the calls have made.
use vector_ledger.Common.{
  arith, ℕ, ◌≡◌, ◌≢◌, refl, sym, ap, ◌∙◌, List, [], ◌∷◌, Option, none, some, true, ◌==◌,
  if◌then◌else◌,
}
use vector_ledger.Common.Bytes.{Bytes}
use vector_ledger.Common.Dict.{Dict, lookup, value_at, value_at-add_at}
use vector_ledger.Common.Int.{ℤ, ◌+ℤ◌, ==ℤ_iff, neg-neg, +ℤ_zero, zero_+ℤ, +ℤ_assoc}
use vector_ledger.Crypto.Hash.{Platform}
use vector_ledger.Crypto.Sign.{Ed25519}
use vector_ledger.Ledger.Account.{Uuid, Account, AccountType, normal_balance_sign, is_debit_normal}
use vector_ledger.Ledger.Entry.{JournalEntry, JournalLine, DrCr}
use vector_ledger.Ledger.Store.Balance.{
  signed_delta, line_effect, lines_effect, entry_effect, journal_balance,
}
use vector_ledger.Ledger.Store.Books.{IsBooked}
use vector_ledger.Ledger.Store.Books.Run.{Run, Run-IsBooked}
use vector_ledger.Ledger.Store.Database.{stream_all}
use vector_ledger.Ledger.Store.Reconcile.{
  recomputed_delta, recompute_line, recompute_lines, recompute, compare_balances, all_ids,
  reconcile,
}
use vector_ledger.Ledger.Store.Records.{Bincode}
use vector_ledger.Ledger.Store.State.{LedgerStore}

-- No account of the type whose sign the two computations take differently.
abbrev pub NoSuspense : Dict Account → Type 0
NoSuspense accounts =
    (k : Uuid) (x : Account) → lookup k accounts ≡ some x → x.account_type ≢ AccountType.suspense

recomputed_delta-signed :
    (t : AccountType) (c : DrCr) (x : ℤ)
    → t ≢ AccountType.suspense
    → recomputed_delta c (normal_balance_sign t) x ≡ signed_delta (is_debit_normal t) c x
unfolding normal_balance_sign
recomputed_delta-signed AccountType.asset DrCr.debit x h = refl
recomputed_delta-signed AccountType.asset DrCr.credit x h = refl
recomputed_delta-signed AccountType.expense DrCr.debit x h = refl
recomputed_delta-signed AccountType.expense DrCr.credit x h = refl
recomputed_delta-signed AccountType.liability DrCr.debit x h = refl
recomputed_delta-signed AccountType.liability DrCr.credit x h = neg-neg x
recomputed_delta-signed AccountType.equity DrCr.debit x h = refl
recomputed_delta-signed AccountType.equity DrCr.credit x h = neg-neg x
recomputed_delta-signed AccountType.income DrCr.debit x h = refl
recomputed_delta-signed AccountType.income DrCr.credit x h = neg-neg x
recomputed_delta-signed AccountType.contra DrCr.debit x h = refl
recomputed_delta-signed AccountType.contra DrCr.credit x h = neg-neg x
recomputed_delta-signed AccountType.suspense c x h = absurd (h refl)

recompute_line-value :
    (o : Option Account) (a : Uuid) (l : JournalLine) (d : Dict ℤ)
    → ((x : Account) → o ≡ some x → x.account_type ≢ AccountType.suspense)
    → value_at a (recompute_line o l d)
      ≡ (if a == l.account_id then value_at a d +ℤ line_effect o l else value_at a d)
unfolding recompute_line line_effect
recompute_line-value none a l d h = ground (arith, +ℤ_zero (value_at a d))
recompute_line-value (some x) a l d h =
    rw (recomputed_delta-signed x.account_type l.dr_cr l.amount.minor_units (h x refl))
      (value_at-add_at l.account_id a _ d)

recompute_lines-value :
    (accounts : Dict Account) (a : Uuid) (ls : List JournalLine) (d : Dict ℤ)
    → NoSuspense accounts
    → value_at a (recompute_lines accounts ls d) ≡ value_at a d +ℤ lines_effect accounts a ls
unfolding recompute_lines lines_effect
recompute_lines-value accounts a [] d h = sym (+ℤ_zero (value_at a d))
recompute_lines-value accounts a (l ∷ ls) d h =
    recompute_lines-value accounts a ls (recompute_line (lookup l.account_id accounts) l d) h
    ∙ ground (
      arith,
      recompute_line-value (lookup l.account_id accounts) a l d (h l.account_id),
      same_account,
      +ℤ_assoc (value_at a d) (line_effect (lookup a accounts) l) (lines_effect accounts a ls),
    )
  where
    same_account :
        (a == l.account_id) ≡ true
        → line_effect (lookup l.account_id accounts) l ≡ line_effect (lookup a accounts) l
    same_account q =
        let key : l.account_id ≡ a = ground arith in ap (λ i. line_effect (lookup i accounts) l) key

recompute-value :
    (accounts : Dict Account) (a : Uuid) (es : List JournalEntry) (d : Dict ℤ)
    → NoSuspense accounts
    → value_at a (recompute accounts es d) ≡ value_at a d +ℤ journal_balance accounts a es
unfolding recompute journal_balance entry_effect
recompute-value accounts a [] d h = sym (+ℤ_zero (value_at a d))
recompute-value accounts a (e ∷ es) d h =
    recompute-value accounts a es _ h
    ∙ ground (
      arith,
      recompute_lines-value accounts a e.lines d h,
      +ℤ_assoc (value_at a d) (lines_effect accounts a e.lines) (journal_balance accounts a es),
      zero_+ℤ (journal_balance accounts a es),
    )

compare_balances-none :
    (uuid_string : ℕ → Bytes) (s : LedgerStore) (d : Dict ℤ) (ids : List Uuid)
    → ((a : Uuid) → value_at a s.balance_cache ≡ value_at a d)
    → compare_balances uuid_string s d ids ≡ []
unfolding compare_balances
compare_balances-none uuid_string s d [] h = refl
compare_balances-none uuid_string s d (a ∷ ids) h =
    let same = (==ℤ_iff (value_at a s.balance_cache) (value_at a d)).1 (h a) in
    rw same (compare_balances-none uuid_string s d ids h)

module _ (P : Platform) (S : Ed25519) (B : Bincode) where
  -- Reconciliation is clean: if no account is a suspense account, `reconcile` over all rows reports
  -- no discrepancy. This is so after any calls on an empty ledger that meet these
  -- conditions, with any faults of the log and the pages: an account is created under an id that no
  -- account has; an entry is posted with no content hash; in a call that writes an entry the index
  -- works, and the sequence counter is below 2^63; there is no bulk import and no restart.
  pub Run-reconcile :
      (s : LedgerStore) → Run P S B s → NoSuspense s.accounts → reconcile P.uuid_string none s ≡ []
  unfolding reconcile stream_all IsBooked value_at
  Run-reconcile s r h =
      compare_balances-none P.uuid_string s (recompute s.accounts s.entry_db.entries []) (all_ids s)
        (λ a.
          (Run-IsBooked P S B s r).balances a
          ∙ sym (zero_+ℤ (journal_balance s.accounts a s.entry_db.entries))
          ∙ sym (recompute-value s.accounts a s.entry_db.entries [] h))
