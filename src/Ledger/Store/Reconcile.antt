-- ===== src/Ledger/Store/Reconcile.antt =====
-- crates/vledger-ledger/src/store.rs: reconciliation and the global equation of the ledger. A hash
-- map or set is walked in the order of its list.
use vector_ledger.Common.{
  ℕ, ◌-◌, List, [], ◌∷◌, ◌++◌, not, Option, none, some, if◌then◌else◌, Result, ok, err, length,
}
use vector_ledger.Common.Action.{◌>>=◌, ◌>>◌, pure, lift, gets}
use vector_ledger.Common.Bytes.{Bytes}
use vector_ledger.Common.Dict.{Dict, lookup, add_at, value_at, member}
use vector_ledger.Common.Int.{ℤ, pos, negsuc, ◌+ℤ◌, ◌-ℤ◌, neg, ◌==ℤ◌}
use vector_ledger.Crypto.Hash.{Platform}
use vector_ledger.Crypto.Sign.{Ed25519}
use vector_ledger.Ledger.Account.{Uuid, Account, AccountType, normal_balance_sign}
use vector_ledger.Ledger.Amount.{as_i128}
use vector_ledger.Ledger.Entry.{JournalEntry, JournalLine, DrCr}
use vector_ledger.Ledger.Store.Balance.{affects_balance}
use vector_ledger.Ledger.Store.Database.{Reads, stream_all}
use vector_ledger.Ledger.Store.Records.{
  Bincode, ReconciliationDiscrepancy, ReconciliationRecord, encode, table_reconciliation_events,
}
use vector_ledger.Ledger.Store.State.{LedgerStore, World, Call, on_storage}
use vector_ledger.Ledger.Store.Storage.{persist_row}
use vector_ledger.Wal.Record.{MutationKind}

-- The product with the sign, 1 or -1.
abbrev times_sign : ℤ → ℤ → ℤ
times_sign (pos n) x = x
times_sign (negsuc n) x = neg x

abbrev pub recomputed_delta : DrCr → ℤ → ℤ → ℤ
recomputed_delta DrCr.debit sign x = times_sign sign x
recomputed_delta DrCr.credit sign x = times_sign sign (neg x)

unfoldable pub recompute_line : Option Account → JournalLine → Dict ℤ → Dict ℤ
unfolding add_at normal_balance_sign
recompute_line none l d = d
recompute_line (some acct) l d =
    add_at l.account_id
      (recomputed_delta l.dr_cr (normal_balance_sign acct.account_type) (as_i128 l.amount)) d

unfoldable pub recompute_lines : Dict Account → List JournalLine → Dict ℤ → Dict ℤ
unfolding lookup recompute_line
recompute_lines accounts [] d = d
recompute_lines accounts (l ∷ ls) d =
    recompute_lines accounts ls (recompute_line (lookup l.account_id accounts) l d)

unfoldable pub recompute : Dict Account → List JournalEntry → Dict ℤ → Dict ℤ
unfolding recompute_lines
recompute accounts [] d = d
recompute accounts (e ∷ es) d =
    recompute accounts es
      (if affects_balance e.status then recompute_lines accounts e.lines d else d)

abbrev pub keys {ℓ} : {V : Type ℓ} → Dict V → List ℕ
keys [] = []
keys ((k, v) ∷ d) = k ∷ keys d

-- The ids of a list, each once.
unfoldable pub to_set : List ℕ → List ℕ
unfolding member
to_set [] = []
to_set (k ∷ ks) = let rest = to_set ks in if member k rest then rest else k ∷ rest

abbrev code_of : (ℕ → Bytes) → Uuid → Option Account → Bytes
code_of uuid_string a none = uuid_string a
code_of uuid_string a (some acct) = acct.code

abbrev pub discrepancy : (ℕ → Bytes) → LedgerStore → Uuid → ℤ → ℤ → ReconciliationDiscrepancy
unfolding lookup ◌-ℤ◌
discrepancy uuid_string s a cached computed = record {
  account_id = a;
  account_code = code_of uuid_string a (lookup a s.accounts);
  cached_balance = cached;
  recomputed_balance = computed;
  delta = computed -ℤ cached;
}

unfoldable pub compare_balances :
    (ℕ → Bytes) → LedgerStore → Dict ℤ → List Uuid → List ReconciliationDiscrepancy
unfolding value_at discrepancy
compare_balances uuid_string s recomputed [] = []
compare_balances uuid_string s recomputed (a ∷ ids) =
    let rest = compare_balances uuid_string s recomputed ids in
    let cached = value_at a s.balance_cache in
    let computed = value_at a recomputed in
    if not (cached ==ℤ computed) then discrepancy uuid_string s a cached computed ∷ rest else rest

unfoldable pub all_ids : LedgerStore → List Uuid
unfolding to_set
all_ids s = to_set (keys s.accounts ++ keys s.balance_cache)

-- The printed form of an id comes from the platform.
unfoldable pub reconcile : (ℕ → Bytes) → Reads → LedgerStore → List ReconciliationDiscrepancy
unfolding compare_balances recompute stream_all all_ids
reconcile uuid_string reads s =
    compare_balances uuid_string s (recompute s.accounts (stream_all reads s.entry_db) [])
      (all_ids s)

-- A failing count is 0; the chain tip stands as its bytes.
unfoldable pub reconciliation_record :
    World → LedgerStore → List ReconciliationDiscrepancy → ReconciliationRecord
reconciliation_record w s ds = record {
  id = w.fresh_id 0;
  run_at = w.now;
  entries_scanned = if w.finds_entry then length s.entry_db.entries else 0;
  accounts_checked = length s.accounts;
  discrepancy_count = length ds;
  discrepancy_json = ds;
  ledger_sequence_at_run = s.next_sequence - 1;
  chain_tip_at_run = s.last_chain_hash;
}

-- The record goes to the log alone: `reconciliation_history` is filled by the replay.
unfoldable pub reconcile_and_record :
    Platform
    → Ed25519
    → Bincode
    → World
    → Call (List ReconciliationDiscrepancy × ReconciliationRecord)
unfolding reconcile reconciliation_record encode persist_row
reconcile_and_record P S B w = do
  ds ← gets (reconcile P.uuid_string w.reads)
  r ← gets (λ (s : LedgerStore). reconciliation_record w s ds)
  bytes ← lift (encode B.reconciliation r)
  on_storage
      (persist_row P S w.takes_page table_reconciliation_events bytes MutationKind.insert none)
  pure (ds, r)

-- The two sums: assets and expenses, and liabilities, equity and income.
abbrev pub add_to_sums : AccountType → ℤ → ℤ × ℤ → ℤ × ℤ
add_to_sums AccountType.asset x (d, c) = (d +ℤ x, c)
add_to_sums AccountType.expense x (d, c) = (d +ℤ x, c)
add_to_sums AccountType.liability x (d, c) = (d, c +ℤ x)
add_to_sums AccountType.equity x (d, c) = (d, c +ℤ x)
add_to_sums AccountType.income x (d, c) = (d, c +ℤ x)
add_to_sums AccountType.contra x (d, c) = (d, c)
add_to_sums AccountType.suspense x (d, c) = (d, c)

unfoldable pub normal_sums : Dict Account → Dict ℤ → ℤ × ℤ → ℤ × ℤ
unfolding value_at
normal_sums [] cache acc = acc
normal_sums ((a, acct) ∷ d) cache acc =
    normal_sums d cache (add_to_sums acct.account_type (value_at acct.id cache) acc)

-- An error carries the two sums.
unfoldable pub check_financial_invariants : LedgerStore → Result (ℤ × ℤ) (Unit {0})
unfolding normal_sums
check_financial_invariants s =
    let (d, c) = normal_sums s.accounts s.balance_cache (pos 0, pos 0) in
    if not (d ==ℤ c) then err (d, c) else ok tt
