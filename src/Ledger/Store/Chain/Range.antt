-- ===== src/Ledger/Store/Chain/Range.antt =====
-- Verification of a range with an open end (store.rs, entry_db.rs).
use vector_ledger.Common.{
  arith, ℕ, ◌^◌, ◌-◌, ◌<◌, ◌≡◌, refl, List, [], ◌∷◌, Option, none, true, ok, unwrap_or,
}
use vector_ledger.Common.Int.{u64_as_i64}
use vector_ledger.Crypto.Hash.{Platform, zero_hash}
use vector_ledger.Ledger.Entry.{JournalEntry}
use vector_ledger.Ledger.Store.Chain.{verify_chain_range}
use vector_ledger.Ledger.Store.Database.{rows_between, scan_range}
use vector_ledger.Ledger.Store.State.{LedgerStore, World}

-- The largest `u64` is -1 as an `i64`, below every number that is not negative.
rows_between-open_end :
    (from : ℕ) (es : List JournalEntry)
    → from < 2 ^ 63
    → rows_between (u64_as_i64 from) (u64_as_i64 (2 ^ 64 - 1)) es ≡ []
unfolding rows_between
rows_between-open_end from [] small = refl
rows_between-open_end from (e ∷ es) small = ground (arith, rows_between-open_end from es small)

-- A range with an open end is never verified: whatever rows the index holds, tampered ones too,
-- `verify_chain_range` with no last number reports success, with the count 0 and the zero hash, for
-- every start below 2 ^ 63 and a query that works.
pub verify_chain_range-open_end :
    (P : Platform) (w : World) (from : Option ℕ) (s : LedgerStore)
    → w.finds_entry ≡ true
    → unwrap_or from 1 < 2 ^ 63
    → verify_chain_range P w from none s ≡ ok (0, zero_hash)
unfolding verify_chain_range scan_range
verify_chain_range-open_end P w from s works small =
    rw works (rw (rows_between-open_end (unwrap_or from 1) s.entry_db.entries small) refl)
