-- ===== src/Ledger/Store/EventTests.antt =====
-- The theorems on reversals and legal holds at a concrete store.
use vector_ledger.Common.{◌≡◌, refl, none, some, true, ok, err}
use vector_ledger.Common.Bytes.{codes, to_be_bytes, bytes_eq}
use vector_ledger.Common.Int.{neg, ◌+ℤ◌}
use vector_ledger.Crypto.Tests.{toy}
use vector_ledger.Ledger.Entry.{JournalEntry}
use vector_ledger.Ledger.Currency.{get}
use vector_ledger.Ledger.Entry.Canonical.{
  canonical_bytes, write_i64, write_bytes, write_opt_bytes, write_opt_uuid, lines_bytes, line_bytes,
  status_u8, dr_cr_u8,
}
use vector_ledger.Ledger.Entry.Hashes.{finalize_chain_hash}
use vector_ledger.Ledger.Entry.Tests.{transfer}
use vector_ledger.Ledger.Entry.Validate.{totals}
use vector_ledger.Ledger.Error.{LedgerError}
use vector_ledger.Ledger.Store.Accounts.{place_legal_hold}
use vector_ledger.Ledger.Store.Accounts.Holds.{touches, place_legal_hold-reverse_entry}
use vector_ledger.Ledger.Store.Balance.{entry_effect}
use vector_ledger.Ledger.Store.Post.{post_entry}
use vector_ledger.Ledger.Store.Post.Outcome.{finalized}
use vector_ledger.Ledger.Store.Reverse.{find_original, reverse_entry, reversed_by}
use vector_ledger.Ledger.Store.Reverse.Once.{reverse_entry-cancels, reverse_entry-once}
use vector_ledger.Ledger.Store.State.{LedgerStore, balance}
use vector_ledger.Transaction.Manager.{get_active, put_active, drop_active}
use vector_ledger.Wal.Tests.{toy_signatures}
use vector_ledger.Ledger.Store.Tests.{toy_bincode, fine, bank, after_post, broken}

unfoldable after_reversal : LedgerStore
unfolding after_post reverse_entry
after_reversal =
    (reverse_entry toy toy_signatures toy_bincode fine 7 (codes "undo") (codes "main") after_post).1

reversal_runs :
    reverse_entry toy toy_signatures toy_bincode fine 7 (codes "undo") (codes "main") after_post
    ≡ (ok 102, after_reversal)
unfolding canonical_bytes to_be_bytes write_i64 write_bytes write_opt_bytes write_opt_uuid
    lines_bytes line_bytes status_u8 dr_cr_u8 after_reversal after_post bank post_entry
    reverse_entry totals ◌+ℤ◌ get neg get_active put_active drop_active
reversal_runs = refl

reverse_entry-cancels_example :
    (o : JournalEntry) × (find_original fine 7 after_post ≡ ok o)
    × (balance 1 after_reversal
        ≡ balance 1 after_post +ℤ neg (entry_effect after_post.accounts 1 o))
reverse_entry-cancels_example =
    reverse_entry-cancels toy toy_signatures toy_bincode fine 7 1 102 (codes "undo") (codes "main")
      after_post after_reversal reversal_runs

reverse_entry-once_example :
    (reversed_by 7 after_reversal ≡ some 102)
    × ((z : LedgerError) × (reverse_entry toy toy_signatures toy_bincode broken 7
            (codes "again")
            (codes "main")
            after_reversal
          ≡ (err z, after_reversal)))
reverse_entry-once_example =
    reverse_entry-once toy toy_signatures toy_bincode fine 7 102 (codes "undo") (codes "main")
      after_post after_reversal broken (codes "again") (codes "main") reversal_runs

unfoldable held : LedgerStore
unfolding after_post place_legal_hold
held = (place_legal_hold toy toy_signatures toy_bincode fine 1 after_post).1

places_hold : place_legal_hold toy toy_signatures toy_bincode fine 1 after_post ≡ (ok tt, held)
unfolding held after_post bank post_entry place_legal_hold totals ◌+ℤ◌ get neg get_active put_active
    drop_active
places_hold = refl

-- The row of the transfer.
unfoldable row : JournalEntry
unfolding bank
row = finalized toy fine transfer bank

abbrev keyless : JournalEntry
keyless = record transfer { idempotency_key = none }

found_original : find_original fine 7 held ≡ ok row
unfolding find_original row held after_post bank post_entry place_legal_hold totals ◌+ℤ◌ get neg
    get_active put_active drop_active
found_original = refl

row_touches : touches 1 row.lines ≡ true
unfolding touches row bank finalize_chain_hash bytes_eq
row_touches = refl

place_legal_hold-reverse_entry_example :
    (x : LedgerError) × (reverse_entry toy toy_signatures toy_bincode fine 7
        (codes "undo")
        (codes "main")
        held
      ≡ (err x, held))
place_legal_hold-reverse_entry_example =
    place_legal_hold-reverse_entry toy toy_signatures toy_bincode fine fine 1 7 after_post held row
      (codes "undo") (codes "main") places_hold found_original row_touches
