-- ===== src/Ledger/Entry/Canonical.antt =====
-- `JournalEntry::canonical_bytes` (entry.rs): the bytes that are hashed.
use vector_ledger.Common.{
  ℕ, ◌-◌, ◌%◌, ◌^◌, List, [], ◌∷◌, ◌++◌, Option, none, some, length, replicate,
}
use vector_ledger.Common.Int.{ℤ, pos, i64_as_u64}
use vector_ledger.Common.Bytes.{Bytes, to_le_bytes, to_be_bytes}
use vector_ledger.Ledger.Account.{Uuid, DateTime}
use vector_ledger.Ledger.Amount.{as_i64}
use vector_ledger.Ledger.Entry.{JournalLine, JournalEntry, DrCr}
use vector_ledger.Ledger.Error.{EntryStatus}

-- The lengths are cast to `u32`.
unfoldable pub write_bytes : Bytes → Bytes
write_bytes d = to_le_bytes 4 (length d % 2 ^ 32) ++ d

-- Absence is the length `u32::MAX`.
unfoldable pub write_opt_bytes : Option Bytes → Bytes
write_opt_bytes none = to_le_bytes 4 (2 ^ 32 - 1)
write_opt_bytes (some d) = write_bytes d

unfoldable pub write_opt_uuid : Option Uuid → Bytes
write_opt_uuid none = replicate 16 0 ++ 0 ∷ []
write_opt_uuid (some id) = to_be_bytes 16 id ++ 1 ∷ []

-- `status as u8`, `dr_cr as u8`: the position in the declaration.
unfoldable pub status_u8 : EntryStatus → ℕ
status_u8 EntryStatus.posted = 0
status_u8 EntryStatus.reversed = 1
status_u8 EntryStatus.reversal = 2
status_u8 EntryStatus.pending_approval = 3
status_u8 EntryStatus.rejected = 4
status_u8 EntryStatus.pending = 5
status_u8 EntryStatus.settled = 6
status_u8 EntryStatus.failed = 7

unfoldable pub dr_cr_u8 : DrCr → ℕ
dr_cr_u8 DrCr.debit = 0
dr_cr_u8 DrCr.credit = 1

-- `timestamp_nanos_opt().unwrap_or(0)`.
abbrev pub nanos : DateTime → ℤ
nanos (DateTime.stamped n) = n
nanos (DateTime.beyond seconds) = pos 0

unfoldable pub write_i64 : ℤ → Bytes
write_i64 z = to_le_bytes 8 (i64_as_u64 z)

unfoldable pub line_bytes : JournalLine → Bytes
line_bytes l =
    to_be_bytes 16 l.id
    ++ (to_be_bytes 16 l.account_id
        ++ (write_i64 (as_i64 l.amount)
            ++ (dr_cr_u8 l.dr_cr ∷ (write_bytes l.currency_code ++ write_opt_bytes l.memo))))

unfoldable pub lines_bytes : List JournalLine → Bytes
lines_bytes [] = []
lines_bytes (l ∷ ls) = line_bytes l ++ lines_bytes ls

unfoldable pub canonical_bytes : JournalEntry → Bytes
canonical_bytes e =
    1
    ∷ (to_be_bytes 16 e.id
        ++ (to_le_bytes 8 e.sequence
            ++ (status_u8 e.status
                ∷ (write_i64 (nanos e.effective_at)
                    ++ (write_i64 (nanos e.posted_at)
                        ++ (write_bytes e.description
                            ++ (write_bytes e.domain
                                ++ (write_opt_bytes e.external_ref
                                    ++ (write_opt_bytes e.idempotency_key
                                        ++ (write_opt_uuid e.reverses_entry_id
                                            ++ (write_opt_uuid e.reversed_by_entry_id
                                                ++ (write_opt_bytes e.approved_by
                                                    ++ (write_opt_bytes e.metadata
                                                        ++ (to_le_bytes 4 (length e.lines % 2 ^ 32)
                                                            ++ lines_bytes e.lines))))))))))))))
