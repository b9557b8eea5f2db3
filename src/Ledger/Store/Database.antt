-- ===== src/Ledger/Store/Database.antt =====
-- crates/vledger-ledger/src/entry_db.rs: the SQLite tables behind the store. A row of `entries` stands
-- as the entry that its blob decodes to, which its columns repeat; the rows are in the order of their
-- sequence numbers. What SQLite does with a statement is a fault, or a count of the rows that it
-- reads before an error.
use vector_ledger.Common.{
  ℕ, is_some, zero, suc, List, [], ◌∷◌, Bool, true, false, ◌||◌, ◌&&◌, Option, none, some, ltb,
  ◌==◌, if◌then◌else◌, Result, ok, err, Fault,
}
use vector_ledger.Common.Bytes.{Bytes, bytes_eq}
use vector_ledger.Common.Dict.{Dict, insert}
use vector_ledger.Common.Int.{ℤ, pos, leb_ℤ, u64_as_i64}
use vector_ledger.Crypto.Hash.{Hash}
use vector_ledger.Ledger.Account.{Uuid, Account}
use vector_ledger.Ledger.Entry.{JournalEntry}
use vector_ledger.Ledger.Error.{LedgerError}

pub record EntryDb : Type 0 where
  pub entries : List JournalEntry
  pub account_entries : List (Uuid × ℕ)
  pub accounts : Dict Account

abbrev pub same_key : Bytes → Option Bytes → Bool
same_key key none = false
same_key key (some k) = bytes_eq key k

-- `SELECT sequence FROM entries WHERE idempotency_key = ?1`.
unfoldable pub find_key : Bytes → List JournalEntry → Option ℕ
unfolding bytes_eq
find_key key [] = none
find_key key (e ∷ es) = if same_key key e.idempotency_key then some e.sequence else find_key key es

unfoldable pub key_taken : Option Bytes → List JournalEntry → Bool
unfolding find_key
key_taken none es = false
key_taken (some key) es = is_some (find_key key es)

unfoldable pub has_sequence : ℕ → List JournalEntry → Bool
has_sequence n [] = false
has_sequence n (e ∷ es) = if n == e.sequence then true else has_sequence n es

unfoldable pub place_row : JournalEntry → List JournalEntry → List JournalEntry
place_row e [] = e ∷ []
place_row e (f ∷ fs) =
    let rest = place_row e fs in if ltb e.sequence f.sequence then e ∷ f ∷ fs else f ∷ rest

-- The constraints of the table: `CHECK (sequence > 0)` on the number as an `i64`, and two unique columns.
unfoldable pub is_ignored : JournalEntry → List JournalEntry → Bool
unfolding has_sequence key_taken
is_ignored e es =
    leb_ℤ (u64_as_i64 e.sequence) (pos 0)
    || (has_sequence e.sequence es || key_taken e.idempotency_key es)

-- `INSERT OR IGNORE`.
unfoldable pub insert_or_ignore : JournalEntry → EntryDb → EntryDb
unfolding is_ignored place_row
insert_or_ignore e db =
    if is_ignored e db.entries then db else record db { entries = place_row e db.entries }

-- `late` is an error of the text index, after the row is written.
unfoldable pub insert_entry : Fault → JournalEntry → EntryDb → Bool × EntryDb
unfolding insert_or_ignore
insert_entry Fault.works e db = (true, insert_or_ignore e db)
insert_entry Fault.refused e db = (false, db)
insert_entry Fault.late e db = (is_ignored e db.entries, insert_or_ignore e db)

unfoldable pub has_link : Uuid → ℕ → List (Uuid × ℕ) → Bool
has_link a n [] = false
has_link a n ((b, m) ∷ ls) = let rest = has_link a n ls in if a == b then n == m || rest else rest

-- `insert_account_entry`; the first argument says whether the statement works.
unfoldable pub insert_account_entry : Bool → Uuid → ℕ → EntryDb → EntryDb
unfolding has_link
insert_account_entry false a n db = db
insert_account_entry true a n db =
    if has_link a n db.account_entries
    then db
    else record db { account_entries = (a, n) ∷ db.account_entries }

unfoldable pub upsert_account : Bool → Account → EntryDb → EntryDb
unfolding insert
upsert_account false a db = db
upsert_account true a db = record db { accounts = insert a.id a db.accounts }

-- The rows that a statement reads before an error; `none` is all of them.
abbrev pub Reads : Type 0
Reads = Option ℕ

unfoldable pub take : ℕ → List JournalEntry → List JournalEntry
take zero es = []
take (suc n) [] = []
take (suc n) (e ∷ es) = e ∷ take n es

-- What `stream_all` hands to its callback.
unfoldable pub stream_all : Reads → EntryDb → List JournalEntry
unfolding take
stream_all none db = db.entries
stream_all (some n) db = take n db.entries

unfoldable pub find_sequence : ℕ → List JournalEntry → Option JournalEntry
find_sequence n [] = none
find_sequence n (e ∷ es) = if n == e.sequence then some e else find_sequence n es

unfoldable pub get_by_sequence : Bool → ℕ → EntryDb → Result LedgerError (Option JournalEntry)
unfolding find_sequence
get_by_sequence false n db = err LedgerError.serialization
get_by_sequence true n db = ok (find_sequence n db.entries)

abbrev in_range : ℤ → ℤ → ℕ → Bool
in_range from to n = leb_ℤ from (u64_as_i64 n) && leb_ℤ (u64_as_i64 n) to

unfoldable pub rows_between : ℤ → ℤ → List JournalEntry → List JournalEntry
rows_between from to [] = []
rows_between from to (e ∷ es) =
    let rest = rows_between from to es in if in_range from to e.sequence then e ∷ rest else rest

-- The bounds go into the statement as `i64` values.
unfoldable pub scan_range : Bool → ℕ → ℕ → EntryDb → Result LedgerError (List JournalEntry)
unfolding rows_between
scan_range false from to db = err LedgerError.serialization
scan_range true from to db = ok (rows_between (u64_as_i64 from) (u64_as_i64 to) db.entries)

unfoldable pub rows_linked : Uuid → List (Uuid × ℕ) → List JournalEntry → List JournalEntry
unfolding has_link
rows_linked a links [] = []
rows_linked a links (e ∷ es) =
    let rest = rows_linked a links es in if has_link a e.sequence links then e ∷ rest else rest

unfoldable pub entries_for_account : Uuid → EntryDb → List JournalEntry
unfolding rows_linked
entries_for_account a db = rows_linked a db.account_entries db.entries

-- The largest sequence number, that of the last row.
unfoldable pub max_sequence : List JournalEntry → ℕ
max_sequence [] = 0
max_sequence (e ∷ []) = e.sequence
max_sequence (e ∷ f ∷ es) = max_sequence (f ∷ es)

unfoldable pub db_chain_tip : List JournalEntry → Option Hash
db_chain_tip [] = none
db_chain_tip (e ∷ []) = some e.chain_hash
db_chain_tip (e ∷ f ∷ es) = db_chain_tip (f ∷ es)
