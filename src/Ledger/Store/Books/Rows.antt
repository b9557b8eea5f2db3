-- ===== src/Ledger/Store/Books/Rows.antt =====
-- Adding the next row to the index (entry_db.rs): it goes to the end.
use vector_ledger.Common.{
  arith, ℕ, suc, ◌^◌, ◌<◌, ◌≡◌, refl, sym, ap, ◌∙◌, List, [], ◌∷◌, ◌++◌, Option, none, some, Bool,
  true, false, Fault, All, ◌==◌, ok, Bool-cases, inl, inr,
}
use vector_ledger.Common.Bytes.{Bytes, bytes_eq_iff}
use vector_ledger.Common.Int.{◌+ℤ◌, +ℤ_zero, zero_+ℤ, +ℤ_assoc}
use vector_ledger.Common.Dict.{Dict}
use vector_ledger.Crypto.Hash.{Platform, Hash}
use vector_ledger.Ledger.Account.{Uuid, Account}
use vector_ledger.Ledger.Entry.{JournalEntry, JournalLine}
use vector_ledger.Ledger.Entry.Hashes.{verify_hashes}
use vector_ledger.Ledger.Store.Balance.{entry_effect, journal_balance}
use vector_ledger.Ledger.Store.Chain.{verify_rows}
use vector_ledger.Ledger.Store.Database.{
  EntryDb, find_key, has_sequence, place_row, is_ignored, insert_or_ignore, insert_entry,
  insert_account_entry, find_sequence, has_link, key_taken,
}
use vector_ledger.Ledger.Store.Post.{link_lines, index_entry}
use vector_ledger.Ledger.Store.State.{World}

-- No row has the key.
unfoldable pub IsNewKey : Option Bytes → List JournalEntry → Type 0
IsNewKey none es = Unit
IsNewKey (some key) es = find_key key es ≡ none

place_row-last :
    (e : JournalEntry) (es : List JournalEntry)
    → All (λ (f : JournalEntry). f.sequence < e.sequence) es
    → place_row e es ≡ es ++ e ∷ []
unfolding place_row
place_row-last e [] h = refl
place_row-last e (f ∷ fs) h = ground (arith, place_row-last e fs h.1, h.0)

has_sequence-below :
    (n : ℕ) (es : List JournalEntry)
    → All (λ (f : JournalEntry). f.sequence < n) es
    → has_sequence n es ≡ false
unfolding has_sequence
has_sequence-below n [] h = refl
has_sequence-below n (f ∷ fs) h = ground (arith, has_sequence-below n fs h.1, h.0)

key_taken-new : (o : Option Bytes) (es : List JournalEntry) → IsNewKey o es → key_taken o es ≡ false
unfolding key_taken IsNewKey
key_taken-new none es h = refl
key_taken-new (some key) es h = rw h refl

is_ignored-next :
    (e : JournalEntry) (es : List JournalEntry)
    → 0 < e.sequence
    → e.sequence < 2 ^ 63
    → All (λ (f : JournalEntry). f.sequence < e.sequence) es
    → IsNewKey e.idempotency_key es
    → is_ignored e es ≡ false
unfolding is_ignored
is_ignored-next e es p b h k =
    ground (arith, has_sequence-below e.sequence es h, key_taken-new e.idempotency_key es k)

entries-insert_account_entry :
    (works : Bool) (a : Uuid) (n : ℕ) (db : EntryDb)
    → (insert_account_entry works a n db).entries ≡ db.entries
unfolding insert_account_entry
entries-insert_account_entry false a n db = refl
entries-insert_account_entry true a n db = elim (Bool-cases (has_link a n db.account_entries)) [
  | inl old ↦ rw old refl
  | inr new ↦ rw new refl
]

entries-link_lines :
    (w : World) (n : ℕ) (ls : List JournalLine) (db : EntryDb)
    → (link_lines w n ls db).entries ≡ db.entries
unfolding link_lines
entries-link_lines w n [] db = refl
entries-link_lines w n (l ∷ ls) db =
    entries-link_lines w n ls (insert_account_entry (w.links l.account_id) l.account_id n db)
    ∙ entries-insert_account_entry (w.links l.account_id) l.account_id n db

-- The next row, with a new key and with a working insert, is put at the end.
pub entries-index_entry :
    (w : World) (e : JournalEntry) (db : EntryDb)
    → w.insert ≡ Fault.works
    → 0 < e.sequence
    → e.sequence < 2 ^ 63
    → All (λ (f : JournalEntry). f.sequence < e.sequence) db.entries
    → IsNewKey e.idempotency_key db.entries
    → (index_entry w e db).entries ≡ db.entries ++ e ∷ []
unfolding index_entry insert_entry insert_or_ignore
entries-index_entry w e db works p b h k =
    let kept = is_ignored-next e db.entries p b h k in
    rw works (
      rw kept (
        entries-link_lines w e.sequence e.lines (record db { entries = place_row e db.entries })
        ∙ place_row-last e db.entries h))

pub journal_balance-append :
    (accounts : Dict Account) (a : Uuid) (es : List JournalEntry) (e : JournalEntry)
    → journal_balance accounts a (es ++ e ∷ [])
      ≡ journal_balance accounts a es +ℤ entry_effect accounts a e
unfolding journal_balance
journal_balance-append accounts a [] e =
    +ℤ_zero (entry_effect accounts a e) ∙ sym (zero_+ℤ (entry_effect accounts a e))
journal_balance-append accounts a (f ∷ fs) e =
    ap (λ x. entry_effect accounts a f +ℤ x) (journal_balance-append accounts a fs e)
    ∙ sym (
        +ℤ_assoc (entry_effect accounts a f) (journal_balance accounts a fs)
          (entry_effect accounts a e))

pub All-append :
    (Q : JournalEntry → Type 0) (es : List JournalEntry) (e : JournalEntry)
    → All Q es
    → Q e
    → All Q (es ++ e ∷ [])
All-append Q [] e h q = (q, tt)
All-append Q (f ∷ fs) e h q = (h.0, All-append Q fs e h.1 q)

pub All-weaken :
    (Q R : JournalEntry → Type 0) (es : List JournalEntry)
    → ((e : JournalEntry) → Q e → R e)
    → All Q es
    → All R es
All-weaken Q R [] f h = tt
All-weaken Q R (e ∷ es) f h = (f e h.0, All-weaken Q R es f h.1)

pub find_sequence-All :
    (Q : JournalEntry → Type 0) (n : ℕ) (es : List JournalEntry) (e : JournalEntry)
    → All Q es
    → find_sequence n es ≡ some e
    → Q e
unfolding find_sequence
find_sequence-All Q n [] e h q = absurd (ground arith)
find_sequence-All Q n (f ∷ fs) e h q = elim (Bool-cases (n == f.sequence)) [
  | inl same ↦ let this : f ≡ e = ground arith in rw⁻¹ this h.0
  | inr other ↦ find_sequence-All Q n fs e h.1 (ground arith)
]

pub verify_rows-append :
    (P : Platform) (prev tip : Hash) (n m : ℕ) (es : List JournalEntry) (e : JournalEntry)
    → verify_rows P prev n es ≡ ok (m, tip)
    → verify_hashes P e ≡ true
    → e.prev_hash ≡ tip
    → verify_rows P prev n (es ++ e ∷ []) ≡ ok (suc m, e.chain_hash)
unfolding verify_rows
verify_rows-append P prev tip n m [] e h v p = ground (arith, bytes_eq_iff e.prev_hash prev)
verify_rows-append P prev tip n m (f ∷ fs) e h v p =
    ground (arith, verify_rows-append P f.chain_hash tip (suc n) m fs e)
