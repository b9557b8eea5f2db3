-- ===== src/Ledger/Store/Books/Entries.antt =====
-- Postings and reversals (store.rs) keep the books.
use vector_ledger.Common.{
  arith, ℕ, ◌+◌, ◌%◌, ◌^◌, ◌<◌, ◌≡◌, ap, List, [], ◌∷◌, Option, none, some, true, Fault, All,
  Result, ok, then_ok, Option-cases, inl, inr,
}
use vector_ledger.Common.Bytes.{Bytes}
use vector_ledger.Common.Dict.{Dict, lookup}
use vector_ledger.Common.Int.{ℤ, pos}
use vector_ledger.Crypto.Hash.{Platform, Hash, zero_hash}
use vector_ledger.Crypto.Sign.{Ed25519}
use vector_ledger.Ledger.Account.{Account}
use vector_ledger.Ledger.Currency.{CurrencyRegistry}
use vector_ledger.Ledger.Entry.{JournalEntry, JournalLine}
use vector_ledger.Ledger.Entry.Hashes.{finalize_chain_hash}
use vector_ledger.Ledger.Entry.Tamper.{verify-finalize_chain_hash}
use vector_ledger.Ledger.Entry.Validate.{net, validate_iff}
use vector_ledger.Ledger.Error.{LedgerError}
use vector_ledger.Ledger.Store.Balance.{update_entry-value}
use vector_ledger.Ledger.Store.Books.{Known, AreBooks, IsBooked}
use vector_ledger.Ledger.Store.Books.Append.{AreBooks-index_entry}
use vector_ledger.Ledger.Store.Books.Rows.{IsNewKey, All-weaken}
use vector_ledger.Ledger.Store.Check.{check_line, check_lines}
use vector_ledger.Ledger.Store.Database.{find_key}
use vector_ledger.Ledger.Store.Post.{known_key, entry_written, post_entry}
use vector_ledger.Ledger.Store.Post.Effect.{finalize_chain_hash-link}
use vector_ledger.Ledger.Store.Post.Outcome.{Posted, Written, finalized, post_entry-Posted}
use vector_ledger.Ledger.Store.Records.{Bincode}
use vector_ledger.Ledger.Store.State.{LedgerStore, World}

check_line-Known :
    (r : CurrencyRegistry) (accounts : Dict Account) (by : Option Bytes) (l : JournalLine)
    → check_line r accounts by l ≡ ok tt
    → Known accounts l
unfolding check_line
check_line-Known r accounts by l c = elim (Option-cases (lookup l.account_id accounts)) [
  | inl n ↦ absurd (ground (arith, rw n at c))
  | inr x ↦ x
]

check_lines-Known :
    (r : CurrencyRegistry) (accounts : Dict Account) (by : Option Bytes) (ls : List JournalLine)
    → check_lines r accounts by ls ≡ ok tt
    → All (Known accounts) ls
unfolding check_lines
check_lines-Known r accounts by [] c = tt
check_lines-Known r accounts by (l ∷ ls) c =
    let both = then_ok (check_line r accounts by l) (check_lines r accounts by ls) c in
    (check_line-Known r accounts by l both.0, check_lines-Known r accounts by ls both.1)

known_key-IsNewKey :
    (w : World) (o : Option Bytes) (s : LedgerStore)
    → w.finds_key ≡ true
    → known_key w o s ≡ none
    → IsNewKey o s.entry_db.entries
unfolding known_key IsNewKey
known_key-IsNewKey w none s f k = tt
known_key-IsNewKey w (some key) s f k = elim (Option-cases (find_key key s.entry_db.entries)) [
  | inl n ↦ n
  | inr (x, n) ↦ absurd (ground (arith, rw n at (rw f at k)))
]

module _ (P : Platform) where
  -- An error that lost a number.
  pub AreBooks-numbered :
      (accounts : Dict Account) (cache : Dict ℤ) (es : List JournalEntry) (next : ℕ) (tip : Hash)
      → next < 2 ^ 63
      → AreBooks P accounts cache es next tip
      → AreBooks P accounts cache es ((next + 1) % 2 ^ 64) tip
  AreBooks-numbered accounts cache es next tip small b = record {
    positive = omega (arith, b.positive);
    below = All-weaken _ _ es (λ f h. omega arith) b.below;
    known = b.known;
    balances = b.balances;
    indexed = b.indexed;
    even = b.even;
    chain = b.chain;
  }

  -- What finalising keeps, and what it sets.
  pub finalized_fields :
      (e : JournalEntry) (prev : Hash)
      → let f = finalize_chain_hash P e prev in
        (f.sequence ≡ e.sequence)
        × (f.lines ≡ e.lines)
        × (f.idempotency_key ≡ e.idempotency_key)
        × (f.status ≡ e.status)
        × (f.prev_hash ≡ prev)
  finalized_fields e prev =
      let (h, q) = finalize_chain_hash-link P e prev in
      (
        ap (λ f. f.sequence) q,
        ap (λ f. f.lines) q,
        ap (λ f. f.idempotency_key) q,
        ap (λ f. f.status) q,
        ap (λ f. f.prev_hash) q,
      )

  Written-IsBooked :
      (w : World) (e : JournalEntry) (s : LedgerStore) (x : Result LedgerError ℕ × LedgerStore)
      → w.insert ≡ Fault.works
      → s.next_sequence < 2 ^ 63
      → e.content_hash ≡ zero_hash
      → IsNewKey e.idempotency_key s.entry_db.entries
      → All (Known s.accounts) e.lines
      → net e.lines ≡ pos 0
      → Written P w e s x
      → IsBooked P s
      → IsBooked P x.1
  unfolding IsBooked entry_written
  Written-IsBooked w e s _ works small unset key known even (Written.lost x d) b =
      AreBooks-numbered _ _ _ _ _ small b
  Written-IsBooked w e s _ works small unset key known even (Written.written bytes d) b =
      let f = record e { sequence = s.next_sequence; posted_at = w.now } in
      let (number, lines, same_key, status, linked) = finalized_fields f s.last_chain_hash in
      AreBooks-index_entry P s.accounts s.balance_cache _ s.next_sequence s.last_chain_hash
        (finalized P w e s) w s.entry_db works small (rw same_key key) b
        (record {
          numbered = number;
          verified = verify-finalize_chain_hash P f s.last_chain_hash unset;
          linked = linked;
          known = rw lines known;
          even = rw lines even;
          counted = λ a. update_entry-value s.accounts a (finalized P w e s) s.balance_cache;
        })

  Posted-IsBooked :
      (w : World) (e : JournalEntry) (s : LedgerStore) (x : Result LedgerError ℕ × LedgerStore)
      → w.insert ≡ Fault.works
      → w.finds_key ≡ true
      → s.next_sequence < 2 ^ 63
      → e.content_hash ≡ zero_hash
      → Posted P w e s x
      → IsBooked P s
      → IsBooked P x.1
  Posted-IsBooked w e s _ works finds small unset (Posted.refused z) b = b
  Posted-IsBooked w e s _ works finds small unset (Posted.known n v k) b = b
  Posted-IsBooked w e s _ works finds small unset (Posted.passed x v k c c' y) b =
      Written-IsBooked w e s x works small unset (known_key-IsNewKey w e.idempotency_key s finds k)
        (check_lines-Known _ _ _ e.lines c) ((validate_iff e).0 v).1 y b

module _ (P : Platform) (S : Ed25519) (B : Bincode) where
  pub post_entry-IsBooked :
      (w : World) (e : JournalEntry) (s : LedgerStore)
      → w.insert ≡ Fault.works
      → w.finds_key ≡ true
      → s.next_sequence < 2 ^ 63
      → e.content_hash ≡ zero_hash
      → IsBooked P s
      → IsBooked P (post_entry P S B w e s).1
  post_entry-IsBooked w e s works finds small unset b =
      Posted-IsBooked P w e s _ works finds small unset (post_entry-Posted P S B w e s) b
