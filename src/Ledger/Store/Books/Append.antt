-- ===== src/Ledger/Store/Books/Append.antt =====
-- One more entry in the books (store.rs).
use vector_ledger.Common.{
  arith, ℕ, ◌+◌, ◌%◌, ◌^◌, ◌<◌, ◌≡◌, sym, ap, ◌∙◌, List, [], ◌∷◌, ◌++◌, true, Fault, All, length,
  length-append, ok,
}
use vector_ledger.Common.Dict.{Dict, value_at}
use vector_ledger.Common.Int.{ℤ, pos, ◌+ℤ◌}
use vector_ledger.Crypto.Hash.{Platform, Hash, zero_hash}
use vector_ledger.Ledger.Account.{Uuid, Account}
use vector_ledger.Ledger.Entry.{JournalEntry}
use vector_ledger.Ledger.Entry.Hashes.{verify_hashes}
use vector_ledger.Ledger.Entry.Validate.{net}
use vector_ledger.Ledger.Store.Balance.{entry_effect}
use vector_ledger.Ledger.Store.Books.{Known, AreBooks}
use vector_ledger.Ledger.Store.Books.Rows.{
  IsNewKey, entries-index_entry, journal_balance-append, All-append, All-weaken, verify_rows-append,
}
use vector_ledger.Ledger.Store.Database.{EntryDb}
use vector_ledger.Ledger.Store.Post.{index_entry}
use vector_ledger.Ledger.Store.State.{World}

module _ (P : Platform) (accounts : Dict Account) (cache cache' : Dict ℤ) (next : ℕ) (tip : Hash)
    (e : JournalEntry) where
  -- What the entry has to be, as the next one.
  pub record IsNext : Type 0 where
    pub numbered : e.sequence ≡ next
    pub verified : verify_hashes P e ≡ true
    pub linked : e.prev_hash ≡ tip
    pub known : All (Known accounts) e.lines
    pub even : net e.lines ≡ pos 0
    pub counted : (a : Uuid) → value_at a cache' ≡ value_at a cache +ℤ entry_effect accounts a e

  AreBooks-append :
      (es : List JournalEntry)
      → AreBooks P accounts cache es next tip
      → IsNext
      → AreBooks P accounts cache' (es ++ e ∷ []) (next + 1) e.chain_hash
  AreBooks-append es b n = record {
    positive = omega arith;
    below =
        All-append _ es e (All-weaken _ _ es (λ f h. omega arith) b.below)
          (omega (arith, n.numbered));
    known = All-append _ es e b.known n.known;
    balances = λ a.
        n.counted a
        ∙ ap (λ x. x +ℤ entry_effect accounts a e) (b.balances a)
        ∙ sym (journal_balance-append accounts a es e);
    indexed = b.indexed;
    even = All-append _ es e b.even n.even;
    chain =
        verify_rows-append P zero_hash tip 0 (length es) es e b.chain n.verified n.linked
        ∙ ap (λ m. ok (m, e.chain_hash)) (omega (arith, length-append es (e ∷ [])));
  }

  -- The books after the row is put into the index and the counter goes on.
  pub AreBooks-index_entry :
      (w : World) (db : EntryDb)
      → w.insert ≡ Fault.works
      → next < 2 ^ 63
      → IsNewKey e.idempotency_key db.entries
      → AreBooks P accounts cache db.entries next tip
      → IsNext
      → AreBooks P accounts cache' (index_entry w e db).entries ((next + 1) % 2 ^ 64) e.chain_hash
  AreBooks-index_entry w db works small key b n =
      let below : All (λ (f : JournalEntry). f.sequence < e.sequence) db.entries =
        rw (n.numbered) b.below in
      let place =
        entries-index_entry w e db works (rw (n.numbered) b.positive) (rw (n.numbered) small) below
          key in
      let count : (next + 1) % 2 ^ 64 ≡ next + 1 = omega arith in
      rw place (rw count (AreBooks-append db.entries b n))
