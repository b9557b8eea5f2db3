-- ===== src/Ledger/Store/Books/Reversals.antt =====
-- Reversals (store.rs) keep the books.
use vector_ledger.Common.{
  refl, sym, arith, ℕ, suc, ◌^◌, ◌<◌, ◌≡◌, ap, ◌∙◌, List, [], ◌∷◌, Option, none, some, true, false,
  Bool, Fault, All, Result, ok, Option-cases, inl, inr,
}
use vector_ledger.Common.Bytes.{Bytes}
use vector_ledger.Common.Dict.{Dict, value_at}
use vector_ledger.Common.Int.{ℤ, pos, ◌+ℤ◌, neg, neg-neg, int_laws, eq→parts}
use vector_ledger.Crypto.Hash.{Platform}
use vector_ledger.Crypto.Sign.{Ed25519}
use vector_ledger.Ledger.Account.{Uuid, Account}
use vector_ledger.Ledger.Entry.{JournalEntry, JournalLine, DrCr, signed, signed_amount}
use vector_ledger.Ledger.Entry.Hashes.{finalize_hashes, precompute_content_hash}
use vector_ledger.Ledger.Entry.Tamper.{verify-finalize_hashes}
use vector_ledger.Ledger.Entry.Validate.{net}
use vector_ledger.Ledger.Error.{EntryStatus, LedgerError}
use vector_ledger.Ledger.Store.Balance.{
  lines_effect, entry_effect, update_lines-value, affects_balance,
}
use vector_ledger.Ledger.Store.Books.{Known, IsBooked}
use vector_ledger.Ledger.Store.Books.Append.{AreBooks-index_entry}
use vector_ledger.Ledger.Store.Books.Entries.{AreBooks-numbered, finalized_fields}
use vector_ledger.Ledger.Store.Books.Rows.{IsNewKey, find_sequence-All}
use vector_ledger.Ledger.Store.Database.{EntryDb, find_sequence, get_by_sequence}
use vector_ledger.Ledger.Store.Records.{Bincode}
use vector_ledger.Ledger.Store.Reverse.{
  find_original, row_or_missing, fetch, flip, flip_lines, reversal_entry, reversal_written,
  reverse_entry,
}
use vector_ledger.Ledger.Store.Reverse.Outcome.{Reversed, reversed_as, reverse_entry-Reversed}
use vector_ledger.Ledger.Store.State.{LedgerStore, World}

-- The entry that `reverse_entry` finds is a row.
fetch-All :
    (Q : JournalEntry → Type 0) (w : World) (a : Uuid) (found : Option JournalEntry) (db : EntryDb)
    (o : JournalEntry)
    → All Q db.entries
    → fetch w a found db ≡ ok o
    → Q o
unfolding fetch get_by_sequence
fetch-All Q w a none db o h q = absurd (ground arith)
fetch-All Q w a (some e) db o h q = fetched w.finds_entry q
  where
    fetched : (works : Bool) → row_or_missing a (get_by_sequence works e.sequence db) ≡ ok o → Q o
    fetched false q = absurd (ground arith)
    fetched true q = elim (Option-cases (find_sequence e.sequence db.entries)) [
      | inl n ↦ absurd (ground (arith, rw n at q))
      | inr (f, n) ↦
          let this : f ≡ o = ground (arith, rw n at q) in
          rw⁻¹ this (find_sequence-All Q e.sequence db.entries f h n)
    ]

flip_lines-Known :
    (P : Platform) (accounts : Dict Account) (ids : ℕ → Uuid) (n : ℕ) (ls : List JournalLine)
    → All (Known accounts) ls
    → All (Known accounts) (flip_lines P ids n ls)
unfolding flip_lines
flip_lines-Known P accounts ids n [] h = tt
flip_lines-Known P accounts ids n (l ∷ ls) h = (h.0, flip_lines-Known P accounts ids (suc n) ls h.1)

neg-sum_zero : (v w : ℤ) → w ≡ pos 0 → v ≡ neg w → v ≡ pos 0
neg-sum_zero v w h h' = omega (int_laws, eq→parts h, eq→parts h')

signed-flip : (c : DrCr) (x : ℤ) → signed (flip c) x ≡ neg (signed c x)
signed-flip DrCr.debit x = sym (neg-neg x)
signed-flip DrCr.credit x = refl

flip_lines-net :
    (P : Platform) (ids : ℕ → Uuid) (n : ℕ) (ls : List JournalLine)
    → net (flip_lines P ids n ls) ≡ neg (net ls)
unfolding flip_lines signed_amount
flip_lines-net P ids n [] = omega int_laws
flip_lines-net P ids n (l ∷ ls) =
    let later = flip_lines-net P ids (suc n) ls in
    let now = signed-flip l.dr_cr l.amount.minor_units in
    omega (int_laws, eq→parts later, eq→parts now)

module _ (P : Platform) where
  reversed_fields :
      (w : World) (a : Uuid) (description domain : Bytes) (o : JournalEntry) (s : LedgerStore)
      → let e = reversed_as P w a description domain o s in
        (e.sequence ≡ s.next_sequence)
        × (e.lines ≡ flip_lines P w.fresh_id 0 o.lines)
        × (e.idempotency_key ≡ none)
        × (e.status ≡ EntryStatus.reversal)
        × (e.prev_hash ≡ s.last_chain_hash)
  unfolding finalize_hashes precompute_content_hash reversal_entry
  reversed_fields w a description domain o s =
      finalized_fields P
        (precompute_content_hash P (record (reversal_entry P w a description domain o) {
          sequence = s.next_sequence;
          posted_at = w.now;
        }))
        s.last_chain_hash

  reversal_effect :
      (accounts : Dict Account) (b : Uuid) (e : JournalEntry)
      → e.status ≡ EntryStatus.reversal
      → lines_effect accounts b e.lines ≡ entry_effect accounts b e
  unfolding entry_effect
  reversal_effect accounts b e h = ground (arith, ap affects_balance h)

  Reversed-IsBooked :
      (w : World) (a : Uuid) (description domain : Bytes) (s : LedgerStore)
      (x : Result LedgerError Uuid × LedgerStore)
      → w.insert ≡ Fault.works
      → s.next_sequence < 2 ^ 63
      → Reversed P w a description domain s x
      → IsBooked P s
      → IsBooked P x.1
  unfolding IsBooked reversal_written find_original IsNewKey
  Reversed-IsBooked w a de dom s _ works small (Reversed.refused z) b = b
  Reversed-IsBooked w a de dom s _ works small (Reversed.lost z o d f h c) b =
      AreBooks-numbered P _ _ _ _ _ small b
  Reversed-IsBooked w a de dom s _ works small (Reversed.written o d f h c n) b =
      let e = reversed_as P w a de dom o s in
      let (number, lines, no_key, status, linked) = reversed_fields w a de dom o s in
      let even = fetch-All (λ f. net f.lines ≡ pos 0) w a _ s.entry_db o b.even f in
      let known = fetch-All (λ f. All (Known s.accounts) f.lines) w a _ s.entry_db o b.known f in
      AreBooks-index_entry P s.accounts s.balance_cache _ s.next_sequence s.last_chain_hash e w
        s.entry_db works small (rw no_key tt) b
        (record {
          numbered = number;
          verified = verify-finalize_hashes P _ s.last_chain_hash;
          linked = linked;
          known = rw lines (flip_lines-Known P s.accounts w.fresh_id 0 o.lines known);
          even =
              neg-sum_zero _ (net o.lines) even
                (ap net lines ∙ flip_lines-net P w.fresh_id 0 o.lines);
          counted = λ k.
              update_lines-value s.accounts k e.lines s.balance_cache
              ∙ ap (λ x. value_at k s.balance_cache +ℤ x) (reversal_effect s.accounts k e status);
        })

module _ (P : Platform) (S : Ed25519) (B : Bincode) where
  pub reverse_entry-IsBooked :
      (w : World) (a : Uuid) (description domain : Bytes) (s : LedgerStore)
      → w.insert ≡ Fault.works
      → s.next_sequence < 2 ^ 63
      → IsBooked P s
      → IsBooked P (reverse_entry P S B w a description domain s).1
  reverse_entry-IsBooked w a description domain s works small b =
      Reversed-IsBooked P w a description domain s _ works small
        (reverse_entry-Reversed P S B w a description domain s) b
