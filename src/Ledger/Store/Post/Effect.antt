-- ===== src/Ledger/Store/Post/Effect.antt =====
-- What `post_entry` (store.rs) does to the balances, and what an error leaves behind.
use vector_ledger.Common.{
  arith, ℕ, ◌+◌, ◌%◌, ◌^◌, ◌≡◌, refl, sym, ap, ◌∙◌, ◌⊎◌, inl, inr, none, Result, ok, err,
  Bool-cases,
}
use vector_ledger.Common.Bytes.{bytes_eq}
use vector_ledger.Common.Int.{◌+ℤ◌}
use vector_ledger.Crypto.Hash.{Platform, Hash, zero_hash}
use vector_ledger.Crypto.Sign.{Ed25519}
use vector_ledger.Ledger.Account.{Uuid}
use vector_ledger.Ledger.Entry.{JournalEntry}
use vector_ledger.Ledger.Entry.Hashes.{finalize_chain_hash, link, precompute_content_hash}
use vector_ledger.Ledger.Error.{LedgerError}
use vector_ledger.Ledger.Store.Balance.{entry_effect, update_entry-value}
use vector_ledger.Ledger.Store.Balance.Rules.{entry_growth, entry_effect-growth}
use vector_ledger.Ledger.Store.Post.{known_key, entry_written, post_entry}
use vector_ledger.Ledger.Store.Post.Outcome.{
  Posted, Written, numbered, finalized, post_entry-Posted,
}
use vector_ledger.Ledger.Store.Records.{Bincode}
use vector_ledger.Ledger.Store.State.{LedgerStore, World, balance}

module _ (P : Platform) where
  -- The hashes alone change.
  pub finalize_chain_hash-link :
      (e : JournalEntry) (prev : Hash)
      → (h : Hash) × (finalize_chain_hash P e prev ≡ link P (record e { content_hash = h }) prev)
  unfolding finalize_chain_hash precompute_content_hash
  finalize_chain_hash-link e prev = elim (Bool-cases (bytes_eq e.content_hash zero_hash)) [
    | inl unset ↦ ((precompute_content_hash P e).content_hash, rw unset refl)
    | inr kept ↦ (e.content_hash, rw kept refl)
  ]

  finalized-effect :
      (w : World) (e : JournalEntry) (s : LedgerStore) (a : Uuid)
      → entry_effect s.accounts a (finalized P w e s) ≡ entry_effect s.accounts a e
  unfolding entry_effect
  finalized-effect w e s a =
      let (h, q) =
        finalize_chain_hash-link (record e { sequence = s.next_sequence; posted_at = w.now })
          s.last_chain_hash in
      rw q refl

  pub Written-balance :
      (w : World) (e : JournalEntry) (s s' : LedgerStore) (n : ℕ) (a : Uuid)
      (x : Result LedgerError ℕ × LedgerStore)
      → Written P w e s x
      → ◌≡◌ {A = Result LedgerError ℕ × LedgerStore} x (ok n, s')
      → (n ≡ s.next_sequence) × (balance a s' ≡ balance a s +ℤ entry_effect s.accounts a e)
  unfolding balance entry_written
  Written-balance w e s s' n a _ (Written.lost x d) q = absurd (ground arith)
  Written-balance w e s s' n a _ (Written.written bytes d) q =
      let same : entry_written w bytes (finalized P w e s) (numbered s d) ≡ s' = ap (λ y. y.1) q in
      let number : s.next_sequence ≡ n = ground arith in
      (
        sym number,
        rw⁻¹ same (
            update_entry-value s.accounts a (finalized P w e s) s.balance_cache
            ∙ ap (λ x. balance a s +ℤ x) (finalized-effect w e s a)),
      )

  Posted-balance :
      (w : World) (e : JournalEntry) (s s' : LedgerStore) (n : ℕ) (a : Uuid)
      (x : Result LedgerError ℕ × LedgerStore)
      → Posted P w e s x
      → known_key w e.idempotency_key s ≡ none
      → ◌≡◌ {A = Result LedgerError ℕ × LedgerStore} x (ok n, s')
      → (n ≡ s.next_sequence) × (balance a s' ≡ balance a s +ℤ entry_effect s.accounts a e)
  Posted-balance w e s s' n a _ (Posted.refused z) new q = absurd (ground arith)
  Posted-balance w e s s' n a _ (Posted.known m v k) new q = absurd (ground arith)
  Posted-balance w e s s' n a _ (Posted.passed x v k h h' y) new q =
      Written-balance w e s s' n a x y q

  error-same :
      (w : World) (e : JournalEntry) (s s' : LedgerStore) (x : LedgerError)
      (y : Result LedgerError ℕ × LedgerStore)
      → Posted P w e s y
      → ◌≡◌ {A = Result LedgerError ℕ × LedgerStore} y (err x, s')
      → (s' ≡ s) ⊎ (s' ≡ numbered s s'.storage)
  error-same w e s s' x _ (Posted.refused z) q = inl (sym (ap (λ y. y.1) q))
  error-same w e s s' x _ (Posted.known n v k) q = absurd (ground arith)
  error-same w e s s' x _ (Posted.passed _ v k h h' (Written.lost z d)) q =
      let same : numbered s d ≡ s' = ap (λ y. y.1) q in inr (rw⁻¹ same refl)
  error-same w e s s' x _ (Posted.passed _ v k h h' (Written.written bytes d)) q =
      absurd (ground arith)

module _ (P : Platform) (S : Ed25519) (B : Bincode) where
  -- An entry whose key is new, and that is posted, gets the next sequence number. An asset or expense
  -- account then has grown by the entry's debits on it less its credits, an account of any other
  -- type by the credits less the debits, and an id without an account by nothing; an entry whose
  -- status is neither `Posted` nor `Reversal` changes no balance.
  pub post_entry-balance :
      (w : World) (e : JournalEntry) (s s' : LedgerStore) (n : ℕ) (a : Uuid)
      → known_key w e.idempotency_key s ≡ none
      → post_entry P S B w e s ≡ (ok n, s')
      → (n ≡ s.next_sequence) × (balance a s' ≡ balance a s +ℤ entry_growth s.accounts a e)
  post_entry-balance w e s s' n a new q =
      let (number, added) = Posted-balance P w e s s' n a _ (post_entry-Posted P S B w e s) new q in
      (number, added ∙ ap (λ x. balance a s +ℤ x) (entry_effect-growth s.accounts a e))

  -- A call of `post_entry` that gives an error has changed nothing, or nothing but the storage and the
  -- sequence counter, which has gone on by one modulo 2 ^ 64: balances, accounts, chain tip, index and
  -- events are as before, whatever failed.
  pub post_entry-error :
      (w : World) (e : JournalEntry) (s s' : LedgerStore) (x : LedgerError)
      → post_entry P S B w e s ≡ (err x, s')
      → (s' ≡ s)
        ⊎ (s' ≡ record s { storage = s'.storage; next_sequence = (s.next_sequence + 1) % 2 ^ 64 })
  post_entry-error w e s s' x q = error-same P w e s s' x _ (post_entry-Posted P S B w e s) q
