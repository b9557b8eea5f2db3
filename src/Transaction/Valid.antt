-- ===== src/Transaction/Valid.antt =====
-- The invariant of `TransactionManager` (manager.rs), and its steps from the opening of the log.
use vector_ledger.Common.{
  arith, ℕ, ◌≡◌, refl, sym, ap, ◌∙◌, List, [], ◌∷◌, ◌++◌, append_assoc, append-nil, some, ok, All,
  Bool-cases, inl, inr, ◌==◌,
}
use vector_ledger.Common.Dict.{Dict, lookup, insert, remove, lookup-insert, lookup-remove}
use vector_ledger.Crypto.Hash.{Platform, hash_bytes}
use vector_ledger.Transaction.Tx.{TxState, Transaction, PendingMutation, push_mutation}
use vector_ledger.Transaction.Verified.{hashes_of}

module _ (P : Platform) where
  -- The running hash has taken the row hashes of the mutations, and these are hashes of the rows.
  abbrev pub IsHashed : Transaction → Type 0
  IsHashed t =
      (t.hasher ≡ hashes_of t.mutations)
      × All (λ (x : PendingMutation). x.row_hash ≡ hash_bytes P x.row_data) t.mutations

  abbrev pub IsOpen : ℕ → Transaction → Type 0
  IsOpen k t = (t.tx_id ≡ k) × (t.state ≡ TxState.active) × IsHashed t

  -- Every transaction of the table is active, under its own id, with a right running hash.
  abbrev pub AreOpen : Dict Transaction → Type 0
  AreOpen d = (k : ℕ) (t : Transaction) → lookup k d ≡ some t → IsOpen k t

  pub AreOpen-insert :
      (k : ℕ) (t : Transaction) (d : Dict Transaction)
      → IsOpen k t
      → AreOpen d
      → AreOpen (insert k t d)
  AreOpen-insert k t d h hd j u e = elim (Bool-cases (j == k)) [
    | inl same ↦
        let key : j ≡ k = ground arith in
        let value : u ≡ t = ground (arith, lookup-insert k j t d) in rw key (rw value h)
    | inr other ↦
        let old : lookup j d ≡ some u = ground (arith, lookup-insert k j t d) in hd j u old
  ]

  pub AreOpen-remove : (k : ℕ) (d : Dict Transaction) → AreOpen d → AreOpen (remove k d)
  AreOpen-remove k d h j u e = elim (Bool-cases (j == k)) [
    | inl same ↦ absurd (ground (arith, lookup-remove k j d))
    | inr other ↦ let old : lookup j d ≡ some u = ground (arith, lookup-remove k j d) in h j u old
  ]

  -- A transaction that leaves the table need not have been open.
  pub AreOpen-replaced :
      (k : ℕ) (t : Transaction) (d : Dict Transaction)
      → AreOpen d
      → AreOpen (remove k (insert k t d))
  AreOpen-replaced k t d h j u e =
      let old : lookup j d ≡ some u =
        ground (arith, lookup-remove k j (insert k t d), lookup-insert k j t d) in
      h j u old

  hashes_of-append :
      (ms : List PendingMutation) (x : PendingMutation)
      → hashes_of (ms ++ x ∷ []) ≡ hashes_of ms ++ x.row_hash
  unfolding hashes_of
  hashes_of-append [] x = append-nil _
  hashes_of-append (m ∷ ms) x =
      ap (λ b. m.row_hash ++ b) (hashes_of-append ms x)
      ∙ sym (append_assoc m.row_hash (hashes_of ms) x.row_hash)

  All-snoc :
      (ms : List PendingMutation) (x : PendingMutation)
      → x.row_hash ≡ hash_bytes P x.row_data
      → All (λ (x : PendingMutation). x.row_hash ≡ hash_bytes P x.row_data) ms
      → All (λ (x : PendingMutation). x.row_hash ≡ hash_bytes P x.row_data) (ms ++ x ∷ [])
  All-snoc [] x hx h = (hx, tt)
  All-snoc (m ∷ ms) x hx h = (h.0, All-snoc ms x hx h.1)

  pub push_mutation-IsOpen :
      (k : ℕ) (x : PendingMutation) (t : Transaction)
      → x.row_hash ≡ hash_bytes P x.row_data
      → IsOpen k t
      → (t' : Transaction) × (push_mutation x t ≡ ok t') × IsOpen k t'
  unfolding push_mutation
  push_mutation-IsOpen k x t hx (i, a, (h, hs)) = (
    record t { mutations = t.mutations ++ x ∷ []; hasher = t.hasher ++ x.row_hash },
    rw a refl,
    (
      i,
      a,
      (
        ap (λ b. b ++ x.row_hash) h ∙ sym (hashes_of-append t.mutations x),
        All-snoc t.mutations x hx hs,
      ),
    ),
  )
