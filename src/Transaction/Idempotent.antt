-- ===== src/Transaction/Idempotent.antt =====
-- Idempotency keys of transactions (manager.rs).
use vector_ledger.Common.{
  ℕ, ◌≡◌, refl, ap, ◌∙◌, List, some, true, false, Bool-cases, inl, inr, Result, ok, err, arith,
}
use vector_ledger.Common.Bytes.{Bytes}
use vector_ledger.Common.Encoding.{bytes_eq_refl}
use vector_ledger.Common.Dict.{lookup}
use vector_ledger.Crypto.Hash.{Platform}
use vector_ledger.Crypto.Sign.{Ed25519}
use vector_ledger.Transaction.Tx.{TxError, Transaction}
use vector_ledger.Transaction.Manager.{
  TransactionManager, contains, add_key, key_committed, get_active, drop_active, commit,
  set_idempotency_key,
}
use vector_ledger.Transaction.Steps.{IsValid}
use vector_ledger.Transaction.Commit.{Committed, commit-Committed}

contains-add_key : (k : Bytes) (keys : List Bytes) → contains k (add_key (some k) keys) ≡ true
unfolding contains
contains-add_key k keys = elim (Bool-cases (contains k keys)) [
  | inl old ↦ rw old old
  | inr fresh ↦ rw fresh (rw (bytes_eq_refl k) refl)
]

module _ (P : Platform) (S : Ed25519) where
  keys_of :
      (tx_id : ℕ) (t : Transaction) (m : TransactionManager)
      (x : Result TxError (Unit {0}) × TransactionManager)
      → Committed P S tx_id t m x
      → x.0 ≡ ok tt
      → x.1.committed_idempotency_keys ≡ add_key t.idempotency_key m.committed_idempotency_keys
  keys_of tx_id t m (ok u, m') h e = h.2
  keys_of tx_id t m (err x, m') h e = absurd (ground arith)

  writes_nothing :
      (tx_id : ℕ) (t : Transaction) (m : TransactionManager)
      → lookup tx_id m.active ≡ some t
      → key_committed t.idempotency_key m.committed_idempotency_keys ≡ true
      → ((commit P S tx_id m).0 ≡ ok tt) × ((commit P S tx_id m).1.wal ≡ m.wal)
  unfolding commit get_active drop_active
  writes_nothing tx_id t m e done = rw e (rw done (refl, refl))

  refuses :
      (tx_id : ℕ) (k : Bytes) (m : TransactionManager)
      → contains k m.committed_idempotency_keys ≡ true
      → (set_idempotency_key tx_id k m).0 ≡ err (TxError.idempotency_key_conflict k)
  unfolding set_idempotency_key
  refuses tx_id k m used = rw used refl

  spent :
      (tx_id : ℕ) (t : Transaction) (k : Bytes) (m : TransactionManager)
      → IsValid P S m
      → lookup tx_id m.active ≡ some t
      → t.idempotency_key ≡ some k
      → contains k m.committed_idempotency_keys ≡ false
      → (commit P S tx_id m).0 ≡ ok tt
      → contains k (commit P S tx_id m).1.committed_idempotency_keys ≡ true
  spent tx_id t k m h e key fresh done =
      let new : key_committed t.idempotency_key m.committed_idempotency_keys ≡ false =
        rw key fresh in
      let keys =
        keys_of tx_id t m (commit P S tx_id m) (commit-Committed P S tx_id t m h e new) done in
      ap (contains k) (keys ∙ ap (λ o. add_key o m.committed_idempotency_keys) key)
      ∙ contains-add_key k m.committed_idempotency_keys

  -- A second commit under one key writes nothing: after a commit that returned no error, of an open
  -- transaction of a valid manager with a key that this manager has not committed, the next commit, if
  -- it is of a transaction of the table with the same key, returns no error and leaves the log as it
  -- is. The manager is not opened anew between
  -- the two.
  pub commit-idempotent :
      (tx_id other : ℕ) (t u : Transaction) (k : Bytes) (m : TransactionManager)
      → IsValid P S m
      → lookup tx_id m.active ≡ some t
      → t.idempotency_key ≡ some k
      → contains k m.committed_idempotency_keys ≡ false
      → (commit P S tx_id m).0 ≡ ok tt
      → lookup other (commit P S tx_id m).1.active ≡ some u
      → u.idempotency_key ≡ some k
      → ((commit P S other (commit P S tx_id m).1).0 ≡ ok tt)
        × ((commit P S other (commit P S tx_id m).1).1.wal ≡ (commit P S tx_id m).1.wal)
  commit-idempotent tx_id other t u k m h e key fresh done e' key' =
      writes_nothing other u (commit P S tx_id m).1 e'
        (rw key' (spent tx_id t k m h e key fresh done))

  -- After a commit that returned no error, of an open transaction of a valid manager with a new key,
  -- setting the key on any transaction is refused with a conflict.
  set_idempotency_key-refused :
      (tx_id other : ℕ) (t : Transaction) (k : Bytes) (m : TransactionManager)
      → IsValid P S m
      → lookup tx_id m.active ≡ some t
      → t.idempotency_key ≡ some k
      → contains k m.committed_idempotency_keys ≡ false
      → (commit P S tx_id m).0 ≡ ok tt
      → (set_idempotency_key other k (commit P S tx_id m).1).0
        ≡ err (TxError.idempotency_key_conflict k)
  set_idempotency_key-refused tx_id other t k m h e key fresh done =
      refuses other k (commit P S tx_id m).1 (spent tx_id t k m h e key fresh done)
