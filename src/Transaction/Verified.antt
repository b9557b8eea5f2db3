-- ===== src/Transaction/Verified.antt =====
-- The verification (recovery.rs) of the records that `commit` (manager.rs) writes.
use vector_ledger.Common.{
  ==_refl, arith, ℕ, ◌%◌, ◌^◌, ◌≡◌, refl, sym, ap, suc, List, [], ◌∷◌, ◌++◌, map, Option, none,
  some, true, length, ok,
}
use vector_ledger.Common.Bytes.{Bytes, bytes_eq, to_le_bytes}
use vector_ledger.Common.Encoding.{bytes_eq_refl}
use vector_ledger.Crypto.Hash.{Platform}
use vector_ledger.Crypto.Sign.{Ed25519, Honest}
use vector_ledger.Wal.Record.{Body, WalRecord, CommitPayload}
use vector_ledger.Wal.Recovery.{
  decoded, row_hashes, check_signature, verify_commit_signature, verify_commit_full,
}
use vector_ledger.Transaction.Tx.{Transaction, PendingMutation, tx_hash}
use vector_ledger.Transaction.Manager.{payload_of, commit_signature, commit_payload}
use vector_ledger.Transaction.Records.{AreRows}

-- The row hashes of the mutations, joined: the input of the running hash.
unfoldable pub hashes_of : List PendingMutation → Bytes
hashes_of [] = []
hashes_of (m ∷ ms) = m.row_hash ++ hashes_of ms

module _ (tx_id : ℕ) where
  row_hashes-AreRows :
      (ms : List PendingMutation) (rs : List WalRecord)
      → AreRows tx_id ms rs
      → row_hashes rs ≡ ok (hashes_of ms)
  unfolding row_hashes hashes_of
  row_hashes-AreRows [] [] h = refl
  row_hashes-AreRows [] (r ∷ rs) h = absurd h
  row_hashes-AreRows (m ∷ ms) [] h = absurd h
  row_hashes-AreRows (m ∷ ms) (r ∷ rs) (i, b, h) = rw b (rw (row_hashes-AreRows ms rs h) refl)

  pub decoded-AreRows :
      (ms : List PendingMutation) (rs : List WalRecord)
      → AreRows tx_id ms rs
      → decoded rs ≡ map payload_of ms
  unfolding decoded
  decoded-AreRows [] [] h = refl
  decoded-AreRows [] (r ∷ rs) h = absurd h
  decoded-AreRows (m ∷ ms) [] h = absurd h
  decoded-AreRows (m ∷ ms) (r ∷ rs) (i, b, h) = rw b (rw (decoded-AreRows ms rs h) refl)

  pub length-AreRows :
      (ms : List PendingMutation) (rs : List WalRecord)
      → AreRows tx_id ms rs
      → length rs ≡ length ms
  length-AreRows [] [] h = refl
  length-AreRows [] (r ∷ rs) h = absurd h
  length-AreRows (m ∷ ms) [] h = absurd h
  length-AreRows (m ∷ ms) (r ∷ rs) (i, b, h) = ap suc (length-AreRows ms rs h)

module _ (P : Platform) (S : Ed25519) (H : Honest S) where
  check_signature_accepted :
      (r : WalRecord) (p : CommitPayload)
      → length p.signature ≡ 64
      → length p.signer_pubkey ≡ 32
      → S.valid_key p.signer_pubkey ≡ true
      → S.verifies p.signer_pubkey (p.tx_hash ++ to_le_bytes 4 p.record_count) p.signature ≡ true
      → check_signature S r p ≡ ok tt
  unfolding check_signature
  check_signature_accepted r p size key_size valid accepted = ground arith

  check_signature-commit_payload :
      (r : WalRecord) (key : Option Bytes) (t : Transaction)
      → check_signature S r (commit_payload P S key t) ≡ ok tt
  unfolding check_signature commit_payload commit_signature bytes_eq
  check_signature-commit_payload r none t = refl
  check_signature-commit_payload r (some key) t =
      check_signature_accepted r (commit_payload P S (some key) t) (H.length-sign key _)
        (H.length-public_key key) (H.valid key) (H.accepts key _)

  pub verify_commit_full-commit_payload :
      (tx_id : ℕ) (t : Transaction) (key : Option Bytes) (c : WalRecord) (rs : List WalRecord)
      → AreRows tx_id t.mutations rs
      → t.hasher ≡ hashes_of t.mutations
      → c.body ≡ Body.commit (some (commit_payload P S key t))
      → verify_commit_full P S c rs ≡ ok tt
  unfolding verify_commit_full verify_commit_signature commit_payload tx_hash
  verify_commit_full-commit_payload tx_id t key c rs rows h b = rw b (
      rw (length-AreRows tx_id t.mutations rs rows) (
        rw (row_hashes-AreRows tx_id t.mutations rs rows) (
          rw (==_refl (length t.mutations % 2 ^ 32)) (
            rw (sym h)
              (rw (bytes_eq_refl (P.blake3 t.hasher)) (check_signature-commit_payload c key t))))))
