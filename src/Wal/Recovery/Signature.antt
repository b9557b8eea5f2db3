-- ===== src/Wal/Recovery/Signature.antt =====
-- What the verification of a Commit record (recovery.rs) covers.
use vector_ledger.Common.{arith, ◌≡◌, refl, ap, suc, List, [], ◌∷◌, map, some, length}
use vector_ledger.Common.Bytes.{Bytes}
use vector_ledger.Crypto.Hash.{Platform}
use vector_ledger.Crypto.Sign.{Ed25519}
use vector_ledger.Wal.Record.{DataPayload, Body, WalRecord}
use vector_ledger.Wal.Recovery.{row_hashes, decoded, verify_commit_full}

module _ (f : DataPayload → Bytes) where
  -- Data records with other row data. The row hash stays.
  abbrev pub alter : DataPayload → DataPayload
  alter p = record p { row_data = f p }

  abbrev pub alter_body : Body → Body
  alter_body (Body.row (some p)) = Body.row (some (alter p))
  alter_body b = b

  abbrev pub alter_record : WalRecord → WalRecord
  alter_record r = record r { body = alter_body r.body }

  length-alter_record : (rs : List WalRecord) → length (map alter_record rs) ≡ length rs
  length-alter_record [] = refl
  length-alter_record (r ∷ rs) = ap suc (length-alter_record rs)

  row_hashes-alter_record : (rs : List WalRecord) → row_hashes (map alter_record rs) ≡ row_hashes rs
  unfolding row_hashes
  row_hashes-alter_record [] = refl
  row_hashes-alter_record (r ∷ rs) = ground (arith, row_hashes-alter_record rs)

  decoded-alter_record :
      (rs : List WalRecord) → decoded (map alter_record rs) ≡ map alter (decoded rs)
  unfolding decoded
  decoded-alter_record [] = refl
  decoded-alter_record (r ∷ rs) = ground (arith, decoded-alter_record rs)

  -- The verification of a Commit record gives the same result when the row data of the transaction's
  -- Data records is replaced in any way and their row hashes are kept: it compares the stored row
  -- hashes with the signed transaction hash, and never hashes the row data again. The payloads that
  -- recovery then delivers carry the replaced data.
  pub verify_commit_full-alter_record :
      (P : Platform) (S : Ed25519) (r : WalRecord) (raw : List WalRecord)
      → (verify_commit_full P S r (map alter_record raw) ≡ verify_commit_full P S r raw)
        × (decoded (map alter_record raw) ≡ map alter (decoded raw))
  unfolding verify_commit_full
  verify_commit_full-alter_record P S r raw = (
    rw (row_hashes-alter_record raw) (rw (length-alter_record raw) refl),
    decoded-alter_record raw,
  )
