-- ===== src/Wal/Writer.antt =====
-- crates/vledger-wal/src/writer.rs: `WalWriter`, over the log as a sequence of slots. Segment files
-- and encryption are below this level: the log is their concatenation.
pub mod Growth
use vector_ledger.Common.{
  ℕ, suc, ◌+◌, List, [], ◌∷◌, ◌++◌, Bool, true, false, Option, none, some, if◌then◌else◌, length,
}
use vector_ledger.Common.Bytes.{Bytes, to_le_bytes}
use vector_ledger.Common.Int.{ℤ}
use vector_ledger.Common.{Result, ok, err}
use vector_ledger.Common.Action.{Action, ◌>>=◌, ◌>>◌, pure, gets}
use vector_ledger.Crypto.Hash.{Hash}
use vector_ledger.Crypto.Sign.{Ed25519}
use vector_ledger.Wal.Record.{WalRecord, Body, CheckpointPayload, WalError, Slot}

pub data WalSyncMode : Type 0 where
  per_record group_commit : WalSyncMode

-- What the disk does with one write: all of it; nothing; a part, and then an error; or all of it
-- with an error of the `fsync` that follows.
pub data Outcome : Type 0 where
  written refused partly unsynced : Outcome

-- What the environment chooses, by the sequence number of the attempt.
pub record Environment : Type 0 where
  pub outcome : ℕ → Outcome
  pub clock : ℕ → ℤ
  pub sync_works : ℕ → Bool

-- `synced` counts the slots that an `fsync` has covered.
pub record WalWriter : Type 0 where
  pub log : List Slot
  pub sequence : ℕ
  pub sync_mode : WalSyncMode
  pub dirty : Bool
  pub synced : ℕ
  pub disk : Environment

abbrev pub put : Slot → WalWriter → WalWriter
put s w = record w { log = w.log ++ s ∷ [] }

abbrev pub sync_all : WalWriter → WalWriter
sync_all w = record w { synced = length w.log }

-- The sync behaviour after a whole write. The `fsync`, and so its error, exists in `PerRecord` mode.
abbrev pub after_write : WalSyncMode → Bool → WalRecord → Action WalWriter WalError WalRecord
after_write WalSyncMode.per_record true r w = (ok r, sync_all w)
after_write WalSyncMode.per_record false r w = (err WalError.io, w)
after_write WalSyncMode.group_commit s r w = (ok r, record w { dirty = true })

abbrev pub write : Outcome → WalRecord → Action WalWriter WalError WalRecord
write Outcome.written r w = after_write w.sync_mode true r (put (Slot.whole r) w)
write Outcome.unsynced r w = after_write w.sync_mode false r (put (Slot.whole r) w)
write Outcome.refused r w = (err WalError.io, w)
write Outcome.partly r w = (err WalError.io, put Slot.torn w)

abbrev pub next_record : ℕ → Body → WalWriter → WalRecord
next_record tx_id body w = record {
  tx_id = tx_id;
  sequence = w.sequence + 1;
  timestamp_ns = w.disk.clock (w.sequence + 1);
  body = body;
}

-- The sequence number is taken before the write, and is not given back when the write fails. Nothing
-- removes what a failed write left in the file.
unfoldable pub append : ℕ → Body → Action WalWriter WalError WalRecord
append tx_id body w =
    write (w.disk.outcome (w.sequence + 1)) (next_record tx_id body w)
      (record w { sequence = w.sequence + 1 })

-- `sync`: in group-commit mode only if a write is not yet covered.
unfoldable pub sync : Action WalWriter WalError (Unit {0})
sync w =
    let works = w.disk.sync_works w.sequence in
    elim w.sync_mode [
      | WalSyncMode.group_commit ↦
          if w.dirty
          then (if works
              then (ok tt, record (sync_all w) { dirty = false })
              else (err WalError.io, w))
          else (ok tt, w)
      | WalSyncMode.per_record ↦ if works then (ok tt, sync_all w) else (err WalError.io, w)
    ]

unfoldable pub checkpoint : Action WalWriter WalError ℕ
checkpoint = do seq ← gets (λ (w : WalWriter). w.sequence); sync; pure seq

module _ (S : Ed25519) where
  -- The signature over the root and the sequence number, with the public key; both empty with no key.
  unfoldable pub root_signature : Hash → ℕ → Option Bytes → Bytes × Bytes
  root_signature root seq none = ([], [])
  root_signature root seq (some key) = (S.sign key (root ++ to_le_bytes 8 seq), S.public_key key)

  unfoldable pub checkpoint_with_merkle_root : Hash → Option Bytes → Action WalWriter WalError ℕ
  unfolding root_signature
  checkpoint_with_merkle_root root key = do
    seq ← gets (λ (w : WalWriter). w.sequence)
    sync
    append 0 (
        Body.checkpoint (record {
          last_committed_sequence = seq;
          page_merkle_root = root;
          root_signature = (root_signature root seq key).0;
          signer_pubkey = (root_signature root seq key).1;
        }))
    pure seq
