-- ===== src/Transaction/Tx.antt =====
-- crates/vledger-transaction/src/tx.rs and error.rs: one transaction.
use vector_ledger.Common.{ℕ, List, [], ◌∷◌, ◌++◌, Option, none, some, length, Result, ok, err, ◌>>◌}
use vector_ledger.Common.Bytes.{Bytes}
use vector_ledger.Common.Int.{ℤ}
use vector_ledger.Crypto.Hash.{Platform, Hash}
use vector_ledger.Wal.Record.{MutationKind, WalError}

-- `page` and `io` stand without the error that they wrap.
pub data TxError : Type 0 where
  wal : WalError → TxError
  page io : TxError
  not_found already_committed already_rolled_back serialization_conflict deadlock : ℕ → TxError
  constraint_violation financial_invariant idempotency_key_conflict : Bytes → TxError
  append_only_violation : Bytes → TxError

pub data TxState : Type 0 where
  active committed rolled_back : TxState

pub record PendingMutation : Type 0 where
  pub table_id : ℕ
  pub page_id : ℕ
  pub slot_id : ℕ
  pub kind : MutationKind
  pub row_data : Bytes
  pub row_hash : Hash
  pub prev_hash : Option Hash

-- `hasher` is the input that the running hash has taken.
pub record Transaction : Type 0 where
  pub tx_id : ℕ
  pub snapshot_tx_id : ℕ
  pub state : TxState
  pub started_at : ℤ
  pub description : Option Bytes
  pub mutations : List PendingMutation
  pub hasher : Bytes
  pub idempotency_key : Option Bytes

abbrev pub new : ℕ → ℕ → Option Bytes → ℤ → Transaction
new tx_id snapshot_tx_id description now = record {
  tx_id = tx_id;
  snapshot_tx_id = snapshot_tx_id;
  state = TxState.active;
  started_at = now;
  description = description;
  mutations = [];
  hasher = [];
  idempotency_key = none;
}

abbrev pub ensure_active_in : TxState → ℕ → Result TxError (Unit {0})
ensure_active_in TxState.active n = ok tt
ensure_active_in TxState.committed n = err (TxError.already_committed n)
ensure_active_in TxState.rolled_back n = err (TxError.already_rolled_back n)

abbrev pub ensure_active : Transaction → Result TxError (Unit {0})
ensure_active t = ensure_active_in t.state t.tx_id

unfoldable pub push_mutation : PendingMutation → Transaction → Result TxError Transaction
push_mutation m t = do
  ensure_active t
  ok (record t { mutations = t.mutations ++ m ∷ []; hasher = t.hasher ++ m.row_hash })

unfoldable pub with_idempotency_key : Bytes → Transaction → Result TxError Transaction
with_idempotency_key key t = do ensure_active t; ok (record t { idempotency_key = some key })

unfoldable pub tx_hash : Platform → Transaction → Hash
tx_hash P t = P.blake3 t.hasher

unfoldable pub mark_committed : Transaction → Result TxError Transaction
mark_committed t = do ensure_active t; ok (record t { state = TxState.committed })

-- The mutations go; the running hash stays.
unfoldable pub mark_rolled_back : Transaction → Result TxError Transaction
mark_rolled_back t = do
  ensure_active t
  ok (record t { state = TxState.rolled_back; mutations = [] })

abbrev pub mutation_count : Transaction → ℕ
mutation_count t = length t.mutations
