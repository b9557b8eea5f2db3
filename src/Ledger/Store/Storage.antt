-- ===== src/Ledger/Store/Storage.antt =====
-- crates/vledger-ledger/src/store.rs: the durable write of a row, `persist_row` and `persist_row_pair`. A row
-- goes to a page of its own (crates/vledger-pages/src/page.rs) and, in a transaction, to the log.
use vector_ledger.Common.{
  ℕ, ◌+◌, ◌%◌, ◌^◌, List, [], ◌∷◌, ◌++◌, Bool, not, Option, none, some, ltb, ◌==◌, if◌then◌else◌,
  length,
}
use vector_ledger.Common.Action.{Action, ◌>>=◌, ◌>>◌, pure, gets, modify, throw_if, zoom}
use vector_ledger.Common.Bytes.{Bytes, codes}
use vector_ledger.Crypto.Hash.{Platform, Hash}
use vector_ledger.Crypto.Sign.{Ed25519}
use vector_ledger.Ledger.Error.{LedgerError}
use vector_ledger.Ledger.Store.Records.{table_accounts}
use vector_ledger.Transaction.Manager.{TransactionManager, begin, add_mutation, commit}
use vector_ledger.Transaction.Tx.{TxError}
use vector_ledger.Wal.Record.{MutationKind}

-- A page with one row.
pub record WrittenPage : Type 0 where
  pub table_id : ℕ
  pub page_id : ℕ
  pub row : Bytes

-- The pages in the order of their writes: a later one lies over an earlier one of its table and id.
pub record Storage : Type 0 where
  pub tx_manager : TransactionManager
  pub page_store : List WrittenPage
  pub next_account_page : ℕ
  pub next_entry_page : ℕ

-- The bytes of an empty page that are free: the page less its header.
abbrev pub page_free_bytes : ℕ
page_free_bytes = 8126

-- A slot takes an entry of four bytes in the directory.
abbrev pub page_full : Bytes → Bool
page_full row = ltb page_free_bytes (4 + length row)

abbrev pub on_manager :
    {A : Type 0} → Action TransactionManager TxError A → Action Storage LedgerError A
on_manager m =
    zoom (λ (d : Storage). d.tx_manager) (λ t d. record d { tx_manager = t })
      LedgerError.transaction m

abbrev pub cursor_of : ℕ → Storage → ℕ
cursor_of table d = if table == table_accounts then d.next_account_page else d.next_entry_page

abbrev pub set_cursor : ℕ → ℕ → Storage → Storage
set_cursor table c d =
    if table == table_accounts
    then record d { next_account_page = c }
    else record d { next_entry_page = c }

-- The first argument says whether the page store takes the page with an id. The slot is the first of
-- the page.
unfoldable pub write_to_page : (ℕ → Bool) → ℕ → Bytes → ℕ → Action Storage LedgerError (ℕ × ℕ × ℕ)
write_to_page takes table row cursor = do
  throw_if (page_full row) LedgerError.serialization
  throw_if (not (takes cursor)) LedgerError.serialization
  modify (λ (d : Storage). record d {
    page_store = d.page_store ++ record { table_id = table; page_id = cursor; row = row } ∷ [];
  })
  pure (cursor, 0, (cursor + 1) % 2 ^ 64)

module _ (P : Platform) (S : Ed25519) where
  unfoldable pub persist_row :
      (ℕ → Bool) → ℕ → Bytes → MutationKind → Option Hash → Action Storage LedgerError (ℕ × ℕ)
  unfolding write_to_page begin add_mutation commit
  persist_row takes table row kind prev = do
    cursor ← gets (cursor_of table)
    at ← write_to_page takes table row cursor
    modify (set_cursor table at.2)
    tx_id ← on_manager (begin none)
    on_manager (add_mutation P S tx_id table at.0 at.1 kind row prev)
    on_manager (commit P S tx_id)
    pure (at.0, at.1)

  unfoldable pub persist_row_pair :
      (ℕ → Bool) → ℕ → Bytes → Option Hash → ℕ → Bytes → Action Storage LedgerError (Unit {0})
  unfolding write_to_page begin add_mutation commit
  persist_row_pair takes table_a row_a prev_a table_b row_b = do
    cursor_a ← gets (λ (d : Storage). d.next_entry_page)
    a ← write_to_page takes table_a row_a cursor_a
    modify (λ (d : Storage). record d { next_entry_page = a.2 })
    cursor_b ← gets (λ (d : Storage). d.next_entry_page)
    b ← write_to_page takes table_b row_b cursor_b
    modify (λ (d : Storage). record d { next_entry_page = b.2 })
    tx_id ← on_manager (begin (some (codes "reversal")))
    on_manager (add_mutation P S tx_id table_a a.0 a.1 MutationKind.insert row_a prev_a)
    on_manager (add_mutation P S tx_id table_b b.0 b.1 MutationKind.insert row_b none)
    on_manager (commit P S tx_id)
