-- ===== src/Lib.antt =====
-- VectorLedger: an embedded, tamper-evident ledger database (double-entry journal, hash chains, a
-- signed write-ahead log, recovery). This library models its core crates and proves what makes
-- them correct. The model is executable: every operation is a function that runs on concrete values.
--
-- The program's parts and their files here:
--   crates/vledger-crypto (hash.rs, merkle.rs, sign.rs): Crypto. Digests and domain separation in
--     Crypto.Hash, the hash chain (`ChainEntry`, `verify_chain`) in Crypto.Chain, Merkle roots and
--     proofs in Crypto.Merkle.
--   crates/vledger-ledger (amount.rs, currency.rs, account.rs, entry.rs, error.rs): Ledger. Checked
--     i64 amounts in Ledger.Amount, the currency registry in Ledger.Currency, accounts in
--     Ledger.Account, the journal entry in Ledger.Entry with its children: `validate`, the builder,
--     `canonical_bytes`, the content hash and the chain hash.
--   crates/vledger-ledger (store.rs, entry_db.rs): Ledger.Store. The state of `LedgerStore` in
--     Ledger.Store.State, the durable write of a row in Ledger.Store.Storage, the SQLite tables in
--     Ledger.Store.Database, the balance cache in Ledger.Store.Balance, the checks of a posting in
--     Ledger.Store.Check, and the calls in Post, Reverse, Accounts, Settlement, Chain, Snapshot and
--     Reconcile. Ledger.Store.Books compares the state with the journal over all calls.
--   crates/vledger-wal (record.rs, writer.rs, recovery.rs): Wal. The records in Wal.Record, `WalWriter`
--     in Wal.Writer, `recover_streaming` with its verification in Wal.Recovery, and
--     the recovery that collects in Wal.Recovery.Batch.
--   crates/vledger-transaction (tx.rs, manager.rs, mvcc.rs): Transaction. One transaction in
--     Transaction.Tx, `TransactionManager` in Transaction.Manager, row visibility in Transaction.Mvcc.
--   crates/vledger-foureyes (queue.rs, record.rs): FourEyes. The approval queue in FourEyes.Queue, over its
--     files and its index, with restarts; FourEyes.File has the lines of a file, and
--     what each fault of a write leaves there.
--   crates/vledger-audit (event.rs, log.rs, error.rs): Audit. An event with its hashes in Audit.Event,
--     `AuditLog` in Audit.Log, its interleaved steps in Audit.Steps, failed writes in Audit.Faults.
-- How they meet: the manager appends the records of a transaction through the writer, and recovery
-- reads the same log. The store writes each row in a transaction of the manager, then counts the
-- entry in its cache and puts it into the index; its chain hash links it to the entry before.
--
-- How the state stands here: a method on `&mut self` that returns a `Result` is an `Action`
-- (Common.Action): it takes the state, and gives the result with the state after it, which an error
-- does not undo. A `Result` alone is Common.Fallible. A hash map keyed by ids is an association list
-- (Common.Dict). Integers of the machine are natural numbers, or the integers of Common.Int, with the
-- bounds and the wrap-around of their width written out.
--
-- The log is the sequence of the places that the reader stops at (Wal.Record.Slot): a whole record, a
-- place that fails the checks of a torn write, or another error. Segment files, their headers, the
-- encryption and the bincode bytes of a record lie below that level: a payload is the value that
-- bincode writes and reads. What the disk does with each write and each `fsync`, and the clock, are
-- choices of an Environment, by the sequence number of the attempt, so that each theorem holds for
-- all of them. The mode `NoSync`, which only a development build has, is left out.
--
-- A call of the store takes a World (Ledger.Store.State): the time, the new ids, and what the page
-- store and each kind of SQLite statement do in that call. A row of a table stands as the value that
-- its blob decodes to. The totals of a balance in `i128` are integers without a bound, which the
-- `i64` amounts of fewer than 2 ^ 64 lines do not leave.
--
-- Parameters: bincode (Ledger.Store.Records.Bincode), of which nothing is assumed, BLAKE3 with the size of its digests and the printed form of a UUID (Crypto.Hash.Platform),
-- Ed25519 (Crypto.Sign.Ed25519) with its documented behaviour (Crypto.Sign.Honest). Nothing is assumed
-- about collisions: where a theorem rests on their absence, its result is the property or else two
-- different inputs with one digest.
--
-- Recursion is on the structure of the data. The layers of a Merkle tree recur on fuel, the number of
-- the leaves, which is enough because each layer has about half the nodes of the one below it.
--
-- Not modelled: the opening of the store with the replay of the log, its checkpoint and its filtered
-- queries, the migrations and the text index of SQLite, the bytes of pages, the export of the
-- audit log, compliance,
-- index, replication, licences, the SQL engine, and the servers and tools around them.
pub mod Common
pub mod Crypto
pub mod Ledger
pub mod Wal
pub mod Transaction
pub mod FourEyes
pub mod Audit
