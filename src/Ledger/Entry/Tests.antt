-- ===== src/Ledger/Entry/Tests.antt =====
-- Tests of journal entries, and the theorems at concrete entries.
use vector_ledger.Ledger.Entry.Injective.{HasTimes, SameTimes}
use vector_ledger.Common.{Bool-cases, inl, inr}
use vector_ledger.Ledger.Account.{DateTime}
use vector_ledger.Common.{
  ℕ, ◌<◌, ◌≤◌, ◌^◌, ◌≡◌, ◌≢◌, ◌↔◌, ◌⊎◌, refl, false, List, [], ◌∷◌, length, arith, some, none, ok,
}
use vector_ledger.Common.Int.{pos}
use vector_ledger.Common.Bytes.{bytes_eq, codes}
use vector_ledger.Crypto.Hash.{Collision, zero_hash}
use vector_ledger.Crypto.Tests.{toy}
use vector_ledger.Ledger.Entry.{JournalLine, JournalEntry, DrCr}
use vector_ledger.Ledger.Entry.Builder.{
  Call, debits, credits, keyed, new, apply_all, build, added_lines, flows, build-validates,
}
use vector_ledger.Ledger.Entry.Canonical.{canonical_bytes}
use vector_ledger.Ledger.Entry.Hashes.{
  precompute_content_hash, finalize_chain_hash, finalize_hashes, verify_hashes,
}
use vector_ledger.Ledger.Entry.Injective.{LineFits, Fits, SameContent, canonical_bytes-injective}
use vector_ledger.Ledger.Entry.Tamper.{
  finalize_hashes-Fits, verify-finalize_hashes, precomputed_hash_is_stale, chain_hash_commits,
}
use vector_ledger.Ledger.Entry.Validate.{validate, validate_iff, net, totals, totals-IsI128, IsI128}
use vector_ledger.Ledger.Error.{EntryStatus}

abbrev pub line : ℕ → ℕ → DrCr → ℕ → JournalLine
line id account dr_cr n = record {
  id = id;
  account_id = account;
  currency_code = codes "USD";
  amount = record { minor_units = pos n };
  dr_cr = dr_cr;
  memo = none;
}

-- Account 1 pays account 2.
abbrev pub transfer : JournalEntry
transfer = record {
  id = 7;
  sequence = 0;
  status = EntryStatus.posted;
  description = codes "rent";
  lines = line 10 2 DrCr.debit 500 ∷ line 11 1 DrCr.credit 500 ∷ [];
  effective_at = DateTime.stamped (pos 1000);
  posted_at = DateTime.stamped (pos 1001);
  external_ref = none;
  idempotency_key = some (codes "k1");
  reverses_entry_id = none;
  reversed_by_entry_id = none;
  domain = codes "main";
  content_hash = zero_hash;
  prev_hash = zero_hash;
  chain_hash = zero_hash;
  approved_by = none;
  metadata = none;
}

line_fits :
    (id account n : ℕ) (s : DrCr)
    → id < 256 ^ 16
    → account < 256 ^ 16
    → n < 2 ^ 63
    → LineFits (line id account s n)
line_fits id account n s a b c = record {
  id = a;
  account_id = b;
  amount = (omega arith, omega arith);
  currency_code = omega arith;
  memo = tt;
}

pub transfer-Fits : Fits transfer
transfer-Fits = record {
  id = omega arith;
  sequence = omega arith;
  effective_at = omega arith;
  posted_at = omega arith;
  description = omega arith;
  domain = omega arith;
  external_ref = tt;
  idempotency_key = omega arith;
  reverses_entry_id = tt;
  reversed_by_entry_id = tt;
  approved_by = tt;
  metadata = tt;
  line_count = omega arith;
  lines = (
    line_fits 10 2 500 DrCr.debit (omega arith) (omega arith) (omega arith),
    (line_fits 11 1 500 DrCr.credit (omega arith) (omega arith) (omega arith), tt),
  );
}

abbrev calls : List Call
calls =
    debits 10 2 (record { minor_units = pos 5 }) (codes "usd")
    ∷ keyed (codes "k")
    ∷ credits 11 1 (record { minor_units = pos 5 }) (codes "USD")
    ∷ []

build-validates_example :
    (validate (
        build 1
          (DateTime.stamped (pos 9))
          (apply_all calls (new (DateTime.stamped (pos 8)) (codes "d") (codes "m"))))
      ≡ ok tt)
    ↔ ((2 ≤ added_lines calls) × (flows calls ≡ pos 0))
build-validates_example =
    build-validates calls 1 (DateTime.stamped (pos 8)) (DateTime.stamped (pos 9)) (codes "d")
      (codes "m")

validate_iff_example :
    (validate transfer ≡ ok tt) ↔ ((2 ≤ length transfer.lines) × (net transfer.lines ≡ pos 0))
validate_iff_example = validate_iff transfer

totals-IsI128_example :
    IsI128 (totals (pos 0, pos 0) (line 10 2 DrCr.debit 500 ∷ [])).0
    × IsI128 (totals (pos 0, pos 0) (line 10 2 DrCr.debit 500 ∷ [])).1
totals-IsI128_example =
    totals-IsI128 transfer (line 10 2 DrCr.debit 500 ∷ []) (line 11 1 DrCr.credit 500 ∷ []) refl
      (omega arith) (omega arith)

transfer-HasTimes : HasTimes transfer
transfer-HasTimes = ((_, refl), (_, refl))

canonical_bytes-injective_example : SameContent transfer transfer × SameTimes transfer transfer
canonical_bytes-injective_example =
    canonical_bytes-injective transfer transfer transfer-Fits transfer-Fits transfer-HasTimes
      transfer-HasTimes refl

abbrev finished : JournalEntry
unfolding finalize_hashes
finished = finalize_hashes toy transfer zero_hash

finished-Fits : Fits finished
unfolding finished
finished-Fits = finalize_hashes-Fits toy transfer zero_hash transfer-Fits

finished-HasTimes : HasTimes finished
unfolding finished finalize_hashes
finished-HasTimes = elim (Bool-cases (bytes_eq (toy.blake3 (canonical_bytes transfer)) zero_hash)) [
  | inl same ↦ rw same transfer-HasTimes
  | inr other ↦ rw other transfer-HasTimes
]

chain_hash_commits_example :
    (SameContent finished finished
      × SameTimes finished finished
      × (finished.prev_hash ≡ finished.prev_hash))
    ⊎ Collision toy
unfolding finished
chain_hash_commits_example =
    chain_hash_commits toy finished finished finished-Fits finished-Fits finished-HasTimes
      finished-HasTimes refl refl (verify-finalize_hashes toy transfer zero_hash)
      (verify-finalize_hashes toy transfer zero_hash) refl

not_zero : toy.blake3 (canonical_bytes transfer) ≢ zero_hash
unfolding canonical_bytes
not_zero h = cc

precomputed_hash_is_stale_example :
    let posted = record (precompute_content_hash toy transfer) {
      sequence = 3;
      posted_at = DateTime.stamped (pos 2);
    } in
    (verify_hashes toy (finalize_chain_hash toy posted zero_hash) ≡ false) ⊎ Collision toy
precomputed_hash_is_stale_example =
    precomputed_hash_is_stale toy transfer 3 (DateTime.stamped (pos 2)) zero_hash transfer-Fits
      (omega arith) (omega arith) (omega arith) not_zero
