-- ===== src/Ledger/Entry/Builder.antt =====
-- `JournalEntryBuilder` (entry.rs). The ids that `Uuid::new_v4` draws and the readings of the clock
-- are arguments.
use vector_ledger.Common.{
  ◌≡◌, ℕ, List, [], ◌∷◌, ◌++◌, Option, none, some, is_some, if◌then◌else◌, arith, ok, ◌+◌, ◌≤◌, ◌↔◌,
  length, length-append,
}
use vector_ledger.Common.Int.{ℤ, pos, neg, ◌+ℤ◌, int_laws, eq→parts}
use vector_ledger.Common.Bytes.{Bytes, to_uppercase}
use vector_ledger.Crypto.Hash.{zero_hash}
use vector_ledger.Ledger.Account.{Uuid, DateTime}
use vector_ledger.Ledger.Amount.{Amount}
use vector_ledger.Ledger.Entry.{JournalLine, JournalEntry, DrCr, signed_amount}
use vector_ledger.Ledger.Entry.Validate.{net, validate, validate_iff}
use vector_ledger.Ledger.Error.{EntryStatus}

pub record JournalEntryBuilder : Type 0 where
  pub description : Bytes
  pub lines : List JournalLine
  pub effective_at : DateTime
  pub external_ref : Option Bytes
  pub idempotency_key : Option Bytes
  pub domain : Bytes
  pub reverses_entry_id : Option Uuid
  pub metadata : Option Bytes

unfoldable pub new : DateTime → Bytes → Bytes → JournalEntryBuilder
new now description domain = record {
  description = description;
  lines = [];
  effective_at = now;
  external_ref = none;
  idempotency_key = none;
  domain = domain;
  reverses_entry_id = none;
  metadata = none;
}

unfoldable pub new_line : DrCr → Uuid → Uuid → Amount → Bytes → JournalLine
unfolding to_uppercase
new_line dr_cr id account_id amount currency = record {
  id = id;
  account_id = account_id;
  currency_code = to_uppercase currency;
  amount = amount;
  dr_cr = dr_cr;
  memo = none;
}

unfoldable pub debit : Uuid → Uuid → Amount → Bytes → JournalEntryBuilder → JournalEntryBuilder
unfolding new_line
debit id account_id amount currency b = record b {
  lines = b.lines ++ new_line DrCr.debit id account_id amount currency ∷ [];
}

unfoldable pub credit : Uuid → Uuid → Amount → Bytes → JournalEntryBuilder → JournalEntryBuilder
unfolding new_line
credit id account_id amount currency b = record b {
  lines = b.lines ++ new_line DrCr.credit id account_id amount currency ∷ [];
}

unfoldable pub effective_at : DateTime → JournalEntryBuilder → JournalEntryBuilder
effective_at dt b = record b { effective_at = dt }

unfoldable pub external_ref : Bytes → JournalEntryBuilder → JournalEntryBuilder
external_ref r b = record b { external_ref = some r }

unfoldable pub idempotency_key : Bytes → JournalEntryBuilder → JournalEntryBuilder
idempotency_key k b = record b { idempotency_key = some k }

unfoldable pub metadata : Bytes → JournalEntryBuilder → JournalEntryBuilder
metadata json b = record b { metadata = some json }

unfoldable pub reverses : Uuid → JournalEntryBuilder → JournalEntryBuilder
reverses entry_id b = record b { reverses_entry_id = some entry_id }

unfoldable pub build : Uuid → DateTime → JournalEntryBuilder → JournalEntry
build id now b = record {
  id = id;
  sequence = 0;
  status = if is_some b.reverses_entry_id then EntryStatus.reversal else EntryStatus.posted;
  description = b.description;
  lines = b.lines;
  effective_at = b.effective_at;
  posted_at = now;
  external_ref = b.external_ref;
  idempotency_key = b.idempotency_key;
  reverses_entry_id = b.reverses_entry_id;
  reversed_by_entry_id = none;
  domain = b.domain;
  content_hash = zero_hash;
  prev_hash = zero_hash;
  chain_hash = zero_hash;
  approved_by = none;
  metadata = b.metadata;
}

net-append : (xs ys : List JournalLine) → net (xs ++ ys) ≡ net xs +ℤ net ys
net-append [] ys = omega int_laws
net-append (x ∷ xs) ys = rw (net-append xs ys) (omega int_laws)

-- Calls that a caller may chain on a builder, to state what any chain builds.
pub data Call : Type 0 where
  debits credits : Uuid → Uuid → Amount → Bytes → Call
  effective : DateTime → Call
  refers keyed annotated : Bytes → Call
  reversing : Uuid → Call

unfoldable pub apply : Call → JournalEntryBuilder → JournalEntryBuilder
unfolding debit credit effective_at external_ref idempotency_key metadata reverses
apply (debits i a x c) = debit i a x c
apply (credits i a x c) = credit i a x c
apply (effective t) = effective_at t
apply (refers r) = external_ref r
apply (keyed k) = idempotency_key k
apply (annotated m) = metadata m
apply (reversing e) = reverses e

unfoldable pub apply_all : List Call → JournalEntryBuilder → JournalEntryBuilder
unfolding apply
apply_all [] b = b
apply_all (c ∷ cs) b = apply_all cs (apply c b)

-- What a call adds to the credits less the debits.
abbrev pub flow : Call → ℤ
flow (debits i a x c) = neg x.minor_units
flow (credits i a x c) = x.minor_units
flow _ = pos 0

abbrev pub flows : List Call → ℤ
flows [] = pos 0
flows (c ∷ cs) = flow c +ℤ flows cs

apply-net : (c : Call) (b : JournalEntryBuilder) → net (apply c b).lines ≡ net b.lines +ℤ flow c
unfolding apply signed_amount
apply-net (debits i a x c) b =
    rw (net-append b.lines (new_line DrCr.debit i a x c ∷ [])) (omega int_laws)
apply-net (credits i a x c) b =
    rw (net-append b.lines (new_line DrCr.credit i a x c ∷ [])) (omega int_laws)
apply-net _ b = omega int_laws

apply_all-net :
    (cs : List Call) (b : JournalEntryBuilder)
    → net (apply_all cs b).lines ≡ net b.lines +ℤ flows cs
unfolding apply_all
apply_all-net [] b = omega int_laws
apply_all-net (c ∷ cs) b = rw (apply_all-net cs (apply c b)) (rw (apply-net c b) (omega int_laws))

-- The lines that a chain of calls adds.
abbrev pub added : Call → ℕ
added (debits i a x c) = 1
added (credits i a x c) = 1
added _ = 0

abbrev pub added_lines : List Call → ℕ
added_lines [] = 0
added_lines (c ∷ cs) = added c + added_lines cs

apply-length :
    (c : Call) (b : JournalEntryBuilder) → length (apply c b).lines ≡ length b.lines + added c
unfolding apply
apply-length (debits i a x c) b =
    omega (arith, length-append b.lines (new_line DrCr.debit i a x c ∷ []))
apply-length (credits i a x c) b =
    omega (arith, length-append b.lines (new_line DrCr.credit i a x c ∷ []))
apply-length _ b = omega arith

apply_all-length :
    (cs : List Call) (b : JournalEntryBuilder)
    → length (apply_all cs b).lines ≡ length b.lines + added_lines cs
unfolding apply_all
apply_all-length [] b = omega arith
apply_all-length (c ∷ cs) b = omega (arith, apply_all-length cs (apply c b), apply-length c b)

-- The entry built by any chain of builder calls passes validation exactly when the chain adds two
-- lines or more and its credited amounts, less its debited amounts, sum to zero. The amounts may be
-- zero or negative: neither the builder nor `validate` looks at their sign.
pub build-validates :
    (cs : List Call) (id : Uuid) (start now : DateTime) (description domain : Bytes)
    → (validate (build id now (apply_all cs (new start description domain))) ≡ ok tt)
      ↔ ((2 ≤ added_lines cs) × (flows cs ≡ pos 0))
unfolding build new
build-validates cs id start now description domain =
    let b = new start description domain in
    let v = validate_iff (build id now (apply_all cs b)) in
    let n : net (apply_all cs b).lines ≡ pos 0 +ℤ flows cs = apply_all-net cs b in
    let l : length (apply_all cs b).lines ≡ added_lines cs = omega (arith, apply_all-length cs b) in
    (
      λ h. (omega (arith, v.0 h), omega (int_laws, eq→parts n, eq→parts (v.0 h).1)),
      λ h. v.1 (omega arith, omega (int_laws, eq→parts n, eq→parts h.1)),
    )
