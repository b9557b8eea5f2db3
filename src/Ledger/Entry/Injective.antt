-- ===== src/Ledger/Entry/Injective.antt =====
-- `canonical_bytes` (entry.rs) loses nothing: equal bytes come from equal contents.
use vector_ledger.Common.{
  ℕ, ◌%◌, ◌^◌, ◌<◌, ◌≡◌, refl, sym, ap, ◌∙◌, List, [], ◌∷◌, arith, length, All, append_assoc,
}
use vector_ledger.Common.Int.{ℤ, IsI64}
use vector_ledger.Common.Bytes.{Bytes}
use vector_ledger.Common.Encoding.{Splits, u64-Splits, uuid-Splits}
use vector_ledger.Ledger.Account.{DateTime}
use vector_ledger.Ledger.Amount.{as_i64}
use vector_ledger.Ledger.Entry.{JournalLine, JournalEntry}
use vector_ledger.Ledger.Entry.Canonical.{
  status_u8, dr_cr_u8, nanos, line_bytes, lines_bytes, canonical_bytes,
}
use vector_ledger.Ledger.Entry.Splits.{
  i64-Splits, Short, ShortOption, IsUuidOption, write_bytes-Splits, write_opt_bytes-Splits,
  write_opt_uuid-Splits, status_u8-injective, dr_cr_u8-injective,
}

-- What the Rust types and a sane size guarantee: ids of 16 bytes, `i64` amounts and nanoseconds, and
-- texts shorter than `u32::MAX`.
pub record LineFits (l : JournalLine) : Type 0 where
  pub id : l.id < 256 ^ 16
  pub account_id : l.account_id < 256 ^ 16
  pub amount : IsI64 l.amount.minor_units
  pub currency_code : Short l.currency_code
  pub memo : ShortOption l.memo

pub record Fits (e : JournalEntry) : Type 0 where
  pub id : e.id < 256 ^ 16
  pub sequence : e.sequence < 256 ^ 8
  pub effective_at : IsI64 (nanos e.effective_at)
  pub posted_at : IsI64 (nanos e.posted_at)
  pub description : Short e.description
  pub domain : Short e.domain
  pub external_ref : ShortOption e.external_ref
  pub idempotency_key : ShortOption e.idempotency_key
  pub reverses_entry_id : IsUuidOption e.reverses_entry_id
  pub reversed_by_entry_id : IsUuidOption e.reversed_by_entry_id
  pub approved_by : ShortOption e.approved_by
  pub metadata : ShortOption e.metadata
  pub line_count : length e.lines < 2 ^ 32
  pub lines : All LineFits e.lines

-- Two entries agree on every field but the three hashes; of an instant only its nanoseconds count.
pub record SameContent (d e : JournalEntry) : Type 0 where
  pub id : d.id ≡ e.id
  pub sequence : d.sequence ≡ e.sequence
  pub status : d.status ≡ e.status
  pub effective_at : nanos d.effective_at ≡ nanos e.effective_at
  pub posted_at : nanos d.posted_at ≡ nanos e.posted_at
  pub description : d.description ≡ e.description
  pub domain : d.domain ≡ e.domain
  pub external_ref : d.external_ref ≡ e.external_ref
  pub idempotency_key : d.idempotency_key ≡ e.idempotency_key
  pub reverses_entry_id : d.reverses_entry_id ≡ e.reverses_entry_id
  pub reversed_by_entry_id : d.reversed_by_entry_id ≡ e.reversed_by_entry_id
  pub approved_by : d.approved_by ≡ e.approved_by
  pub metadata : d.metadata ≡ e.metadata
  pub lines : d.lines ≡ e.lines

-- The instants of an entry have nanoseconds.
abbrev pub HasTimes : JournalEntry → Type 0
HasTimes e =
    ((n : ℤ) × (e.effective_at ≡ DateTime.stamped n))
    × ((n : ℤ) × (e.posted_at ≡ DateTime.stamped n))

-- The same instants.
abbrev pub SameTimes : JournalEntry → JournalEntry → Type 0
SameTimes d e = (d.effective_at ≡ e.effective_at) × (d.posted_at ≡ e.posted_at)

nanos-stamped :
    (t u : DateTime) (n m : ℤ)
    → t ≡ DateTime.stamped n
    → u ≡ DateTime.stamped m
    → nanos t ≡ nanos u
    → t ≡ u
nanos-stamped t u n m e f h =
    let same : n ≡ m = sym (ap nanos e) ∙ h ∙ ap nanos f in e ∙ ap DateTime.stamped same ∙ sym f

pub SameContent-times :
    (d e : JournalEntry) → HasTimes d → HasTimes e → SameContent d e → SameTimes d e
SameContent-times d e ((n, a), (m, b)) ((k, a'), (l, b')) s = (
  nanos-stamped d.effective_at e.effective_at n k a a' s.effective_at,
  nanos-stamped d.posted_at e.posted_at m l b b' s.posted_at,
)

cons_parts : (x y : ℕ) (xs ys : Bytes) → x ∷ xs ≡ y ∷ ys → (x ≡ y) × (xs ≡ ys)
cons_parts x y xs ys h = (cc, cc)

line_eq :
    (k l : JournalLine)
    → k.id ≡ l.id
    → k.account_id ≡ l.account_id
    → k.currency_code ≡ l.currency_code
    → k.amount.minor_units ≡ l.amount.minor_units
    → k.dr_cr ≡ l.dr_cr
    → k.memo ≡ l.memo
    → k ≡ l
line_eq k l h1 h2 h3 h4 h5 h6 = ground arith

line_bytes-Splits : (k l : JournalLine) → LineFits k → LineFits l → Splits line_bytes k l
unfolding line_bytes
line_bytes-Splits k l hk hl r s h =
    let flat = simp append_assoc at h in
    let (e1, h1) = uuid-Splits k.id l.id hk.id hl.id _ _ flat in
    let (e2, h2) = uuid-Splits k.account_id l.account_id hk.account_id hl.account_id _ _ h1 in
    let (e3, h3) = i64-Splits (as_i64 k.amount) (as_i64 l.amount) hk.amount hl.amount _ _ h2 in
    let (e4, h4) = cons_parts (dr_cr_u8 k.dr_cr) (dr_cr_u8 l.dr_cr) _ _ h3 in
    let (e5, h5) =
      write_bytes-Splits k.currency_code l.currency_code hk.currency_code hl.currency_code _ _ h4 in
    let (e6, h6) = write_opt_bytes-Splits k.memo l.memo hk.memo hl.memo r s h5 in
    (line_eq k l e1 e2 e5 e3 (dr_cr_u8-injective k.dr_cr l.dr_cr e4) e6, h6)

lines_bytes-injective :
    (ks ls : List JournalLine)
    → All LineFits ks
    → All LineFits ls
    → length ks ≡ length ls
    → lines_bytes ks ≡ lines_bytes ls
    → ks ≡ ls
unfolding lines_bytes
lines_bytes-injective [] [] hk hl n h = refl
lines_bytes-injective [] (l ∷ ls) hk hl n h = absurd (omega arith)
lines_bytes-injective (k ∷ ks) [] hk hl n h = absurd (omega arith)
lines_bytes-injective (k ∷ ks) (l ∷ ls) hk hl n h =
    let (head, rest) = line_bytes-Splits k l hk.0 hl.0 (lines_bytes ks) (lines_bytes ls) h in
    let tail = lines_bytes-injective ks ls hk.1 hl.1 (omega arith) rest in cc

-- Up to the instants without nanoseconds, which are all written as 0.
pub canonical_bytes-content :
    (d e : JournalEntry) → Fits d → Fits e → canonical_bytes d ≡ canonical_bytes e → SameContent d e
unfolding canonical_bytes
canonical_bytes-content d e hd he h =
    let (v, h0) = cons_parts 1 1 _ _ h in
    let (e1, h1) = uuid-Splits d.id e.id hd.id he.id _ _ h0 in
    let (e2, h2) = u64-Splits 8 d.sequence e.sequence hd.sequence he.sequence _ _ h1 in
    let (e3, h3) = cons_parts (status_u8 d.status) (status_u8 e.status) _ _ h2 in
    let (e4, h4) =
      i64-Splits (nanos d.effective_at) (nanos e.effective_at) hd.effective_at he.effective_at _ _
        h3 in
    let (e5, h5) =
      i64-Splits (nanos d.posted_at) (nanos e.posted_at) hd.posted_at he.posted_at _ _ h4 in
    let (e6, h6) =
      write_bytes-Splits d.description e.description hd.description he.description _ _ h5 in
    let (e7, h7) = write_bytes-Splits d.domain e.domain hd.domain he.domain _ _ h6 in
    let (e8, h8) =
      write_opt_bytes-Splits d.external_ref e.external_ref hd.external_ref he.external_ref _ _ h7 in
    let (e9, h9) =
      write_opt_bytes-Splits d.idempotency_key e.idempotency_key hd.idempotency_key
        he.idempotency_key _ _ h8 in
    let (e10, h10) =
      write_opt_uuid-Splits d.reverses_entry_id e.reverses_entry_id hd.reverses_entry_id
        he.reverses_entry_id _ _ h9 in
    let (e11, h11) =
      write_opt_uuid-Splits d.reversed_by_entry_id e.reversed_by_entry_id hd.reversed_by_entry_id
        he.reversed_by_entry_id _ _ h10 in
    let (e12, h12) =
      write_opt_bytes-Splits d.approved_by e.approved_by hd.approved_by he.approved_by _ _ h11 in
    let (e13, h13) = write_opt_bytes-Splits d.metadata e.metadata hd.metadata he.metadata _ _ h12 in
    let (e14, h14) =
      u64-Splits 4 (length d.lines % 2 ^ 32) (length e.lines % 2 ^ 32) (omega arith) (omega arith)
        (lines_bytes d.lines) (lines_bytes e.lines) h13 in
    let count : length d.lines ≡ length e.lines = omega arith in
    record {
      id = e1;
      sequence = e2;
      status = status_u8-injective d.status e.status e3;
      effective_at = e4;
      posted_at = e5;
      description = e6;
      domain = e7;
      external_ref = e8;
      idempotency_key = e9;
      reverses_entry_id = e10;
      reversed_by_entry_id = e11;
      approved_by = e12;
      metadata = e13;
      lines = lines_bytes-injective d.lines e.lines hd.lines he.lines count h14;
    }

-- If two entries have the same canonical bytes, they agree on every field but the three hashes. Both
-- must fit the encoding: ids of 16 bytes, a `u64` sequence number, `i64` amounts, fewer than 2^32
-- lines, and texts shorter than 2^32 - 1 bytes; and their two times must be instants that chrono gives
-- `i64` nanoseconds for, since all other instants are written as 0.
pub canonical_bytes-injective :
    (d e : JournalEntry)
    → Fits d
    → Fits e
    → HasTimes d
    → HasTimes e
    → canonical_bytes d ≡ canonical_bytes e
    → SameContent d e × SameTimes d e
canonical_bytes-injective d e hd he td te h =
    let same = canonical_bytes-content d e hd he h in (same, SameContent-times d e td te same)
