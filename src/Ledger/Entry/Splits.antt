-- ===== src/Ledger/Entry/Splits.antt =====
-- Each field encoder of `canonical_bytes` (entry.rs) can be read back: it is self-delimiting.
use vector_ledger.Common.{
  ℕ, ◌-◌, ◌%◌, ◌^◌, ◌<◌, ◌≡◌, refl, sym, ap, ◌∙◌, [], ◌∷◌, ◌++◌, Option, none, some, arith, length,
  replicate, append_assoc,
}
use vector_ledger.Common.Int.{ℤ, IsI64, i64_as_u64}
use vector_ledger.Common.Bytes.{Bytes, to_le_bytes, to_be_bytes}
use vector_ledger.Common.Encoding.{Splits, split_equal, u64-Splits, uuid-Splits, length-to_be_bytes}
use vector_ledger.Ledger.Account.{Uuid}
use vector_ledger.Ledger.Entry.{DrCr}
use vector_ledger.Ledger.Entry.Canonical.{
  write_bytes, write_opt_bytes, write_opt_uuid, status_u8, dr_cr_u8, write_i64,
}
use vector_ledger.Ledger.Error.{EntryStatus}

i64_bits : (a b : ℤ) → IsI64 a → IsI64 b → i64_as_u64 a ≡ i64_as_u64 b → a ≡ b
i64_bits a b ha hb h = ground arith

i64_bits-lt : (a : ℤ) → IsI64 a → i64_as_u64 a < 256 ^ 8
i64_bits-lt a ha = ground arith

pub i64-Splits : (a b : ℤ) → IsI64 a → IsI64 b → Splits write_i64 a b
unfolding write_i64
i64-Splits a b ha hb r s h =
    let (e, rest) =
      u64-Splits 8 (i64_as_u64 a) (i64_as_u64 b) (i64_bits-lt a ha) (i64_bits-lt b hb) r s h in
    (i64_bits a b ha hb e, rest)

-- The lengths that the encoding tells apart: `u32::MAX` itself marks absence.
abbrev pub Short : Bytes → Type 0
Short d = length d < 2 ^ 32 - 1

abbrev pub ShortOption : Option Bytes → Type 0
ShortOption none = Unit {0}
ShortOption (some d) = Short d

pub write_bytes-Splits : (c d : Bytes) → Short c → Short d → Splits write_bytes c d
unfolding write_bytes
write_bytes-Splits c d hc hd r s h =
    let (lens, rest) =
      u64-Splits 4 (length c % 2 ^ 32) (length d % 2 ^ 32) (omega arith) (omega arith) (c ++ r)
        (d ++ s) (sym (append_assoc _ c r) ∙ h ∙ append_assoc _ d s) in
    split_equal c d r s (omega arith) rest

absent-ne :
    (d : Bytes) (r s : Bytes) → Short d → to_le_bytes 4 (2 ^ 32 - 1) ++ r ≡ write_bytes d ++ s → ⊥
unfolding write_bytes
absent-ne d r s hd h =
    let (lens, rest) =
      u64-Splits 4 (2 ^ 32 - 1) (length d % 2 ^ 32) (omega arith) (omega arith) r (d ++ s)
        (h ∙ append_assoc _ d s) in
    omega arith

pub write_opt_bytes-Splits :
    (c d : Option Bytes) → ShortOption c → ShortOption d → Splits write_opt_bytes c d
unfolding write_opt_bytes
write_opt_bytes-Splits none none hc hd r s h =
    (refl, (split_equal (to_le_bytes 4 (2 ^ 32 - 1)) (to_le_bytes 4 (2 ^ 32 - 1)) r s refl h).1)
write_opt_bytes-Splits none (some d) hc hd r s h = absurd (absent-ne d r s hd h)
write_opt_bytes-Splits (some c) none hc hd r s h = absurd (absent-ne c s r hc (sym h))
write_opt_bytes-Splits (some c) (some d) hc hd r s h =
    let (e, rest) = write_bytes-Splits c d hc hd r s h in (ap some e, rest)

abbrev pub IsUuidOption : Option Uuid → Type 0
IsUuidOption none = Unit {0}
IsUuidOption (some id) = id < 256 ^ 16

flagged : (m : Bytes) (f : ℕ) (r : Bytes) → (m ++ f ∷ []) ++ r ≡ m ++ (f ∷ r)
flagged m f r = append_assoc m (f ∷ []) r

pub write_opt_uuid-Splits :
    (c d : Option Uuid) → IsUuidOption c → IsUuidOption d → Splits write_opt_uuid c d
unfolding write_opt_uuid
write_opt_uuid-Splits none none hc hd r s h =
    (refl, (split_equal (replicate 16 0 ++ 0 ∷ []) (replicate 16 0 ++ 0 ∷ []) r s refl h).1)
write_opt_uuid-Splits none (some d) hc hd r s h =
    let (e, rest) =
      split_equal (replicate 16 0) (to_be_bytes 16 d) (0 ∷ r) (1 ∷ s)
        (sym (length-to_be_bytes 16 d))
        (sym (flagged (replicate 16 0) 0 r) ∙ h ∙ flagged (to_be_bytes 16 d) 1 s) in
    cc
write_opt_uuid-Splits (some c) none hc hd r s h =
    let (e, rest) =
      split_equal (to_be_bytes 16 c) (replicate 16 0) (1 ∷ r) (0 ∷ s) (length-to_be_bytes 16 c)
        (sym (flagged (to_be_bytes 16 c) 1 r) ∙ h ∙ flagged (replicate 16 0) 0 s) in
    cc
write_opt_uuid-Splits (some c) (some d) hc hd r s h =
    let (e, rest) =
      uuid-Splits c d hc hd (1 ∷ r) (1 ∷ s)
        (sym (flagged (to_be_bytes 16 c) 1 r) ∙ h ∙ flagged (to_be_bytes 16 d) 1 s) in
    (ap some e, cc)

pub status_u8-injective : (a b : EntryStatus) → status_u8 a ≡ status_u8 b → a ≡ b
unfolding status_u8
status_u8-injective a b h = ground arith

pub dr_cr_u8-injective : (a b : DrCr) → dr_cr_u8 a ≡ dr_cr_u8 b → a ≡ b
unfolding dr_cr_u8
dr_cr_u8-injective a b h = ground arith
