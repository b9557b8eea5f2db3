-- ===== src/Ledger/Amount.antt =====
-- crates/vledger-ledger/src/amount.rs: money as an `i64` of minor units.
pub mod Arithmetic
use vector_ledger.Common.{Bool, Option, none, some, if◌then◌else◌}
use vector_ledger.Common.Int.{ℤ, pos, ◌+ℤ◌, ◌-ℤ◌, neg, ltb_ℤ, ◌==ℤ◌, fits_i64, i64_min}

pub record Amount : Type 0 where
  pub minor_units : ℤ

-- `i64::checked_*`: the true result if it fits.
abbrev pub checked : ℤ → Option Amount
checked z = if fits_i64 z then some (record { minor_units = z }) else none

unfoldable pub new : ℤ → Option Amount
new z = if z ==ℤ pos 0 then none else some (record { minor_units = z })

pub zero : Amount
zero = record { minor_units = pos 0 }

-- `as_i64` and `as_i128`: the value itself.
abbrev pub as_i64 : Amount → ℤ
as_i64 a = a.minor_units

abbrev pub as_i128 : Amount → ℤ
as_i128 a = a.minor_units

unfoldable pub checked_add : Amount → Amount → Option Amount
checked_add a b = checked (a.minor_units +ℤ b.minor_units)

unfoldable pub checked_sub : Amount → Amount → Option Amount
checked_sub a b = checked (a.minor_units -ℤ b.minor_units)

-- `Neg`, `Add`, `Sub`: `none` is the panic of `expect`.
unfoldable pub negate : Amount → Option Amount
negate a = checked (neg a.minor_units)

unfoldable pub add : Amount → Amount → Option Amount
unfolding checked_add
add a b = checked_add a b

unfoldable pub sub : Amount → Amount → Option Amount
unfolding checked_sub
sub a b = checked_sub a b

-- `i64::abs` in a build without overflow checks: the least value has no positive one and stays.
abbrev pub abs_i64 : ℤ → ℤ
abs_i64 z = if z ==ℤ i64_min then i64_min else (if ltb_ℤ z (pos 0) then neg z else z)

unfoldable pub abs : Amount → Amount
abs a = record { minor_units = abs_i64 a.minor_units }

unfoldable pub is_positive : Amount → Bool
is_positive a = ltb_ℤ (pos 0) a.minor_units

unfoldable pub is_negative : Amount → Bool
is_negative a = ltb_ℤ a.minor_units (pos 0)
