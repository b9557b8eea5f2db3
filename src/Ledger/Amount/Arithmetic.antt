-- ===== src/Ledger/Amount/Arithmetic.antt =====
-- Checked arithmetic on amounts (amount.rs).
use vector_ledger.Common.{◌≡◌, some, arith}
use vector_ledger.Common.Int.{ℤ, ◌+ℤ◌, ◌-ℤ◌, IsI64, int_laws}
use vector_ledger.Ledger.Amount.{Amount, checked, checked_add, checked_sub}

checked-eq-some : (z : ℤ) (c : Amount) → checked z ≡ some c → c.minor_units ≡ z
checked-eq-some z c h = ground arith

checked-fits : (z : ℤ) → IsI64 z → checked z ≡ some (record { minor_units = z })
checked-fits z h = ground arith

add_sub : (a b : ℤ) → (a +ℤ b) -ℤ b ≡ a
add_sub a b = omega int_laws

-- Checked subtraction takes back what checked addition put in: if `a + b` does not overflow, then
-- subtracting `b` from the sum gives the amount `a` again. The amount `a` is taken to be an `i64`.
pub checked_sub-checked_add :
    (a b c : Amount) → IsI64 a.minor_units → checked_add a b ≡ some c → checked_sub c b ≡ some a
unfolding checked_add checked_sub
checked_sub-checked_add a b c fits h =
    rw (checked-eq-some (a.minor_units +ℤ b.minor_units) c h)
      (rw (add_sub a.minor_units b.minor_units) (checked-fits a.minor_units fits))
