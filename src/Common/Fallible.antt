-- ===== src/Common/Fallible.antt =====
-- Rust's `Result`, with `?` as bind, and the faults of the world outside.
use mathlib.Core.Bool.{Bool, true, false}
use mathlib.Core.Path.{◌≡◌, refl}
use mathlib.Core.Logic.{◌⊎◌, inl, inr}
use native.Mathlib.Omega.{arith}
use mathlib.Core.Option.{Option, none, some}

pub data Result {ℓ κ} (E : Type κ) (A : Type ℓ) : Type (ℓ ⊔ κ) where
  ok : A → Result E A
  err : E → Result E A

-- What a change of a file or a table does: it works; it fails and nothing changes; it fails after the
-- change. A change in part is left out.
pub data Fault : Type 0 where
  works refused late : Fault

infixl 5 ◌>>=◌ ◌>>◌
abbrev pub ◌>>=◌ {ℓ κ μ} :
    {E : Type κ} {A : Type ℓ} {B : Type μ} → Result E A → (A → Result E B) → Result E B
ok a >>= f = f a
err e >>= f = err e

abbrev pub ◌>>◌ {ℓ κ} : {E : Type κ} {B : Type ℓ} → Result E (Unit {0}) → Result E B → Result E B
m >> k = m >>= λ _. k

-- `if c { return Err(e) }`.
abbrev pub fail_if {κ} : {E : Type κ} → Bool → E → Result E (Unit {0})
fail_if true e = err e
fail_if false e = ok tt

-- `Option::ok_or`.
abbrev pub ok_or {ℓ κ} : {E : Type κ} {A : Type ℓ} → Option A → E → Result E A
ok_or none e = err e
ok_or (some a) e = ok a

pub Result-cases {ℓ κ} :
    {E : Type κ} {A : Type ℓ} (r : Result E A) → ((a : A) × (r ≡ ok a)) ⊎ ((e : E) × (r ≡ err e))
Result-cases (ok a) = inl (a, refl)
Result-cases (err e) = inr (e, refl)

-- Two checks in a row pass if both do.
pub then_ok {κ} :
    {E : Type κ} (m k : Result E (Unit {0})) → m >> k ≡ ok tt → (m ≡ ok tt) × (k ≡ ok tt)
then_ok (ok u) k h = (refl, h)
then_ok (err e) k h = absurd (ground arith)

pub passed_if {κ} : {E : Type κ} (b : Bool) (e : E) → fail_if b e ≡ ok tt → b ≡ false
passed_if false e h = refl
passed_if true e h = absurd (ground arith)
