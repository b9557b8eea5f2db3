-- ===== src/Ledger/Currency/Registry.antt =====
-- What the registry (currency.rs) finds.
use vector_ledger.Common.{ℕ, ◌≡◌, refl, Bool, some, List, [], ◌∷◌, arith, if◌then◌else◌}
use vector_ledger.Common.Bytes.{Bytes, bytes_eq, bytes_eq_iff, to_upper, to_uppercase}
use vector_ledger.Common.Encoding.{bytes_eq_refl}
use vector_ledger.Ledger.Currency.{
  Currency, CurrencyRegistry, new, find_currency, put_currency, register, get, precision,
}

find-put :
    (k j : Bytes) (c : Currency) (m : List (Bytes × Currency))
    → find_currency j (put_currency k c m) ≡ (if bytes_eq j k then some c else find_currency j m)
find-put k j c [] = refl
find-put k j c ((i, d) ∷ m) =
    ground (arith, find-put k j c m, bytes_eq_iff k i, bytes_eq_iff j i, bytes_eq_iff j k)

-- A registration is seen under its own code, in any case of the letters, and hides nothing else:
-- after `register c`, `get` of a code whose upper case is `c.code` gives `c`, and of any other code
-- what it gave before.
pub get-register :
    (code : Bytes) (c : Currency) (r : CurrencyRegistry)
    → get code (register c r) ≡ (if bytes_eq (to_uppercase code) c.code then some c else get code r)
unfolding get register
get-register code c r = find-put c.code (to_uppercase code) c r.currencies

to_upper_twice : (c : ℕ) → to_upper (to_upper c) ≡ to_upper c
unfolding to_upper
to_upper_twice c = ground arith

pub to_uppercase_twice : (b : Bytes) → to_uppercase (to_uppercase b) ≡ to_uppercase b
unfolding to_uppercase
to_uppercase_twice [] = refl
to_uppercase_twice (c ∷ b) = rw (to_upper_twice c, to_uppercase_twice b) refl

-- A currency made by `Currency::new` and registered is found under the code it was made with, and
-- under its upper case, with its precision.
pub precision-register-new :
    (code : Bytes) (p : ℕ) (name : Bytes) (is_crypto : Bool) (r : CurrencyRegistry)
    → (precision code (register (new code p name is_crypto) r) ≡ some p)
      × (precision (to_uppercase code) (register (new code p name is_crypto) r) ≡ some p)
unfolding precision new
precision-register-new code p name is_crypto r =
    let c = new code p name is_crypto in
    let found : get code (register c r) ≡ some c =
      rw (get-register code c r) (rw (bytes_eq_refl (to_uppercase code)) refl) in
    let found_upper : get (to_uppercase code) (register c r) ≡ some c =
      rw (get-register (to_uppercase code) c r)
        (rw (to_uppercase_twice code) (rw (bytes_eq_refl (to_uppercase code)) refl)) in
    (rw (found, precision) refl, rw (found_upper, precision) refl)
