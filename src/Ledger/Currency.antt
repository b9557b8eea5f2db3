-- ===== src/Ledger/Currency.antt =====
-- crates/vledger-ledger/src/currency.rs: the registry of currencies and their precision.
pub mod Registry
use vector_ledger.Common.{ℕ, Bool, true, false, Option, none, some, List, [], ◌∷◌, if◌then◌else◌}
use vector_ledger.Common.Bytes.{Bytes, codes, bytes_eq, to_uppercase}

pub record Currency : Type 0 where
  pub code : Bytes
  pub precision : ℕ
  pub name : Bytes
  pub is_crypto : Bool

pub new : Bytes → ℕ → Bytes → Bool → Currency
new code precision name is_crypto = record {
  code = to_uppercase code;
  precision = precision;
  name = name;
  is_crypto = is_crypto;
}

-- A `HashMap` from codes to currencies.
pub record CurrencyRegistry : Type 0 where
  pub currencies : List (Bytes × Currency)

abbrev pub find_currency : Bytes → List (Bytes × Currency) → Option Currency
find_currency k [] = none
find_currency k ((j, c) ∷ m) = if bytes_eq k j then some c else find_currency k m

abbrev pub put_currency : Bytes → Currency → List (Bytes × Currency) → List (Bytes × Currency)
put_currency k c [] = (k, c) ∷ []
put_currency k c ((j, d) ∷ m) = if bytes_eq k j then (k, c) ∷ m else (j, d) ∷ put_currency k c m

unfoldable pub register : Currency → CurrencyRegistry → CurrencyRegistry
register c r = record { currencies = put_currency c.code c r.currencies }

unfoldable pub get : Bytes → CurrencyRegistry → Option Currency
get code r = find_currency (to_uppercase code) r.currencies

unfoldable pub precision : Bytes → CurrencyRegistry → Option ℕ
precision code r = elim (get code r) [ none ↦ none | some c ↦ some c.precision ]

abbrev register_all : List Currency → CurrencyRegistry → CurrencyRegistry
unfolding register
register_all [] r = r
register_all (c ∷ cs) r = register_all cs (register c r)

unfoldable pub common_currencies : List Currency
unfolding new
common_currencies =
    new (codes "USD") 2 (codes "US Dollar") false
    ∷ new (codes "EUR") 2 (codes "Euro") false
    ∷ new (codes "GBP") 2 (codes "British Pound") false
    ∷ new (codes "BTC") 8 (codes "Bitcoin") true
    ∷ new (codes "ETH") 18 (codes "Ethereum") true
    ∷ new (codes "USDC") 6 (codes "USD Coin") true
    ∷ new (codes "JPY") 0 (codes "Japanese Yen") false
    ∷ []

-- `CurrencyRegistry::new`: the common currencies are loaded.
unfoldable pub new_registry : CurrencyRegistry
unfolding register common_currencies
new_registry = register_all common_currencies (record { currencies = [] })
