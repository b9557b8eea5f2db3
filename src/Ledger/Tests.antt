-- ===== src/Ledger/Tests.antt =====
-- Tests of amounts and of currencies, and the theorems at concrete inputs.
use vector_ledger.Common.{true}
use vector_ledger.Common.Bytes.{codes}
use vector_ledger.Ledger.Currency.{Currency}

-- A currency whose code is in lower case, as a literal may give it.
abbrev token : Currency
token = record { code = codes "tok"; precision = 4; name = codes "Token"; is_crypto = true }
