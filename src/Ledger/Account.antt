-- ===== src/Ledger/Account.antt =====
-- crates/vledger-ledger/src/account.rs: the chart of accounts. An id is the 128-bit number of a UUID.
use vector_ledger.Common.{ℕ, Bool, true, false, Option}
use vector_ledger.Common.Int.{ℤ, pos, negsuc}
use vector_ledger.Common.Bytes.{Bytes, to_uppercase}

abbrev pub Uuid : Type 0
Uuid = ℕ

-- An instant, by the answer of chrono's `timestamp_nanos_opt`: it has nanoseconds since 1970, or it is
-- too far from 1970 for them, and then it stands by its seconds.
pub data DateTime : Type 0 where
  stamped : (nanoseconds : ℤ) → DateTime
  beyond : (seconds : ℤ) → DateTime

pub data AccountType : Type 0 where
  asset liability equity income expense contra suspense : AccountType

unfoldable pub normal_balance_sign : AccountType → ℤ
normal_balance_sign AccountType.asset = pos 1
normal_balance_sign AccountType.expense = pos 1
normal_balance_sign AccountType.liability = negsuc 0
normal_balance_sign AccountType.equity = negsuc 0
normal_balance_sign AccountType.income = negsuc 0
normal_balance_sign AccountType.contra = negsuc 0
normal_balance_sign AccountType.suspense = pos 1

-- `matches!(t, AccountType::Asset | AccountType::Expense)`, which the store writes in many places.
abbrev pub is_debit_normal : AccountType → Bool
is_debit_normal AccountType.asset = true
is_debit_normal AccountType.expense = true
is_debit_normal _ = false

pub data AccountStatus : Type 0 where
  active closed frozen : AccountStatus

pub record Account : Type 0 where
  pub id : Uuid
  pub code : Bytes
  pub name : Bytes
  pub account_type : AccountType
  pub currency_code : Bytes
  pub status : AccountStatus
  pub require_non_negative_balance : Bool
  pub exposure_limit : Option ℤ
  pub require_four_eyes : Bool
  pub parent_id : Option Uuid
  pub created_at : DateTime
  pub domain : Bytes
  pub legal_hold : Bool

-- The fresh id and the time are arguments.
unfoldable pub new : Uuid → DateTime → Bytes → Bytes → AccountType → Bytes → Bytes → Account
unfolding to_uppercase
new id now code name account_type currency_code domain = record {
  id = id;
  code = code;
  name = name;
  account_type = account_type;
  currency_code = to_uppercase currency_code;
  status = AccountStatus.active;
  require_non_negative_balance = true;
  exposure_limit = Option.none;
  require_four_eyes = false;
  parent_id = Option.none;
  created_at = now;
  domain = domain;
  legal_hold = false;
}

abbrev status_is_active : AccountStatus → Bool
status_is_active AccountStatus.active = true
status_is_active _ = false

unfoldable pub is_active : Account → Bool
is_active a = status_is_active a.status
