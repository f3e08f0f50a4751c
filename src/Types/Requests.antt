-- ===== src/Types/Requests.antt =====
-- The request bodies of web/src/lib/types.ts. A field that may be left out or be null is an
-- `Optional`, which keeps the two apart, since JSON does.
use core_banking_system.Prelude.{String, List, Option}
use core_banking_system.Prelude.Int.{ℤ}
use core_banking_system.Enums.{AccountType, Direction, DepositStatusAction}
use core_banking_system.Types.Payment.{PartyRef}

-- A field `f?: T | null`.
pub data Optional {ℓ} (A : Type ℓ) : Type ℓ where
  missing : Optional A
  null : Optional A
  given : A → Optional A

pub record NameRequest : Type 0 where
  pub name : String

pub record CreateAccountRequest : Type 0 where
  pub name : String
  pub account_type : AccountType

pub record EntryInput : Type 0 where
  pub account_id : String
  pub amount : ℤ
  pub direction : Direction

pub record PostTransactionRequest : Type 0 where
  pub idempotency_key : String
  pub entries : List EntryInput
  pub booking_date : Optional String
  pub value_date : Optional String
  pub description : Option String
  pub metadata : Optional (List (String × String))

pub record OpenDepositAccountRequest : Type 0 where
  pub name : String
  pub overdraft_limit : ℤ

pub record StatusRequest : Type 0 where
  pub action : DepositStatusAction

pub record CreateHoldRequest : Type 0 where
  pub amount : ℤ
  pub expires_at : Optional String
  pub description : Option String

pub record CaptureHoldRequest : Type 0 where
  pub counterparty : String
  pub amount : ℤ
  pub description : Option String

pub record SnapshotRequest : Type 0 where
  pub date : String

pub record FundRequest : Type 0 where
  pub account : String
  pub amount : ℤ
  pub description : Option String

pub record CreateMandateRequest : Type 0 where
  pub debtor : PartyRef
  pub creditor : PartyRef
  pub max_amount : ℤ

pub record InitiatePaymentRequest : Type 0 where
  pub scheme : String
  pub debtor : PartyRef
  pub creditor : PartyRef
  pub amount : ℤ
  pub mandate_id : Option String
  pub end_to_end_id : Option String
  pub description : Option String
  pub metadata : Optional (List (String × String))

pub record OpenCycleRequest : Type 0 where
  pub scheme : String

pub record ReasonRequest : Type 0 where
  pub reason : String

pub record DescriptionRequest : Type 0 where
  pub description : String
