-- ===== src/Types/Ledger.antt =====
-- The ledger layer of web/src/lib/types.ts.
use core_banking_system.Prelude.{String, Option, List}
use core_banking_system.Prelude.Int.{ℤ}
use core_banking_system.Enums.{AccountType, Direction, TransactionStatus}

pub record Ledger : Type 0 where
  pub id : String
  pub name : String
  pub created_at : String

pub record Subledger : Type 0 where
  pub id : String
  pub ledger_id : String
  pub name : String
  pub created_at : String

pub record Account : Type 0 where
  pub id : String
  pub subledger_id : String
  pub name : String
  pub account_type : AccountType
  pub created_at : String

pub record Entry : Type 0 where
  pub id : Option String
  pub account_id : String
  pub amount : ℤ
  pub direction : Direction

pub record Transaction : Type 0 where
  pub id : String
  pub idempotency_key : Option String
  pub entries : List Entry
  pub booking_date : String
  pub value_date : String
  pub status : TransactionStatus
  pub description : Option String
  pub metadata : Option (List (String × String))
  pub reversal_of : Option String
  pub created_at : String

pub record AuditEvent : Type 0 where
  pub id : String
  pub timestamp : String
  pub event_type : String
  pub entity_id : String

pub record BookBalance : Type 0 where
  pub account_id : String
  pub balance : ℤ
