-- ===== src/Types/Payment.antt =====
-- The payment layer of web/src/lib/types.ts.
use core_banking_system.Prelude.{String, Option, List, Bool}
use core_banking_system.Prelude.Int.{ℤ}
use core_banking_system.Enums.{
  PaymentStatus, MandateStatus, CycleStatus, SchemeDirection, SettlementModel,
}

pub record Participant : Type 0 where
  pub id : String
  pub name : String
  pub customer_subledger : String
  pub suspense_account : String
  pub reserve_account : String
  pub settlement_account : String

pub record PartyRef : Type 0 where
  pub participant : String
  pub account : String
  pub iban : Option String

pub record Payment : Type 0 where
  pub id : String
  pub scheme : String
  pub debtor : PartyRef
  pub creditor : PartyRef
  pub amount : ℤ
  pub mandate_id : Option String
  pub end_to_end_id : Option String
  pub status : PaymentStatus
  pub reject_reason : Option String
  pub cycle_id : Option String
  pub booking_date : String
  pub value_date : String
  pub description : Option String
  pub metadata : Option (List (String × String))
  pub debtor_leg_tx : Option String
  pub creditor_leg_tx : Option String
  pub created_at : String

pub record Mandate : Type 0 where
  pub id : String
  pub debtor : PartyRef
  pub creditor : PartyRef
  pub max_amount : ℤ
  pub status : MandateStatus
  pub created_at : String

pub record ClearingCycle : Type 0 where
  pub id : String
  pub scheme : String
  pub status : CycleStatus
  pub payment_ids : List String
  pub net_positions : Option (List (String × ℤ))
  pub opened_at : String
  pub closed_at : Option String
  pub settlement_id : Option String

pub record Settlement : Type 0 where
  pub id : String
  pub cycle_id : String
  pub net_positions : List (String × ℤ)
  pub settlement_tx : String
  pub value_date : String
  pub settled_at : String

pub record Scheme : Type 0 where
  pub id : String
  pub direction : SchemeDirection
  pub settlement_model : SettlementModel
  pub requires_mandate : Bool
  pub allows_return : Bool
  pub settlement_delay : String

pub record Reserve : Type 0 where
  pub participant : String
  pub reserve : ℤ
