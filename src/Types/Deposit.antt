-- ===== src/Types/Deposit.antt =====
-- The deposit layer of web/src/lib/types.ts.
use core_banking_system.Prelude.{String, Option}
use core_banking_system.Prelude.Int.{ℤ}
use core_banking_system.Enums.{DepositStatus, HoldStatus}

pub record DepositAccount : Type 0 where
  pub id : String
  pub gl_account : String
  pub name : String
  pub status : DepositStatus
  pub overdraft_limit : ℤ
  pub created_at : String

pub record Hold : Type 0 where
  pub id : String
  pub account_id : String
  pub amount : ℤ
  pub expires_at : Option String
  pub description : Option String
  pub status : HoldStatus
  pub created_at : String

pub record Balance : Type 0 where
  pub book : ℤ
  pub holds : ℤ
  pub available : ℤ

pub record Snapshot : Type 0 where
  pub account_id : String
  pub date : String
  pub balance : Balance
  pub taken_at : String
