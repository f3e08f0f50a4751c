-- ===== src/Enums.antt =====
-- web/src/lib/enums.ts: the string unions that mirror the Go enums, each with its wire value.
pub mod Tone
pub mod Coverage
use core_banking_system.Prelude.{String, List, [], ◌∷◌}

pub data AccountType : Type 0 where
  asset liability equity revenue expense : AccountType

pub data Direction : Type 0 where
  debit credit : Direction

pub data TransactionStatus : Type 0 where
  posted reversed : TransactionStatus

pub data DepositStatus : Type 0 where
  active dormant frozen closed : DepositStatus

pub data DepositStatusAction : Type 0 where
  freeze unfreeze mark_dormant reactivate : DepositStatusAction

pub data HoldStatus : Type 0 where
  active released captured : HoldStatus

pub data PaymentStatus : Type 0 where
  initiated accepted cleared settled rejected returned : PaymentStatus

pub data MandateStatus : Type 0 where
  active revoked : MandateStatus

pub data CycleStatus : Type 0 where
  open_cycle closed settled : CycleStatus

pub data SchemeDirection : Type 0 where
  push pull : SchemeDirection

pub data SettlementModel : Type 0 where
  net gross : SettlementModel

-- The wire values, which are the members of the unions themselves.
unfoldable pub account_type_wire : AccountType → String
account_type_wire asset = "Asset"
account_type_wire liability = "Liability"
account_type_wire equity = "Equity"
account_type_wire revenue = "Revenue"
account_type_wire expense = "Expense"

unfoldable pub direction_wire : Direction → String
direction_wire debit = "Debit"
direction_wire credit = "Credit"

unfoldable pub transaction_status_wire : TransactionStatus → String
transaction_status_wire posted = "Posted"
transaction_status_wire reversed = "Reversed"

unfoldable pub deposit_status_wire : DepositStatus → String
deposit_status_wire DepositStatus.active = "Active"
deposit_status_wire dormant = "Dormant"
deposit_status_wire frozen = "Frozen"
deposit_status_wire DepositStatus.closed = "Closed"

unfoldable pub action_wire : DepositStatusAction → String
action_wire freeze = "freeze"
action_wire unfreeze = "unfreeze"
action_wire mark_dormant = "markDormant"
action_wire reactivate = "reactivate"

unfoldable pub hold_status_wire : HoldStatus → String
hold_status_wire HoldStatus.active = "Active"
hold_status_wire released = "Released"
hold_status_wire captured = "Captured"

unfoldable pub payment_status_wire : PaymentStatus → String
payment_status_wire initiated = "Initiated"
payment_status_wire accepted = "Accepted"
payment_status_wire cleared = "Cleared"
payment_status_wire PaymentStatus.settled = "Settled"
payment_status_wire rejected = "Rejected"
payment_status_wire returned = "Returned"

unfoldable pub mandate_status_wire : MandateStatus → String
mandate_status_wire MandateStatus.active = "Active"
mandate_status_wire revoked = "Revoked"

unfoldable pub cycle_status_wire : CycleStatus → String
cycle_status_wire open_cycle = "Open"
cycle_status_wire CycleStatus.closed = "Closed"
cycle_status_wire CycleStatus.settled = "Settled"

unfoldable pub scheme_direction_wire : SchemeDirection → String
scheme_direction_wire push = "Push"
scheme_direction_wire pull = "Pull"

unfoldable pub settlement_model_wire : SettlementModel → String
settlement_model_wire net = "Net"
settlement_model_wire gross = "Gross"

-- `ACCOUNT_TYPES`, `DIRECTIONS` and `DEPOSIT_STATUS_ACTIONS`, in the order of the menus.
abbrev pub account_types : List AccountType
account_types = asset ∷ liability ∷ equity ∷ revenue ∷ expense ∷ []

abbrev pub directions : List Direction
directions = debit ∷ credit ∷ []

abbrev pub deposit_status_actions : List (DepositStatusAction × String)
deposit_status_actions =
    (freeze, "Freeze")
    ∷ (unfreeze, "Unfreeze")
    ∷ (mark_dormant, "Mark dormant")
    ∷ (reactivate, "Reactivate")
    ∷ []

-- `NORMAL_BALANCE`: the direction that increases each account type.
unfoldable pub normal_balance : AccountType → Direction
normal_balance asset = debit
normal_balance expense = debit
normal_balance liability = credit
normal_balance equity = credit
normal_balance revenue = credit
