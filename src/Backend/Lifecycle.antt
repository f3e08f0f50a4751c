-- ===== src/Backend/Lifecycle.antt =====
-- The guards on a status that the services behind the handlers check: deposit/register.go for accounts
-- and holds, payment/system.go for payments and cycles, and service.go for reversals.
use core_banking_system.Prelude.{String, Bool, true, false, Option, none, some, List, ◌=?◌, find}
use core_banking_system.Enums.{
  DepositStatus, DepositStatusAction, freeze, unfreeze, mark_dormant, reactivate, HoldStatus,
  PaymentStatus, CycleStatus, TransactionStatus,
}
use core_banking_system.Types.Payment.{Scheme}

-- `Freeze`, `Unfreeze`, `MarkDormant` and `Reactivate`: the new status, or `ErrInvalidStatusTransition`.
unfoldable pub set_status : DepositStatusAction → DepositStatus → Option DepositStatus
set_status freeze DepositStatus.active = some DepositStatus.frozen
set_status unfreeze DepositStatus.frozen = some DepositStatus.active
set_status mark_dormant DepositStatus.active = some DepositStatus.dormant
set_status reactivate DepositStatus.dormant = some DepositStatus.active
set_status _ _ = none

-- The status guard of `Close`.
unfoldable pub may_close : DepositStatus → Bool
may_close DepositStatus.closed = false
may_close _ = true

-- The guard of `ReleaseHold` and `CaptureHold`.
unfoldable pub may_end_hold : HoldStatus → Bool
may_end_hold HoldStatus.active = true
may_end_hold _ = false

-- The guard of `RejectPayment`.
unfoldable pub may_reject : PaymentStatus → Bool
may_reject PaymentStatus.initiated = true
may_reject PaymentStatus.accepted = true
may_reject _ = false

-- The two guards on the scheme and the status at the head of `ReturnPayment`: the scheme is known and
-- allows returns, and the payment is settled. Behind them it can still refuse: an account that is missing,
-- or one of its three postings.
unfoldable pub passes_return_guards : List Scheme → String → PaymentStatus → Bool
passes_return_guards schemes scheme PaymentStatus.settled =
    elim (find (λ s. s.id =? scheme) schemes) [ none ↦ false | some s ↦ s.allows_return ]
passes_return_guards schemes scheme _ = false

-- The guards of `CloseCycle` and of `SettleCycle`.
unfoldable pub may_close_cycle : CycleStatus → Bool
may_close_cycle CycleStatus.open_cycle = true
may_close_cycle _ = false

unfoldable pub may_settle_cycle : CycleStatus → Bool
may_settle_cycle CycleStatus.closed = true
may_settle_cycle _ = false

-- The guard of `ReverseTransaction`.
unfoldable pub may_reverse : TransactionStatus → Bool
may_reverse TransactionStatus.posted = true
may_reverse TransactionStatus.reversed = false
