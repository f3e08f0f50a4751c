-- ===== src/Tests/Pages.antt =====
-- The actions of the pages at concrete inputs.
use core_banking_system.Prelude.{◌≡◌, false, none, [], some, is_some, ◌||◌}
use core_banking_system.Prelude.Int.{pos}
use core_banking_system.Enums.{
  DepositStatus, mark_dormant, HoldStatus, PaymentStatus, CycleStatus, TransactionStatus,
}
use core_banking_system.Types.Payment.{Payment}
use core_banking_system.Backend.Lifecycle.{
  set_status, may_close, may_end_hold, may_reject, passes_return_guards, may_close_cycle,
  may_settle_cycle, may_reverse,
}
use core_banking_system.Pages.Actions.{
  shows_fund_and_close, shows_hold_actions, can_reject, can_return, shows_close_cycle,
  shows_settle_cycle, shows_reverse,
}
use core_banking_system.Pages.Offers.{
  offers, is_cleared, offers-set_status, can_reject-may_reject, can_return-passes_return_guards,
  shows-guards,
}

abbrev pub cleared_payment : Payment
cleared_payment = record {
  id = "pay1";
  scheme = "sct";
  debtor = record { participant = "p1"; account = "d1"; iban = none };
  creditor = record { participant = "p2"; account = "d2"; iban = none };
  amount = pos 250;
  mandate_id = none;
  end_to_end_id = none;
  status = PaymentStatus.cleared;
  reject_reason = none;
  cycle_id = none;
  booking_date = "";
  value_date = "";
  description = none;
  metadata = none;
  debtor_leg_tx = none;
  creditor_leg_tx = none;
  created_at = "";
}

offers-set_status_example :
    offers DepositStatus.active mark_dormant
    ≡ is_some (set_status mark_dormant DepositStatus.active)
offers-set_status_example = offers-set_status DepositStatus.active mark_dormant

can_reject-may_reject_example :
    (can_reject (some cleared_payment)
      ≡ (may_reject PaymentStatus.cleared || is_cleared PaymentStatus.cleared))
    × (may_reject PaymentStatus.cleared ≡ false)
can_reject-may_reject_example = can_reject-may_reject cleared_payment

can_return-passes_return_guards_example :
    can_return (some []) (some cleared_payment)
    ≡ passes_return_guards [] "sct" PaymentStatus.cleared
can_return-passes_return_guards_example = can_return-passes_return_guards [] cleared_payment

shows-guards_example :
    (shows_fund_and_close DepositStatus.frozen ≡ may_close DepositStatus.frozen)
    × (shows_hold_actions HoldStatus.captured ≡ may_end_hold HoldStatus.captured)
    × (shows_close_cycle CycleStatus.closed ≡ may_close_cycle CycleStatus.closed)
    × (shows_settle_cycle CycleStatus.closed ≡ may_settle_cycle CycleStatus.closed)
    × (shows_reverse TransactionStatus.posted ≡ may_reverse TransactionStatus.posted)
shows-guards_example =
    shows-guards DepositStatus.frozen HoldStatus.captured CycleStatus.closed
      TransactionStatus.posted
