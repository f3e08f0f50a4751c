-- ===== src/Pages/Offers.antt =====
-- The actions that the pages offer, against the guards of the backend.
use core_banking_system.Prelude.{◌≡◌, refl, Bool, true, false, ◌||◌, some, List, any, is_some, ◌=?◌}
use core_banking_system.Enums.{
  DepositStatus, DepositStatusAction, freeze, unfreeze, mark_dormant, reactivate, HoldStatus,
  PaymentStatus, CycleStatus, TransactionStatus, action_wire,
}
use core_banking_system.Types.Payment.{Payment, Scheme}
use core_banking_system.Backend.Lifecycle.{
  set_status, may_close, may_end_hold, may_reject, passes_return_guards, may_close_cycle,
  may_settle_cycle, may_reverse,
}
use core_banking_system.Pages.Actions.{
  status_transitions, shows_fund_and_close, shows_hold_actions, can_reject, can_return,
  shows_close_cycle, shows_settle_cycle, shows_reverse,
}

-- Whether the page of an account in a status offers an action.
unfoldable pub offers : DepositStatus → DepositStatusAction → Bool
unfolding action_wire
offers status a = any (λ t. action_wire t.action =? action_wire a) (status_transitions status)

-- The page of a deposit account offers exactly the status changes that the backend accepts in the
-- account's status.
pub offers-set_status :
    (status : DepositStatus) (a : DepositStatusAction)
    → offers status a ≡ is_some (set_status a status)
unfolding offers status_transitions set_status
offers-set_status DepositStatus.active freeze = refl
offers-set_status DepositStatus.active unfreeze = refl
offers-set_status DepositStatus.active mark_dormant = refl
offers-set_status DepositStatus.active reactivate = refl
offers-set_status DepositStatus.dormant freeze = refl
offers-set_status DepositStatus.dormant unfreeze = refl
offers-set_status DepositStatus.dormant mark_dormant = refl
offers-set_status DepositStatus.dormant reactivate = refl
offers-set_status DepositStatus.frozen freeze = refl
offers-set_status DepositStatus.frozen unfreeze = refl
offers-set_status DepositStatus.frozen mark_dormant = refl
offers-set_status DepositStatus.frozen reactivate = refl
offers-set_status DepositStatus.closed freeze = refl
offers-set_status DepositStatus.closed unfreeze = refl
offers-set_status DepositStatus.closed mark_dormant = refl
offers-set_status DepositStatus.closed reactivate = refl

abbrev pub is_cleared : PaymentStatus → Bool
is_cleared PaymentStatus.cleared = true
is_cleared _ = false

reject_of_status :
    (p : Payment) (s : PaymentStatus)
    → can_reject (some (record p { status = s })) ≡ (may_reject s || is_cleared s)
unfolding can_reject may_reject
reject_of_status p PaymentStatus.initiated = refl
reject_of_status p PaymentStatus.accepted = refl
reject_of_status p PaymentStatus.cleared = refl
reject_of_status p PaymentStatus.settled = refl
reject_of_status p PaymentStatus.rejected = refl
reject_of_status p PaymentStatus.returned = refl

-- The page of a payment offers to reject it where the backend accepts that, and also where the payment
-- is cleared, which the backend does not accept.
pub can_reject-may_reject :
    (p : Payment)
    → (can_reject (some p) ≡ (may_reject p.status || is_cleared p.status))
      × (may_reject PaymentStatus.cleared ≡ false)
unfolding may_reject
can_reject-may_reject p = (reject_of_status p p.status, refl)

return_of_status :
    (schemes : List Scheme) (p : Payment) (s : PaymentStatus)
    → can_return (some schemes) (some (record p { status = s }))
      ≡ passes_return_guards schemes p.scheme s
unfolding can_return passes_return_guards
return_of_status schemes p PaymentStatus.initiated = refl
return_of_status schemes p PaymentStatus.accepted = refl
return_of_status schemes p PaymentStatus.cleared = refl
return_of_status schemes p PaymentStatus.settled = refl
return_of_status schemes p PaymentStatus.rejected = refl
return_of_status schemes p PaymentStatus.returned = refl

-- With the backend's schemes at hand, the page of a payment offers to return it exactly where the
-- backend's guards on the scheme and the status let it pass.
pub can_return-passes_return_guards :
    (schemes : List Scheme) (p : Payment)
    → can_return (some schemes) (some p) ≡ passes_return_guards schemes p.scheme p.status
can_return-passes_return_guards schemes p = return_of_status schemes p p.status

close_of_account : (s : DepositStatus) → shows_fund_and_close s ≡ may_close s
unfolding shows_fund_and_close may_close
close_of_account DepositStatus.active = refl
close_of_account DepositStatus.dormant = refl
close_of_account DepositStatus.frozen = refl
close_of_account DepositStatus.closed = refl

end_of_hold : (s : HoldStatus) → shows_hold_actions s ≡ may_end_hold s
unfolding shows_hold_actions may_end_hold
end_of_hold HoldStatus.active = refl
end_of_hold HoldStatus.released = refl
end_of_hold HoldStatus.captured = refl

close_of_cycle : (s : CycleStatus) → shows_close_cycle s ≡ may_close_cycle s
unfolding shows_close_cycle may_close_cycle
close_of_cycle CycleStatus.open_cycle = refl
close_of_cycle CycleStatus.closed = refl
close_of_cycle CycleStatus.settled = refl

settle_of_cycle : (s : CycleStatus) → shows_settle_cycle s ≡ may_settle_cycle s
unfolding shows_settle_cycle may_settle_cycle
settle_of_cycle CycleStatus.open_cycle = refl
settle_of_cycle CycleStatus.closed = refl
settle_of_cycle CycleStatus.settled = refl

reverse_of_transaction : (s : TransactionStatus) → shows_reverse s ≡ may_reverse s
unfolding shows_reverse may_reverse
reverse_of_transaction TransactionStatus.posted = refl
reverse_of_transaction TransactionStatus.reversed = refl

-- Closing an account, ending a hold, closing and settling a cycle and reversing a transaction are each
-- offered exactly in the statuses in which the backend's guard on the status accepts them.
pub shows-guards :
    (account : DepositStatus) (hold : HoldStatus) (cycle : CycleStatus) (tx : TransactionStatus)
    → (shows_fund_and_close account ≡ may_close account)
      × (shows_hold_actions hold ≡ may_end_hold hold)
      × (shows_close_cycle cycle ≡ may_close_cycle cycle)
      × (shows_settle_cycle cycle ≡ may_settle_cycle cycle)
      × (shows_reverse tx ≡ may_reverse tx)
shows-guards account hold cycle tx = (
  close_of_account account,
  end_of_hold hold,
  close_of_cycle cycle,
  settle_of_cycle cycle,
  reverse_of_transaction tx,
)
