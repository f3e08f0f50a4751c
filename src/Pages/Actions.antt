-- ===== src/Pages/Actions.antt =====
-- The actions that the detail pages offer: web/src/app/participants/[pid]/deposit-accounts/[did]/page.tsx,
-- web/src/app/payments/[payid]/page.tsx, web/src/app/cycles/[cid]/page.tsx,
-- web/src/app/mandates/page.tsx and web/src/app/participants/[pid]/transactions/page.tsx.
use core_banking_system.Prelude.{
  String, Bool, false, not, Option, none, some, List, [], ◌∷◌, ◌&&◌, ◌=?◌, any, find, or_else,
}
use core_banking_system.Enums.{
  DepositStatus, DepositStatusAction, freeze, unfreeze, mark_dormant, reactivate, HoldStatus,
  CycleStatus, MandateStatus, TransactionStatus, deposit_status_wire, hold_status_wire,
  payment_status_wire, mandate_status_wire, cycle_status_wire, transaction_status_wire,
}
use core_banking_system.Types.Payment.{Payment, Scheme}

-- An entry of `STATUS_TRANSITIONS`.
pub record Transition : Type 0 where
  pub action : DepositStatusAction
  pub label : String
  pub description : String

unfoldable pub status_transitions : DepositStatus → List Transition
status_transitions DepositStatus.active =
    record {
      action = freeze;
      label = "Freeze";
      description =
          "Makes the account view-only (a legal or fraud action). No debits or credits until unfrozen.";
    }
    ∷ record {
      action = mark_dormant;
      label = "Mark dormant";
      description =
          "Marks the account inactive. It accepts credits only; an incoming payment reactivates it.";
    }
    ∷ []
status_transitions DepositStatus.frozen =
    record {
      action = unfreeze;
      label = "Unfreeze";
      description = "Returns the account to Active, fully usable again.";
    }
    ∷ []
status_transitions DepositStatus.dormant =
    record {
      action = reactivate;
      label = "Reactivate";
      description = "Returns the dormant account to Active.";
    }
    ∷ []
status_transitions DepositStatus.closed = []

-- `account.status !== "Closed"`: funding and closing are offered.
unfoldable pub shows_fund_and_close : DepositStatus → Bool
unfolding deposit_status_wire
shows_fund_and_close status = not (deposit_status_wire status =? "Closed")

-- `HoldActions`: capture and release are offered.
unfoldable pub shows_hold_actions : HoldStatus → Bool
unfolding hold_status_wire
shows_hold_actions status = hold_status_wire status =? "Active"

-- `canReject`, of a payment that may not be there yet.
unfoldable pub can_reject : Option Payment → Bool
unfolding payment_status_wire
can_reject none = false
can_reject (some p) =
    any (λ x. x =? payment_status_wire p.status) ("Initiated" ∷ "Accepted" ∷ "Cleared" ∷ [])

-- `canReturn`: the payment's scheme, if it is known, allows returns.
unfoldable pub can_return : Option (List Scheme) → Option Payment → Bool
unfolding payment_status_wire
can_return schemes none = false
can_return schemes (some p) =
    (payment_status_wire p.status =? "Settled")
    && elim (find (λ s. s.id =? p.scheme) (or_else schemes [])) [
      | none ↦ false
      | some s ↦ s.allows_return
    ]

-- The buttons of a cycle.
unfoldable pub shows_close_cycle : CycleStatus → Bool
unfolding cycle_status_wire
shows_close_cycle status = cycle_status_wire status =? "Open"

unfoldable pub shows_settle_cycle : CycleStatus → Bool
unfolding cycle_status_wire
shows_settle_cycle status = cycle_status_wire status =? "Closed"

-- `RevokeButton`.
unfoldable pub shows_revoke : MandateStatus → Bool
unfolding mandate_status_wire
shows_revoke status = mandate_status_wire status =? "Active"

-- The reversal of a selected transaction.
unfoldable pub shows_reverse : TransactionStatus → Bool
unfolding transaction_status_wire
shows_reverse status = transaction_status_wire status =? "Posted"
