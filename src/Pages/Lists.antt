-- ===== src/Pages/Lists.antt =====
-- The list screens: web/src/app/central-bank/page.tsx, web/src/app/cycles/page.tsx,
-- web/src/app/mandates/page.tsx, web/src/app/payments/page.tsx, web/src/app/settlements/page.tsx,
-- and the two logs of a participant (audit/page.tsx and deposit-audit/page.tsx).
use core_banking_system.Prelude.{
  String, true, false, Option, none, some, List, [], ◌∷◌, length, truthy, trim, or_undefined,
  if◌then◌else◌,
}
use core_banking_system.Enums.{payment_status_wire, mandate_status_wire, cycle_status_wire}
use core_banking_system.Money.{decimal}
use core_banking_system.Types.Ledger.{AuditEvent}
use core_banking_system.Types.Payment.{Reserve, ClearingCycle, Mandate, Payment, Settlement}
use core_banking_system.Ui.Node.{Node, nothing, text, money, amount, copy_id, action, Target, ◌▹◌}
use core_banking_system.Ui.Parts.{Answer, page_header, or_error, status_badge, hint_of}
use core_banking_system.Ui.Dates.{Calendar, format_date_time}
use core_banking_system.Ui.Table.{Column, column, hinted, data_table}
use core_banking_system.Pages.Actions.{shows_revoke}

-- A table under its error: `error ? <ErrorState/> : <DataTable/>`.
unfoldable pub listing :
    {A : Type 0} → List (Column A) → Answer (List A) → String → Option (A → Target) → Node
unfolding or_error data_table
listing columns a empty on_row_click =
    or_error a true (data_table columns a.result a.is_loading (text empty) on_row_click)

abbrev pub reserve_columns : List (Column Reserve)
reserve_columns =
    column "Participant" (λ r. copy_id r.participant)
    ∷ hinted "Reserve" "reserve-account" (λ r. amount r.reserve false)
    ∷ []

unfoldable pub audit_columns : Calendar → List (Column AuditEvent)
unfolding format_date_time status_badge
audit_columns cal =
    column "When" (λ e. text (format_date_time cal (some e.timestamp)))
    ∷ column "Event" (λ e. status_badge e.event_type)
    ∷ column "Entity" (λ e. copy_id e.entity_id)
    ∷ []

unfoldable pub central_bank : Calendar → Answer (List Reserve) → Answer (List AuditEvent) → Node
unfolding page_header listing audit_columns
central_bank cal reserves audit =
    page_header "Central bank" (some "central-bank-reserves")
      (some
        "Banks meet only here. The central bank holds one reserve account per participant, and settlement is reserves moving between them.")
      nothing
    ▹ text "Reserves"
    ▹ listing reserve_columns reserves "No participants yet. Create one to see its reserve account."
        none
    ▹ text "Audit trail"
    ▹ listing (audit_columns cal) audit
        "No central-bank activity yet. Fund a participant or settle a cycle to see reserve movements."
        none

unfoldable pub cycle_columns : Calendar → List (Column ClearingCycle)
unfolding format_date_time status_badge cycle_status_wire decimal
cycle_columns cal =
    column "ID" (λ c. copy_id c.id)
    ∷ column "Scheme" (λ c. text c.scheme)
    ∷ column "Status" (λ c. status_badge (cycle_status_wire c.status))
    ∷ column "Payments" (λ c. text (decimal (length c.payment_ids)))
    ∷ column "Opened" (λ c. text (format_date_time cal (some c.opened_at)))
    ∷ []

unfoldable pub cycles : Calendar → Answer (List ClearingCycle) → Node
unfolding page_header listing cycle_columns
cycles cal a =
    page_header "Clearing cycles" (some "clearing-vs-settlement")
      (some
        "A cycle batches a scheme's payments. Closing it nets each participant's position; settling moves the net amounts across central-bank reserves.")
      (action "Open cycle")
    ▹ listing (cycle_columns cal) a
        "No cycles yet. Open one for a scheme, then route payments into it."
        (some (λ c. "cycles" ∷ c.id ∷ []))

unfoldable pub revoke_button : Mandate → Node
unfolding shows_revoke
revoke_button m = if shows_revoke m.status then action "Revoke" else text "—"

unfoldable pub mandate_columns : List (Column Mandate)
unfolding status_badge mandate_status_wire revoke_button
mandate_columns =
    column "ID" (λ m. copy_id m.id)
    ∷ column "Debtor" (λ m. copy_id m.debtor.participant)
    ∷ column "Creditor" (λ m. copy_id m.creditor.participant)
    ∷ column "Max amount" (λ m. money m.max_amount)
    ∷ column "Status" (λ m. status_badge (mandate_status_wire m.status))
    ∷ column "" (λ m. revoke_button m)
    ∷ []

unfoldable pub mandates : Answer (List Mandate) → Node
unfolding page_header listing mandate_columns
mandates a =
    page_header "Mandates" (some "mandate")
      (some
        "Standing authorizations that let a creditor pull funds from a debtor — required by pull (direct-debit) schemes.")
      (action "New mandate")
    ▹ listing mandate_columns a "No mandates yet. Create one to enable pull payments." none

unfoldable pub payment_columns : List (Column Payment)
unfolding status_badge payment_status_wire
payment_columns =
    column "ID" (λ p. copy_id p.id)
    ∷ column "Scheme" (λ p. text p.scheme)
    ∷ column "Debtor → Creditor"
        (λ p. copy_id p.debtor.participant ▹ copy_id p.creditor.participant)
    ∷ column "Amount" (λ p. money p.amount)
    ∷ column "Status" (λ p. status_badge (payment_status_wire p.status))
    ∷ []

unfoldable pub payments : Answer (List Payment) → Node
unfolding page_header listing payment_columns
payments a =
    page_header "Payments" (some "payment-lifecycle")
      (some
        "Every payment moves money debtor → creditor under a scheme, then progresses through its lifecycle: initiated → accepted → cleared → settled.")
      (action "Initiate payment")
    ▹ listing payment_columns a "No payments yet. Initiate one between two funded participants."
        (some (λ p. "payments" ∷ p.id ∷ []))

unfoldable pub settlement_columns : Calendar → List (Column Settlement)
unfolding format_date_time decimal
settlement_columns cal =
    column "ID" (λ s. copy_id s.id)
    ∷ column "Cycle" (λ s. copy_id s.cycle_id)
    ∷ column "Participants" (λ s. text (decimal (length s.net_positions)))
    ∷ column "Settled" (λ s. text (format_date_time cal (some s.settled_at)))
    ∷ []

unfoldable pub settlements : Calendar → Answer (List Settlement) → Node
unfolding page_header listing settlement_columns
settlements cal a =
    page_header "Settlements" (some "clearing-vs-settlement")
      (some
        "The final, irrevocable movement of money across central-bank reserves that discharges a closed cycle's net positions.")
      nothing
    ▹ listing (settlement_columns cal) a
        "No settlements yet. Close and settle a clearing cycle to create one."
        (some (λ s. "settlements" ∷ s.id ∷ []))

-- The filter that the participant's log asks for: the text of the field, if it is not blank.
unfoldable pub audit_filter : String → Option String
unfolding or_undefined
audit_filter entity = or_undefined (trim entity)

unfoldable pub ledger_audit : Calendar → String → Answer (List AuditEvent) → Node
unfolding listing audit_columns
ledger_audit cal entity a =
    text "Audit trail"
    ▹ hint_of (some "audit-trail")
    ▹ listing (audit_columns cal) a
        (if truthy entity
          then "No events for that entity."
          else "No activity yet. Create accounts or post transactions to populate the log.")
        none

unfoldable pub deposit_audit : Calendar → Answer (List AuditEvent) → Node
unfolding listing audit_columns
deposit_audit cal a =
    text "Deposit audit trail"
    ▹ hint_of (some "audit-trail")
    ▹ listing (audit_columns cal) a
        "No deposit activity yet. Open an account, fund it, or place a hold to populate the log."
        none
