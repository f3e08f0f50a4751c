-- ===== src/Pages/Details.antt =====
-- The detail pages of the network: web/src/app/schemes/page.tsx, web/src/app/settlements/[sid]/page.tsx,
-- web/src/app/cycles/[cid]/page.tsx and web/src/app/payments/[payid]/page.tsx.
use core_banking_system.Prelude.{
  String, Bool, true, false, Option, none, some, List, [], ◌∷◌, length, ◌+s◌, truthy, or_else, ◌=?◌,
  if◌then◌else◌,
}
use core_banking_system.Prelude.Int.{ℤ}
use core_banking_system.Enums.{
  payment_status_wire, cycle_status_wire, scheme_direction_wire, settlement_model_wire,
}
use core_banking_system.Money.{decimal}
use core_banking_system.Types.Payment.{ClearingCycle, Payment, Settlement, Scheme}
use core_banking_system.Ui.Node.{
  Node, nothing, text, money, amount, copy_id, hint, skeleton, link, action, ◌▹◌, each,
}
use core_banking_system.Ui.Parts.{
  Answer, page_header, labelled, or_error, detail, status_badge, when_text,
}
use core_banking_system.Ui.Dates.{Calendar, format_date_time}
use core_banking_system.Ui.Table.{Column, hinted, data_table}
use core_banking_system.Pages.Actions.{
  can_reject, can_return, shows_close_cycle, shows_settle_cycle,
}
use core_banking_system.Pages.NetPositions.{NetPosition, rows}

abbrev pub position_columns : List (Column NetPosition)
position_columns =
    hinted "Participant" "net-positions" (λ r. copy_id r.participant)
    ∷ hinted "Net position" "netting" (λ r. amount r.amount true)
    ∷ []

unfoldable pub net_positions_table : Option (List (String × ℤ)) → Node
unfolding data_table rows
net_positions_table positions =
    data_table position_columns (some (rows positions)) false
      (text "No net positions yet — close the cycle to compute them.") none

abbrev yes_no : Bool → String
yes_no b = if b then "Yes" else "No"

unfoldable pub scheme_card : Scheme → Node
unfolding labelled scheme_direction_wire settlement_model_wire
scheme_card s =
    text s.id
    ▹ labelled "Direction"
        (some (
          if scheme_direction_wire s.direction =? "Push"
          then "scheme-direction-push"
          else "scheme-direction-pull"))
        (text (scheme_direction_wire s.direction))
    ▹ labelled "Settlement model"
        (some (
          if settlement_model_wire s.settlement_model =? "Net"
          then "settlement-model-net"
          else "settlement-model-gross"))
        (text (settlement_model_wire s.settlement_model))
    ▹ labelled "Requires mandate" (some "requires-mandate") (text (yes_no s.requires_mandate))
    ▹ labelled "Allows return" (some "allows-return") (text (yes_no s.allows_return))
    ▹ labelled "Settlement delay" (some "settlement-delay") (text s.settlement_delay)

unfoldable pub schemes : Answer (List Scheme) → Node
unfolding page_header or_error scheme_card
schemes a =
    page_header "Payment schemes" (some "clearing-vs-settlement")
      (some
        "Each scheme is a payment product with its own rules. Direction governs who initiates; money always flows debtor → creditor.")
      nothing
    ▹ or_error a false
        (if a.is_loading then skeleton ▹ skeleton else each scheme_card (or_else a.result []))

-- The settlement of a cycle, if it has one.
unfoldable pub settlement_link : Option String → Node
settlement_link none = text "—"
settlement_link (some sid) =
    if truthy sid then link ("settlements" ∷ sid ∷ []) (text sid) else text "—"

unfoldable pub payment_links : List String → Node
payment_links [] = text "No payments routed into this cycle."
payment_links (p ∷ ps) = each (λ id. link ("payments" ∷ id ∷ []) (text id)) (p ∷ ps)

module _ (cal : Calendar) where
  unfoldable pub settlement_content : Settlement → Node
  unfolding net_positions_table format_date_time
  settlement_content s =
      text "Settlement"
      ▹ copy_id s.id
      ▹ text "Details"
      ▹ text "Cycle"
      ▹ link ("cycles" ∷ s.cycle_id ∷ []) (text s.cycle_id)
      ▹ text "Settlement tx"
      ▹ copy_id s.settlement_tx
      ▹ text "Value date"
      ▹ text (format_date_time cal (some s.value_date))
      ▹ text "Net positions settled"
      ▹ hint "net-positions"
      ▹ net_positions_table (some s.net_positions)

  unfoldable pub settlement : Answer Settlement → Node
  unfolding detail settlement_content
  settlement a =
      link ("settlements" ∷ []) (text "Settlements") ▹ detail a skeleton settlement_content

  unfoldable pub cycle_content : ClearingCycle → Node
  unfolding shows_close_cycle shows_settle_cycle status_badge cycle_status_wire net_positions_table
      format_date_time decimal settlement_link payment_links
  cycle_content c =
      text ("Cycle " +s c.scheme)
      ▹ copy_id c.id
      ▹ status_badge (cycle_status_wire c.status)
      ▹ (if shows_close_cycle c.status then action "Close & net" else nothing)
      ▹ (if shows_settle_cycle c.status then action "Settle" else nothing)
      ▹ text "Timeline"
      ▹ text "Opened"
      ▹ text (format_date_time cal (some c.opened_at))
      ▹ text "Closed"
      ▹ text (format_date_time cal c.closed_at)
      ▹ text "Settlement"
      ▹ settlement_link c.settlement_id
      ▹ text "Net positions"
      ▹ hint "net-positions"
      ▹ net_positions_table c.net_positions
      ▹ text ("Payments (" +s (decimal (length c.payment_ids) +s ")"))
      ▹ payment_links c.payment_ids

  unfoldable pub cycle : Answer ClearingCycle → Node
  unfolding detail cycle_content
  cycle a = link ("cycles" ∷ []) (text "Clearing cycles") ▹ detail a skeleton cycle_content

  unfoldable pub payment_content : Option (List Scheme) → Payment → Node
  unfolding can_reject can_return status_badge payment_status_wire labelled when_text
      format_date_time
  payment_content known p =
      text "Payment"
      ▹ copy_id p.id
      ▹ status_badge (payment_status_wire p.status)
      ▹ (if can_reject (some p) then action "Reject" else nothing)
      ▹ (if can_return known (some p) then action "Return" else nothing)
      ▹ text "Details"
      ▹ labelled "Scheme" none (text p.scheme)
      ▹ labelled "Amount" none (money p.amount)
      ▹ when_text p.mandate_id (λ id. labelled "Mandate" (some "requires-mandate") (copy_id id))
      ▹ when_text p.end_to_end_id (λ id. labelled "End-to-end ID" none (text id))
      ▹ when_text p.description (λ d. labelled "Description" none (text d))
      ▹ when_text p.reject_reason (λ r. labelled "Reason" none (text r))
      ▹ labelled "Value date" (some "value-date") (text (format_date_time cal (some p.value_date)))
      ▹ text "Parties & legs"
      ▹ labelled "Debtor" (some "debtor-leg")
          (copy_id p.debtor.participant ▹ copy_id p.debtor.account)
      ▹ labelled "Creditor" (some "creditor-leg")
          (copy_id p.creditor.participant ▹ copy_id p.creditor.account)
      ▹ when_text p.debtor_leg_tx (λ id. labelled "Debtor leg tx" none (copy_id id))
      ▹ when_text p.creditor_leg_tx (λ id. labelled "Creditor leg tx" none (copy_id id))
      ▹ when_text p.cycle_id (λ id.
        labelled "Clearing cycle" (some "clearing-vs-settlement")
          (link ("cycles" ∷ id ∷ []) (text id)))

  unfoldable pub payment : Option (List Scheme) → Answer Payment → Node
  unfolding detail payment_content
  payment known a =
      link ("payments" ∷ []) (text "Payments") ▹ detail a skeleton (payment_content known)
