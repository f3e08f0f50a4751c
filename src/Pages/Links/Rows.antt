-- ===== src/Pages/Links/Rows.antt =====
-- The links of the rows and the cards that the pages repeat.
use core_banking_system.Prelude.{Option, none, some, List, [], ◌∷◌}
use core_banking_system.Types.Ledger.{
  Ledger, Subledger, Account, Transaction, AuditEvent, Entry, BookBalance,
}
use core_banking_system.Types.Deposit.{DepositAccount, Hold, Balance, Snapshot}
use core_banking_system.Types.Payment.{
  Participant, Payment, Mandate, ClearingCycle, Settlement, Scheme, Reserve,
}
use core_banking_system.Prelude.{String}
use core_banking_system.Prelude.Int.{ℤ}
use core_banking_system.Ui.Node.{Node, text, each}
use core_banking_system.Ui.Parts.{
  Answer, labelled, status_badge, account_type_badge, direction_pill,
}
use core_banking_system.Ui.Dates.{Calendar}
use core_banking_system.Ui.Table.{item_row}
use core_banking_system.Pages.NetPositions.{NetPosition}
use core_banking_system.Pages.Home
use core_banking_system.Pages.Lists
use core_banking_system.Pages.Details
use core_banking_system.Pages.Participant
use core_banking_system.Pages.DepositAccount
use core_banking_system.Pages.Links.{
  Leads, link_rules, leads_payment, leads_participant, leads_deposit_account, Leads-when_text,
  Leads-if, Leads-each, Leads-non_empty_or, Leads-data_table,
}

pub Leads-participant_card :
    (rs : Option (List Reserve)) (p : Participant) → Leads (Home.participant_card rs p)
unfolding Home.participant_card
Leads-participant_card rs p = (leads_participant p.id, (tt, (tt, (tt, (tt, tt)))))

pub Leads-payment_link : (id : String) → Leads (Node.link ("payments" ∷ id ∷ []) (text id))
Leads-payment_link id = (leads_payment id, tt)

pub Leads-scheme_card : (s : Scheme) → Leads (Details.scheme_card s)
unfolding Details.scheme_card labelled
Leads-scheme_card s = search link_rules

pub Leads-revoke_button : (m : Mandate) → Leads (Lists.revoke_button m)
unfolding Lists.revoke_button
Leads-revoke_button m = search link_rules

pub Leads-reserve_row : (r : Reserve) → Leads (item_row Lists.reserve_columns none r)
unfolding item_row each
Leads-reserve_row r = (tt, (tt, tt))

pub Leads-mandate_row : (m : Mandate) → Leads (item_row Lists.mandate_columns none m)
unfolding item_row Lists.mandate_columns each status_badge
Leads-mandate_row m = (tt, (tt, (tt, (tt, (tt, (Leads-revoke_button m, tt))))))

pub Leads-payment_row :
    (p : Payment) → Leads (item_row Lists.payment_columns (some (λ q. "payments" ∷ q.id ∷ [])) p)
unfolding item_row Lists.payment_columns each status_badge
Leads-payment_row p = search link_rules

pub Leads-position_row : (p : NetPosition) → Leads (item_row Details.position_columns none p)
unfolding item_row each
Leads-position_row p = (tt, (tt, tt))

pub Leads-net_positions_table :
    (o : Option (List (String × ℤ))) → Leads (Details.net_positions_table o)
unfolding Details.net_positions_table
Leads-net_positions_table o = search (link_rules, Leads-position_row)

pub Leads-account_row :
    (balance : String → Option BookBalance) (a : Account)
    → Leads (Participant.account_row balance a)
unfolding Participant.account_row account_type_badge
Leads-account_row balance a = (tt, (tt, (tt, tt)))

pub Leads-subledger_block :
    (accounts : String → Answer (List Account)) (balance : String → Option BookBalance)
    (s : Subledger)
    → Leads (Participant.subledger_block accounts balance s)
unfolding Participant.subledger_block
Leads-subledger_block accounts balance s = search (link_rules, Leads-account_row)

pub Leads-ledger_block :
    (subledgers : String → Answer (List Subledger)) (accounts : String → Answer (List Account))
    (balance : String → Option BookBalance) (l : Ledger)
    → Leads (Participant.ledger_block subledgers accounts balance l)
unfolding Participant.ledger_block
Leads-ledger_block subledgers accounts balance l = search (link_rules, Leads-subledger_block)

pub Leads-deposit_account_row :
    (pid : String) (balance : String → Option Balance) (a : DepositAccount)
    → Leads (Participant.deposit_account_row pid balance a)
unfolding Participant.deposit_account_row status_badge
Leads-deposit_account_row pid balance a =
    (leads_deposit_account pid a.id, (tt, (tt, (tt, (tt, tt)))))

pub Leads-leg_line : (e : Entry) → Leads (Participant.leg_line e)
unfolding Participant.leg_line direction_pill
Leads-leg_line e = (tt, (tt, tt))

pub Leads-hold_actions : (h : Hold) → Leads (DepositAccount.hold_actions h)
unfolding DepositAccount.hold_actions
Leads-hold_actions h = search link_rules

module _ (cal : Calendar) where
  pub Leads-audit_row : (e : AuditEvent) → Leads (item_row (Lists.audit_columns cal) none e)
  unfolding item_row Lists.audit_columns each status_badge
  Leads-audit_row e = (tt, (tt, (tt, tt)))

  pub Leads-cycle_row :
      (c : ClearingCycle)
      → Leads (item_row (Lists.cycle_columns cal) (some (λ d. "cycles" ∷ d.id ∷ [])) c)
  unfolding item_row Lists.cycle_columns each status_badge
  Leads-cycle_row c = search link_rules

  pub Leads-settlement_row :
      (s : Settlement)
      → Leads (item_row (Lists.settlement_columns cal) (some (λ t. "settlements" ∷ t.id ∷ [])) s)
  unfolding item_row Lists.settlement_columns each
  Leads-settlement_row s = search link_rules

  pub Leads-transaction_row :
      (t : Transaction) → Leads (item_row (Participant.transaction_columns cal) none t)
  unfolding item_row Participant.transaction_columns each status_badge
  Leads-transaction_row t = (tt, (tt, (tt, (tt, (tt, tt)))))

  pub Leads-hold_row : (h : Hold) → Leads (item_row (DepositAccount.hold_columns cal) none h)
  unfolding item_row DepositAccount.hold_columns each status_badge
  Leads-hold_row h = (tt, (tt, (tt, (tt, (Leads-hold_actions h, tt)))))

  pub Leads-snapshot_row :
      (s : Snapshot) → Leads (item_row (DepositAccount.snapshot_columns cal) none s)
  unfolding item_row DepositAccount.snapshot_columns each
  Leads-snapshot_row s = (tt, (tt, (tt, (tt, tt))))

pub ruleset row_rules = (
  link_rules, Leads-participant_card, Leads-payment_link, Leads-scheme_card, Leads-reserve_row,
  Leads-mandate_row, Leads-payment_row, Leads-net_positions_table, Leads-ledger_block,
  Leads-deposit_account_row, Leads-leg_line, Leads-audit_row, Leads-cycle_row, Leads-settlement_row,
  Leads-transaction_row, Leads-hold_row, Leads-snapshot_row,
)
