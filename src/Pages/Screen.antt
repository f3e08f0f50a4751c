-- ===== src/Pages/Screen.antt =====
-- The pages of web/src/app as one type, each with the answers that its hooks give, inside the shell of
-- web/src/app/layout.tsx.
use core_banking_system.Prelude.{String, Option, List}
use core_banking_system.Types.Ledger.{
  Ledger, Subledger, Account, Transaction, AuditEvent, BookBalance,
}
use core_banking_system.Types.Deposit.{DepositAccount, Hold, Balance, Snapshot}
use core_banking_system.Types.Payment.{
  Participant, Payment, Mandate, ClearingCycle, Settlement, Scheme, Reserve,
}
use core_banking_system.Ui.Node.{Node}
use core_banking_system.Ui.Parts.{Answer}
use core_banking_system.Ui.Dates.{Calendar}
use core_banking_system.Pages.Home
use core_banking_system.Pages.Lists
use core_banking_system.Pages.Details
use core_banking_system.Pages.Participant
use core_banking_system.Pages.DepositAccount
use core_banking_system.Pages.Shell.{app_shell}

-- A page inside the frame of a participant.
pub data Tabbed : Type 0 where
  overview : Option Participant → Answer Reserve → Tabbed
  chart :
      Answer (List Ledger)
      → (String → Answer (List Subledger))
      → (String → Answer (List Account))
      → (String → Option BookBalance)
      → Tabbed
  transactions : Answer (List Transaction) → Option Transaction → Tabbed
  ledger_audit : String → Answer (List AuditEvent) → Tabbed
  deposit_accounts : (String → Option Balance) → Answer (List DepositAccount) → Tabbed
  deposit_account :
      Answer DepositAccount → Answer Balance → Answer (List Hold) → Answer (List Snapshot) → Tabbed
  deposit_audit : Answer (List AuditEvent) → Tabbed

pub data Screen : Type 0 where
  home : Answer (List Participant) → Option (List Reserve) → Screen
  central_bank : Answer (List Reserve) → Answer (List AuditEvent) → Screen
  schemes : Answer (List Scheme) → Screen
  mandates : Answer (List Mandate) → Screen
  payments : Answer (List Payment) → Screen
  payment : Option (List Scheme) → Answer Payment → Screen
  cycles : Answer (List ClearingCycle) → Screen
  cycle : Answer ClearingCycle → Screen
  settlements : Answer (List Settlement) → Screen
  settlement : Answer Settlement → Screen
  of_participant : String → Answer Participant → Tabbed → Screen

module _ (cal : Calendar) where
  unfoldable pub render_tabbed : String → Tabbed → Node
  unfolding Participant.overview Participant.chart Participant.transactions Lists.ledger_audit
      Participant.deposit_accounts DepositAccount.deposit_account Lists.deposit_audit
  render_tabbed pid (overview p reserve) = Participant.overview p reserve
  render_tabbed pid (chart ledgers subledgers accounts balance) =
      Participant.chart ledgers subledgers accounts balance
  render_tabbed pid (transactions a selected) = Participant.transactions cal a selected
  render_tabbed pid (ledger_audit entity a) = Lists.ledger_audit cal entity a
  render_tabbed pid (deposit_accounts balance a) = Participant.deposit_accounts pid balance a
  render_tabbed pid (deposit_account a balance holds snapshots) =
      DepositAccount.deposit_account cal pid a balance holds snapshots
  render_tabbed pid (deposit_audit a) = Lists.deposit_audit cal a

  unfoldable pub render : Screen → Node
  unfolding Home.home Lists.central_bank Details.schemes Lists.mandates Lists.payments
      Details.payment Lists.cycles Details.cycle Lists.settlements Details.settlement
      Participant.frame render_tabbed
  render (home participants reserves) = Home.home participants reserves
  render (central_bank reserves audit) = Lists.central_bank cal reserves audit
  render (schemes a) = Details.schemes a
  render (mandates a) = Lists.mandates a
  render (payments a) = Lists.payments a
  render (payment known a) = Details.payment cal known a
  render (cycles a) = Lists.cycles cal a
  render (cycle a) = Details.cycle cal a
  render (settlements a) = Lists.settlements cal a
  render (settlement a) = Details.settlement cal a
  render (of_participant pid a page) = Participant.frame pid a (render_tabbed pid page)

  -- A page inside the shell.
  unfoldable pub document : Option (List Participant) → Screen → Node
  unfolding app_shell render
  document participants s = app_shell participants (render s)
