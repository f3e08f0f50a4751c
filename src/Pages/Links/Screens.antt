-- ===== src/Pages/Links/Screens.antt =====
-- The links of each page.
use core_banking_system.Prelude.{◌≡◌, String, true, Option, none, some, List, [], ◌∷◌, every}
use core_banking_system.Types.Ledger.{Transaction}
use core_banking_system.Types.Deposit.{DepositAccount, Hold, Balance, Snapshot}
use core_banking_system.Types.Payment.{
  Participant, Payment, ClearingCycle, Settlement, Scheme, Reserve,
}
use core_banking_system.Ui.Node.{Node, link, targets, each}
use core_banking_system.Ui.Parts.{Answer, page_header, labelled, status_badge, hint_of}
use core_banking_system.Ui.Dates.{Calendar}
use core_banking_system.Pages.Home
use core_banking_system.Pages.Lists
use core_banking_system.Pages.Details
use core_banking_system.Pages.Participant
use core_banking_system.Pages.DepositAccount
use core_banking_system.Pages.Shell
use core_banking_system.Pages.Screen.{Screen, Tabbed, render, render_tabbed, document}
use core_banking_system.Pages.Links.{Leads, link_rules}
use core_banking_system.Pages.Links.Rows.{row_rules}
use core_banking_system.Pages.Links.Resolve.{resolves, Leads-targets}
use core_banking_system.Ui.Node.{text}

Leads-settlement_link : (o : Option String) → Leads (Details.settlement_link o)
unfolding Details.settlement_link
Leads-settlement_link none = tt
Leads-settlement_link (some id) = search link_rules

Leads-payment_links : (ids : List String) → Leads (Details.payment_links ids)
unfolding Details.payment_links
Leads-payment_links [] = tt
Leads-payment_links (p ∷ ps) = search row_rules

Leads-title : (o : Option Participant) → Leads (Participant.title o)
unfolding Participant.title
Leads-title none = tt
Leads-title (some p) = (tt, tt)

Leads-participant_cards :
    (o : Option (List Participant)) (reserves : Option (List Reserve))
    → Leads (Home.participant_cards o reserves)
unfolding Home.participant_cards
Leads-participant_cards none reserves = tt
Leads-participant_cards (some []) reserves = (tt, tt)
Leads-participant_cards (some (p ∷ ps)) reserves = search row_rules

Leads-transaction_dialog : (o : Option Transaction) → Leads (Participant.transaction_dialog o)
unfolding Participant.transaction_dialog status_badge
Leads-transaction_dialog none = tt
Leads-transaction_dialog (some t) = search row_rules

Leads-page_header :
    (title : String) (hint_id : Option String) (description : Option String) (actions : Node)
    → Leads (hint_of hint_id)
    → Leads actions
    → Leads (page_header title hint_id description actions)
unfolding page_header
Leads-page_header title hint_id description actions h k = search (link_rules, h, k)

ruleset page_rules = (
  row_rules, Leads-settlement_link, Leads-payment_links, Leads-title, Leads-participant_cards,
  Leads-transaction_dialog, Leads-page_header,
)

Leads-tabs :
    (pid : String)
    → Leads (each {A = Participant.Tab} (λ t. link t.target (text t.label)) (Participant.tabs pid))
unfolding Participant.tabs each
Leads-tabs pid = search link_rules

Leads-frame :
    (pid : String) (a : Answer Participant) (n : Node) → Leads n → Leads (Participant.frame pid a n)
unfolding Participant.frame
Leads-frame pid a n h = search (page_rules, Leads-tabs, h)

Leads-overview : (p : Option Participant) (r : Answer Reserve) → Leads (Participant.overview p r)
unfolding Participant.overview Participant.internal_accounts each
Leads-overview none r = search link_rules
Leads-overview (some p) r = search link_rules

-- The shell adds links to the lists and to each participant.
Leads-brand : Leads Shell.brand
unfolding Shell.brand
Leads-brand = search link_rules

Leads-nav_links : Leads Shell.nav_links
unfolding Shell.nav_links Shell.network_nav each
Leads-nav_links = search link_rules

module _ (cal : Calendar) where
  Leads-account_content :
      (b : Answer Balance) (holds : Answer (List Hold)) (snapshots : Answer (List Snapshot))
      (a : DepositAccount)
      → Leads (DepositAccount.account_content cal b holds snapshots a)
  unfolding DepositAccount.account_content DepositAccount.balance_card DepositAccount.stat
      DepositAccount.holds_card DepositAccount.snapshots_card status_badge
  Leads-account_content b holds snapshots a = search (row_rules)

  Leads-render_tabbed : (pid : String) (page : Tabbed) → Leads (render_tabbed cal pid page)
  unfolding render_tabbed Participant.chart Participant.transactions Lists.ledger_audit
      Participant.deposit_accounts DepositAccount.deposit_account Lists.deposit_audit
  Leads-render_tabbed pid (Tabbed.overview p reserve) = Leads-overview p reserve
  Leads-render_tabbed pid (Tabbed.chart ledgers subledgers accounts balance) = search row_rules
  Leads-render_tabbed pid (Tabbed.transactions a selected) = search page_rules
  Leads-render_tabbed pid (Tabbed.ledger_audit entity a) = search page_rules
  Leads-render_tabbed pid (Tabbed.deposit_accounts balance a) = search page_rules
  Leads-render_tabbed pid (Tabbed.deposit_account a balance holds snapshots) =
      search (row_rules, Leads-account_content)
  Leads-render_tabbed pid (Tabbed.deposit_audit a) = search page_rules

  Leads-settlement_content : (s : Settlement) → Leads (Details.settlement_content cal s)
  unfolding Details.settlement_content
  Leads-settlement_content s = search row_rules

  Leads-cycle_content : (c : ClearingCycle) → Leads (Details.cycle_content cal c)
  unfolding Details.cycle_content status_badge
  Leads-cycle_content c = search page_rules

  Leads-payment_content :
      (known : Option (List Scheme)) (p : Payment) → Leads (Details.payment_content cal known p)
  unfolding Details.payment_content labelled status_badge
  Leads-payment_content known p = search page_rules

  Leads-render : (s : Screen) → Leads (render cal s)
  unfolding render Home.home Lists.central_bank Details.schemes Lists.mandates Lists.payments
      Details.payment Lists.cycles Details.cycle Lists.settlements Details.settlement
  Leads-render (Screen.home participants reserves) = search page_rules
  Leads-render (Screen.central_bank reserves audit) = search page_rules
  Leads-render (Screen.schemes a) = search page_rules
  Leads-render (Screen.mandates a) = search page_rules
  Leads-render (Screen.payments a) = search page_rules
  Leads-render (Screen.payment known a) = search (page_rules, Leads-payment_content)
  Leads-render (Screen.cycles a) = search page_rules
  Leads-render (Screen.cycle a) = search (page_rules, Leads-cycle_content)
  Leads-render (Screen.settlements a) = search page_rules
  Leads-render (Screen.settlement a) = search (page_rules, Leads-settlement_content)
  Leads-render (Screen.of_participant pid a page) =
      Leads-frame pid a _ (Leads-render_tabbed pid page)

  Leads-document : (ps : Option (List Participant)) (s : Screen) → Leads (document cal ps s)
  unfolding document Shell.app_shell Shell.switcher
  Leads-document ps s = search (link_rules, Leads-brand, Leads-nav_links, Leads-render)

  -- On every page, whatever its queries have answered, each link whose ids are path segments has the text
  -- of an existing page's path.
  pub resolves-document :
      (ps : Option (List Participant)) (s : Screen)
      → every resolves (targets (document cal ps s)) ≡ true
  resolves-document ps s = Leads-targets (document cal ps s) (Leads-document ps s)
