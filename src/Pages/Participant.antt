-- ===== src/Pages/Participant.antt =====
-- The pages of a participant: web/src/app/participants/[pid]/layout.tsx (the frame), page.tsx (the
-- overview), deposit-accounts/page.tsx, ledger/page.tsx and transactions/page.tsx. A block of
-- ledger/page.tsx and a row of deposit-accounts/page.tsx ask for their own data: the answers are
-- functions of the id that they ask with.
use core_banking_system.Prelude.{
  String, Bool, true, false, Option, none, some, List, [], ◌∷◌, length, ◌=?◌, starts_with,
  if◌then◌else◌,
}
use core_banking_system.Prelude.Int.{pos}
use core_banking_system.Enums.{deposit_status_wire, transaction_status_wire}
use core_banking_system.Money.{decimal}
use core_banking_system.Client.{url}
use core_banking_system.Types.Ledger.{Ledger, Subledger, Account, Transaction, Entry, BookBalance}
use core_banking_system.Types.Deposit.{DepositAccount, Balance}
use core_banking_system.Types.Payment.{Participant, Reserve}
use core_banking_system.Ui.Node.{
  Node, nothing, text, money, copy_id, hint, skeleton, link, action, Target, ◌▹◌, each,
}
use core_banking_system.Ui.Parts.{
  Answer, or_error, status_badge, account_type_badge, direction_pill, when_text, or_text,
}
use core_banking_system.Ui.Dates.{Calendar, format_date}
use core_banking_system.Ui.Table.{Column, column, hinted}
use core_banking_system.Pages.Actions.{shows_reverse}
use core_banking_system.Pages.Lists.{listing}

-- A tab of the frame.
pub record Tab : Type 0 where
  pub target : Target
  pub label : String
  pub exact : Bool

abbrev pub tab : Target → String → Tab
tab t label = record { target = t; label = label; exact = false }

unfoldable pub tabs : String → List Tab
tabs pid =
    record { target = "participants" ∷ pid ∷ []; label = "Overview"; exact = true }
    ∷ tab ("participants" ∷ pid ∷ "ledger" ∷ []) "General ledger"
    ∷ tab ("participants" ∷ pid ∷ "transactions" ∷ []) "Transactions"
    ∷ tab ("participants" ∷ pid ∷ "audit" ∷ []) "Audit"
    ∷ tab ("participants" ∷ pid ∷ "deposit-accounts" ∷ []) "Deposit accounts"
    ∷ tab ("participants" ∷ pid ∷ "deposit-audit" ∷ []) "Deposit audit"
    ∷ []

-- Whether a tab is marked, at a path.
unfoldable pub is_active : String → Tab → Bool
unfolding url
is_active pathname t =
    if t.exact then pathname =? url t.target else starts_with pathname (url t.target)

unfoldable pub title : Option Participant → Node
title none = text "Participant"
title (some p) = text p.name ▹ copy_id p.id

unfoldable pub frame : String → Answer Participant → Node → Node
unfolding or_error tabs title
frame pid a children =
    (if a.is_loading then skeleton else title a.result)
    ▹ text "Member bank"
    ▹ or_error a false (each (λ t. link t.target (text t.label)) (tabs pid) ▹ children)

-- The internal accounts of the overview, each with a label and a hint.
unfoldable pub internal_accounts : Option Participant → List (String × String × String)
internal_accounts none = []
internal_accounts (some p) =
    ("Customer subledger", p.customer_subledger, "ledger-vs-subledger")
    ∷ ("Clearing suspense", p.suspense_account, "clearing-suspense")
    ∷ ("Reserve at central bank", p.reserve_account, "reserve-account")
    ∷ ("Settlement (central-bank ledger)", p.settlement_account, "central-bank-reserves")
    ∷ []

unfoldable pub overview : Option Participant → Answer Reserve → Node
unfolding internal_accounts
overview p reserve =
    text "Central-bank reserves"
    ▹ hint "central-bank-reserves"
    ▹ (if reserve.is_loading
        then skeleton
        else money (elim reserve.result [ none ↦ pos 0 | some r ↦ r.reserve ]))
    ▹ text
        "Starts at €0.00. Funding a deposit account raises this in step — funding is modelled as the bank placing cash on reserve."
    ▹ text "Internal accounts"
    ▹ each (λ a. text a.0 ▹ hint a.2 ▹ copy_id a.1) (internal_accounts p)

-- A row of the deposit accounts, with the balance that it asks for.
unfoldable pub deposit_account_row : String → (String → Option Balance) → DepositAccount → Node
unfolding status_badge deposit_status_wire
deposit_account_row pid balance a = link ("participants" ∷ pid ∷ "deposit-accounts" ∷ a.id ∷ []) (
    text a.name
    ▹ status_badge (deposit_status_wire a.status)
    ▹ copy_id a.id
    ▹ money (elim (balance a.id) [ none ↦ pos 0 | some b ↦ b.available ])
    ▹ text "available")

-- `data && data.length > 0 ? data.map(render) : empty`.
unfoldable pub non_empty_or : {A : Type 0} → Option (List A) → Node → (A → Node) → Node
non_empty_or none empty render = empty
non_empty_or (some []) empty render = empty
non_empty_or (some (x ∷ xs)) empty render = each render (x ∷ xs)

unfoldable pub deposit_accounts :
    String → (String → Option Balance) → Answer (List DepositAccount) → Node
unfolding or_error non_empty_or deposit_account_row
deposit_accounts pid balance a =
    text "Deposit accounts"
    ▹ hint "balance-available"
    ▹ action "Open account"
    ▹ or_error a true (
        if a.is_loading
        then skeleton
        else non_empty_or a.result
            (text "No deposit accounts yet. Open one, then fund it to start the money loop.")
            (deposit_account_row pid balance))

-- The chart of accounts.
unfoldable pub account_row : (String → Option BookBalance) → Account → Node
unfolding account_type_badge
account_row balance a =
    text a.name
    ▹ account_type_badge a.account_type
    ▹ copy_id a.id
    ▹ money (elim (balance a.id) [ none ↦ pos 0 | some b ↦ b.balance ])

unfoldable pub subledger_block :
    (String → Answer (List Account)) → (String → Option BookBalance) → Subledger → Node
unfolding non_empty_or account_row
subledger_block accounts balance s =
    text s.name
    ▹ copy_id s.id
    ▹ action "Account"
    ▹ (if (accounts s.id).is_loading
        then skeleton
        else non_empty_or (accounts s.id).result (text "No accounts yet.") (account_row balance))

unfoldable pub ledger_block :
    (String → Answer (List Subledger))
    → (String → Answer (List Account))
    → (String → Option BookBalance)
    → Ledger
    → Node
unfolding non_empty_or subledger_block
ledger_block subledgers accounts balance l =
    text l.name
    ▹ copy_id l.id
    ▹ action "Subledger"
    ▹ (if (subledgers l.id).is_loading
        then skeleton
        else non_empty_or (subledgers l.id).result (text "No subledgers yet.")
            (subledger_block accounts balance))

unfoldable pub chart :
    Answer (List Ledger)
    → (String → Answer (List Subledger))
    → (String → Answer (List Account))
    → (String → Option BookBalance)
    → Node
unfolding or_error non_empty_or ledger_block
chart ledgers subledgers accounts balance =
    text "Chart of accounts"
    ▹ hint "ledger-vs-subledger"
    ▹ action "Ledger"
    ▹ or_error ledgers true (
        if ledgers.is_loading
        then skeleton
        else non_empty_or ledgers.result
            (text "No ledgers yet. Create one to start building the chart of accounts.")
            (ledger_block subledgers accounts balance))

unfoldable pub transaction_columns : Calendar → List (Column Transaction)
unfolding status_badge transaction_status_wire decimal or_text format_date
transaction_columns cal =
    column "ID" (λ t. copy_id t.id)
    ∷ column "Status" (λ t. status_badge (transaction_status_wire t.status))
    ∷ column "Legs" (λ t. text (decimal (length t.entries)))
    ∷ column "Description" (λ t. text (or_text t.description "—"))
    ∷ hinted "Value date" "value-date" (λ t. text (format_date cal (some t.value_date)))
    ∷ []

unfoldable pub leg_line : Entry → Node
unfolding direction_pill
leg_line e = direction_pill e.direction ▹ copy_id e.account_id ▹ money e.amount

-- The dialog of the selected transaction.
unfoldable pub transaction_dialog : Option Transaction → Node
unfolding or_text when_text status_badge transaction_status_wire leg_line shows_reverse
transaction_dialog none = nothing
transaction_dialog (some t) =
    text "Transaction"
    ▹ copy_id t.id
    ▹ text (or_text t.description "No description")
    ▹ status_badge (transaction_status_wire t.status)
    ▹ when_text t.reversal_of (λ id. text "reversal of" ▹ copy_id id)
    ▹ each leg_line t.entries
    ▹ (if shows_reverse t.status
        then text "Made an error?" ▹ hint "reversal" ▹ action "Reverse"
        else nothing)

-- A click on a row selects it, which opens the dialog: no row leads to another page.
unfoldable pub transactions : Calendar → Answer (List Transaction) → Option Transaction → Node
unfolding listing transaction_columns transaction_dialog
transactions cal a selected =
    text "Transactions"
    ▹ action "Post transaction"
    ▹ listing (transaction_columns cal) a
        "No transactions yet. Post one to see double-entry in action." none
    ▹ transaction_dialog selected
