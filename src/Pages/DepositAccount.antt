-- ===== src/Pages/DepositAccount.antt =====
-- web/src/app/participants/[pid]/deposit-accounts/[did]/page.tsx: the page of a deposit account, with its
-- cards.
use core_banking_system.Prelude.{String, none, some, List, [], ◌∷◌, if◌then◌else◌}
use core_banking_system.Prelude.Int.{ℤ, pos}
use core_banking_system.Enums.{deposit_status_wire, hold_status_wire}
use core_banking_system.Types.Deposit.{DepositAccount, Hold, Balance, Snapshot}
use core_banking_system.Ui.Node.{
  Node, nothing, text, money, copy_id, hint, skeleton, link, action, ◌▹◌, each,
}
use core_banking_system.Ui.Parts.{Answer, detail, status_badge, or_text}
use core_banking_system.Ui.Dates.{Calendar, format_date}
use core_banking_system.Ui.Table.{Column, column}
use core_banking_system.Pages.Actions.{status_transitions, shows_fund_and_close, shows_hold_actions}
use core_banking_system.Pages.Lists.{listing}

-- A part of the balance.
unfoldable pub stat : Answer Balance → String → String → (Balance → ℤ) → Node
stat a label hint_id part =
    text label
    ▹ hint hint_id
    ▹ (if a.is_loading then skeleton else money (elim a.result [ none ↦ pos 0 | some b ↦ part b ]))

unfoldable pub balance_card : Answer Balance → Node
unfolding stat
balance_card a =
    text "Balance"
    ▹ stat a "Book" "balance-book" (λ b. b.book)
    ▹ stat a "Holds" "balance-holds" (λ b. b.holds)
    ▹ stat a "Available" "balance-available" (λ b. b.available)

unfoldable pub hold_actions : Hold → Node
unfolding shows_hold_actions
hold_actions h =
    if shows_hold_actions h.status then action "Capture" ▹ action "Release" else text "—"

module _ (cal : Calendar) where
  unfoldable pub hold_columns : List (Column Hold)
  unfolding status_badge hold_status_wire format_date or_text hold_actions
  hold_columns =
      column "Amount" (λ h. money h.amount)
      ∷ column "Status" (λ h. status_badge (hold_status_wire h.status))
      ∷ column "Expires" (λ h. text (format_date cal h.expires_at))
      ∷ column "Description" (λ h. text (or_text h.description "—"))
      ∷ column "" hold_actions
      ∷ []

  unfoldable pub holds_card : Answer (List Hold) → Node
  unfolding listing hold_columns
  holds_card a =
      text "Holds"
      ▹ hint "holds"
      ▹ action "New hold"
      ▹ listing hold_columns a
          "No holds. Place one to see the available balance drop without moving the book balance."
          none

  unfoldable pub snapshot_columns : List (Column Snapshot)
  unfolding format_date
  snapshot_columns =
      column "Date" (λ s. text (format_date cal (some s.date)))
      ∷ column "Book" (λ s. money s.balance.book)
      ∷ column "Holds" (λ s. money s.balance.holds)
      ∷ column "Available" (λ s. money s.balance.available)
      ∷ []

  unfoldable pub snapshots_card : Answer (List Snapshot) → Node
  unfolding listing snapshot_columns
  snapshots_card a =
      text "End-of-day snapshots"
      ▹ hint "snapshot"
      ▹ text "Date"
      ▹ action "Take snapshot"
      ▹ listing snapshot_columns a
          "No snapshots yet. Take one to freeze the three-part balance for a calendar day." none

  unfoldable pub account_content :
      Answer Balance → Answer (List Hold) → Answer (List Snapshot) → DepositAccount → Node
  unfolding status_badge deposit_status_wire shows_fund_and_close status_transitions balance_card
      holds_card snapshots_card
  account_content balance holds snapshots a =
      text a.name
      ▹ status_badge (deposit_status_wire a.status)
      ▹ copy_id a.id
      ▹ (if shows_fund_and_close a.status then action "Fund" else nothing)
      ▹ each (λ t. action t.label) (status_transitions a.status)
      ▹ (if shows_fund_and_close a.status then action "Close" else nothing)
      ▹ text "Backed by GL account"
      ▹ copy_id a.gl_account
      ▹ text "overdraft limit"
      ▹ money a.overdraft_limit
      ▹ hint "overdraft"
      ▹ balance_card balance
      ▹ holds_card holds
      ▹ snapshots_card snapshots

  -- Where the account cannot be read, only the way back and the error are shown.
  unfoldable pub deposit_account :
      String
      → Answer DepositAccount
      → Answer Balance
      → Answer (List Hold)
      → Answer (List Snapshot)
      → Node
  unfolding detail account_content
  deposit_account pid a balance holds snapshots =
      link ("participants" ∷ pid ∷ "deposit-accounts" ∷ []) (text "Deposit accounts")
      ▹ detail a skeleton (account_content balance holds snapshots)
