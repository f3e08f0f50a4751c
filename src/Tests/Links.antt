-- ===== src/Tests/Links.antt =====
-- The screens at concrete inputs.
use mathlib.Core.List.{mem-cons_self}
use core_banking_system.Prelude.{◌≡◌, ℕ, ◌≤◌, true, false, none, some, [], ◌∷◌, map, every}
use core_banking_system.Prelude.Int.{pos}
use core_banking_system.Enums.{DepositStatus}
use core_banking_system.Types.Deposit.{DepositAccount}
use core_banking_system.Types.Payment.{Participant, ClearingCycle, Settlement}
use core_banking_system.Tests.Pages.{cleared_payment}
use core_banking_system.Ui.Node.{targets, row_widths, text}
use core_banking_system.Ui.Dates.{Calendar}
use core_banking_system.Ui.Table.{data_table}
use core_banking_system.Ui.Table.Shape.{widths, row_widths-data_table}
use core_banking_system.Pages.Home
use core_banking_system.Pages.Lists
use core_banking_system.Pages.Participant
use core_banking_system.Pages.Screen.{Screen, document}
use core_banking_system.Pages.Tabs.{marked, marked-page}
use core_banking_system.Pages.Links.Resolve.{resolves}
use core_banking_system.Pages.Links.Screens.{resolves-document}
use core_banking_system.Pages.Links.Items.{loaded, targets-loaded}
use core_banking_system.Pages.Links.Reachable.{World, Reach, Exists, Reach-Exists}

abbrev calendar : Calendar
calendar = record { date_time = λ t. some t; day = λ t. some t }

abbrev bank : Participant
bank = record {
  id = "bank_1";
  name = "Alpha";
  customer_subledger = "sub_1";
  suspense_account = "acct_1";
  reserve_account = "acct_2";
  settlement_account = "acct_3";
}

abbrev current_account : DepositAccount
current_account = record {
  id = "dep_1";
  gl_account = "acct_4";
  name = "Current";
  status = DepositStatus.active;
  overdraft_limit = pos 0;
  created_at = "";
}

abbrev small_world : World
small_world = record {
  calendar = calendar;
  participants = bank ∷ [];
  payments = cleared_payment ∷ [];
  cycles = [];
  settlements = [];
  deposit_accounts = λ pid. current_account ∷ [];
  reserves = none;
  reserve = loaded (record { participant = "bank_1"; reserve = pos 10 });
  balance = λ did. none;
}

resolves-document_example :
    every resolves (
      targets
        (document calendar (some (bank ∷ [])) (Screen.payments (loaded (cleared_payment ∷ [])))))
    ≡ true
resolves-document_example =
    resolves-document calendar (some (bank ∷ [])) (Screen.payments (loaded (cleared_payment ∷ [])))

row_widths-data_table_example :
    row_widths (data_table Lists.payment_columns (some (cleared_payment ∷ [])) false (text "") none)
    ≡ widths Lists.payment_columns (some (cleared_payment ∷ [])) false
row_widths-data_table_example =
    row_widths-data_table Lists.payment_columns (some (cleared_payment ∷ [])) false "" none

marked-page_example :
    (marked "bank_1" ("participants" ∷ "bank_1" ∷ []) ≡ "Overview" ∷ [])
    × (marked "bank_1" ("participants" ∷ "bank_1" ∷ "ledger" ∷ []) ≡ "General ledger" ∷ [])
    × (marked "bank_1" ("participants" ∷ "bank_1" ∷ "transactions" ∷ []) ≡ "Transactions" ∷ [])
    × (marked "bank_1" ("participants" ∷ "bank_1" ∷ "audit" ∷ []) ≡ "Audit" ∷ [])
    × (marked "bank_1" ("participants" ∷ "bank_1" ∷ "deposit-accounts" ∷ [])
        ≡ "Deposit accounts" ∷ [])
    × (marked "bank_1" ("participants" ∷ "bank_1" ∷ "deposit-accounts" ∷ "dep_1" ∷ [])
        ≡ "Deposit accounts" ∷ [])
    × (marked "bank_1" ("participants" ∷ "bank_1" ∷ "deposit-audit" ∷ []) ≡ "Deposit audit" ∷ [])
marked-page_example = marked-page "bank_1" "dep_1"

targets-loaded_example :
    (targets (Home.home (loaded (bank ∷ [])) none)
      ≡ map (λ p. "participants" ∷ p.id ∷ []) (bank ∷ []))
    × (targets (Lists.payments (loaded (cleared_payment ∷ [])))
        ≡ map (λ p. "payments" ∷ p.id ∷ []) (cleared_payment ∷ []))
    × (targets (Lists.cycles calendar (loaded []))
        ≡ map (λ (c : ClearingCycle). "cycles" ∷ c.id ∷ []) [])
    × (targets (Lists.settlements calendar (loaded []))
        ≡ map (λ (s : Settlement). "settlements" ∷ s.id ∷ []) [])
    × (targets (Participant.deposit_accounts "bank_1" (λ d. none) (loaded (current_account ∷ [])))
        ≡ map
            (λ d. "participants" ∷ "bank_1" ∷ "deposit-accounts" ∷ d.id ∷ [])
            (current_account ∷ []))
targets-loaded_example =
    targets-loaded calendar (bank ∷ []) none (cleared_payment ∷ []) [] [] "bank_1" (λ d. none)
      (current_account ∷ [])

Reach-Exists_example :
    (n : ℕ) × (n ≤ 3)
    × Reach small_world n ("participants" ∷ "bank_1" ∷ "deposit-accounts" ∷ "dep_1" ∷ [])
Reach-Exists_example =
    Reach-Exists small_world ("participants" ∷ "bank_1" ∷ "deposit-accounts" ∷ "dep_1" ∷ [])
      (Exists.deposit_account bank current_account mem-cons_self mem-cons_self)
