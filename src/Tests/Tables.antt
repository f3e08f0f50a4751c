-- ===== src/Tests/Tables.antt =====
-- The rows of the net positions and the walk over all accounts at concrete inputs.
use mathlib.Core.List.{Permᴰ}
use core_banking_system.Prelude.{◌≡◌, refl, String, some, List, [], ◌∷◌, map}
use core_banking_system.Prelude.Int.{ℤ, pos, negsuc}
use core_banking_system.Enums.{asset}
use core_banking_system.Types.Ledger.{Ledger, Subledger, Account}
use core_banking_system.Endpoints.AllAccounts.{fulfilled, rejected, get_all_accounts}
use core_banking_system.Endpoints.AllAccounts.Walk.{
  get_all_accounts-fulfilled, get_all_accounts-rejected,
}
use core_banking_system.Pages.NetPositions.{Descending, rows, entry, rows-Descending}

abbrev three_positions : List (String × ℤ)
three_positions = ("bank_1", negsuc 249) ∷ ("bank_2", pos 0) ∷ ("bank_3", pos 250) ∷ []

rows-Descending_example :
    Descending (rows (some three_positions))
    × Permᴰ (map entry three_positions) (rows (some three_positions))
rows-Descending_example = rows-Descending three_positions

abbrev general : Ledger
general = record { id = "l1"; name = "General"; created_at = "" }

abbrev customers : Subledger
customers = record { id = "s1"; ledger_id = "l1"; name = "Customers"; created_at = "" }

abbrev cash : Account
cash = record {
  id = "a1";
  subledger_id = "s1";
  name = "Cash";
  account_type = asset;
  created_at = "";
}

get_all_accounts-fulfilled_example :
    get_all_accounts
      (λ _. fulfilled (general ∷ []))
      (λ _ _. fulfilled (customers ∷ []))
      (λ _ _. fulfilled (cash ∷ []))
      "p1"
    ≡ fulfilled
        (record { account = cash; ledger_name = "General"; subledger_name = "Customers" } ∷ [])
get_all_accounts-fulfilled_example =
    get_all_accounts-fulfilled (λ _. fulfilled (general ∷ [])) (λ _ _. fulfilled (customers ∷ []))
      (λ _ _. fulfilled (cash ∷ [])) "p1" (general ∷ []) (λ _. customers ∷ []) (λ _. cash ∷ []) refl
      (λ _. refl) (λ _. refl)

get_all_accounts-rejected_example :
    (r : String) × (get_all_accounts
        (λ _. fulfilled (general ∷ []))
        (λ _ _. fulfilled (customers ∷ []))
        (λ _ _. rejected "404")
        "p1"
      ≡ rejected r)
get_all_accounts-rejected_example =
    get_all_accounts-rejected (λ _. fulfilled (general ∷ [])) (λ _ _. fulfilled (customers ∷ []))
      (λ _ _. rejected "404") "p1" general customers [] [] [] [] {e = "404"} refl refl refl
