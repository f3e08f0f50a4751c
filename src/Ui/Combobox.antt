-- ===== src/Ui/Combobox.antt =====
-- web/src/components/ui/combobox.tsx as the pickers use it, and the options of the pickers
-- (web/src/components/pickers). The searchable list under the button is a library's.
use core_banking_system.Prelude.{
  String, Bool, false, Option, none, some, List, [], ◌∷◌, map, find, or_else, ◌=?◌, ◌&&◌, ◌||◌, not,
  any, if◌then◌else◌,
}
use core_banking_system.Enums.{account_type_wire, deposit_status_wire}
use core_banking_system.Types.Deposit.{DepositAccount}
use core_banking_system.Types.Payment.{Participant}
use core_banking_system.Endpoints.AllAccounts.{AccountWithContext}
use core_banking_system.Ui.Node.{Node, nothing, text, ◌▹◌}
use core_banking_system.Ui.Parts.{Answer, status_badge, account_type_badge, when_text}

pub record ComboboxOption : Type 0 where
  pub value : String
  pub label : String
  pub detail : Option String
  pub keywords : List String
  pub badge : Node

-- What the picker gives to the box, besides the value and the callback.
pub record Box : Type 0 where
  pub options : List ComboboxOption
  pub is_loading : Bool
  pub is_disabled : Bool
  pub placeholder : String
  pub empty_text : String

unfoldable pub selected : Box → String → Option ComboboxOption
selected b value = find (λ o. o.value =? value) b.options

-- The text on the button.
unfoldable pub trigger : Box → String → Node
unfolding selected when_text
trigger b value = if b.is_loading then text "Loading…" else elim (selected b value) [
  | none ↦ text b.placeholder
  | some o ↦ text o.label ▹ when_text o.detail text
]

-- The button opens the list unless it is disabled or loading. What is listed can be selected, which
-- reports its value and closes the list.
pub record BoxState : Type 0 where
  pub is_open : Bool
  pub value : String

unfoldable pub toggle : Box → BoxState → BoxState
toggle b s = if b.is_disabled || b.is_loading then s else record s { is_open = not s.is_open }

unfoldable pub select : Box → String → BoxState → BoxState
select b v s =
    if s.is_open && any (λ o. o.value =? v) b.options
    then record { is_open = false; value = v }
    else s

unfoldable pub participant_options : Answer (List Participant) → List ComboboxOption
participant_options a =
    map
      (λ p. record {
        value = p.id;
        label = p.name;
        detail = some p.id;
        keywords = [];
        badge = nothing;
      })
      (or_else a.result [])

unfoldable pub participant_picker : Answer (List Participant) → Box
unfolding participant_options
participant_picker a = record {
  options = participant_options a;
  is_loading = a.is_loading;
  is_disabled = false;
  placeholder = "Select participant…";
  empty_text = "No participants.";
}

unfoldable pub deposit_account_picker : String → Answer (List DepositAccount) → Box
unfolding deposit_status_wire status_badge
deposit_account_picker pid a = record {
  options =
      map
        (λ d. record {
          value = d.id;
          label = d.name;
          detail = some d.id;
          keywords = deposit_status_wire d.status ∷ [];
          badge = status_badge (deposit_status_wire d.status);
        })
        (or_else a.result []);
  is_loading = not (pid =? "") && a.is_loading;
  is_disabled = pid =? "";
  placeholder = if pid =? "" then "Choose a participant first" else "Select account…";
  empty_text = "No deposit accounts for this participant.";
}

unfoldable pub gl_account_picker : String → Answer (List AccountWithContext) → Box
unfolding account_type_wire account_type_badge
gl_account_picker pid a = record {
  options =
      map
        (λ g. record {
          value = g.account.id;
          label = g.account.name;
          detail = some g.account.id;
          keywords =
              account_type_wire g.account.account_type ∷ g.subledger_name ∷ g.ledger_name ∷ [];
          badge = account_type_badge g.account.account_type;
        })
        (or_else a.result []);
  is_loading = not (pid =? "") && a.is_loading;
  is_disabled = pid =? "";
  placeholder = "Select GL account…";
  empty_text = "No accounts. Create some on the General ledger tab.";
}
