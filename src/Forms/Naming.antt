-- ===== src/Forms/Naming.antt =====
-- The dialogs that ask for a name: web/src/components/create-participant-dialog.tsx, and `NameDialog` and
-- `AccountDialog` of web/src/app/participants/[pid]/ledger/page.tsx.
use core_banking_system.Prelude.{
  String, Bool, false, Option, none, some, ◌+s◌, truthy, trim, if◌then◌else◌,
}
use core_banking_system.Enums.{AccountType, asset}
use core_banking_system.Client.Errors.{describe_error}
use core_banking_system.Types.Payment.{Participant}
use core_banking_system.Types.Requests.{NameRequest, CreateAccountRequest}
use core_banking_system.Forms.Reply.{Reply, succeeded, failed, Toast}

pub record State : Type 0 where
  pub is_open : Bool
  pub name : String

abbrev pub initial : State
initial = record { is_open = false; name = "" }

-- `submit` of `CreateParticipantDialog` and of `NameDialog`.
unfoldable pub submit : State → Option NameRequest
submit s = if truthy (trim s.name) then some (record { name = trim s.name }) else none

unfoldable pub settle {ℓ} : {A : Type ℓ} → Reply A → State → State
settle (succeeded answer) s = record { is_open = false; name = "" }
settle (failed e) s = s

-- A new participant: the toast, and the page that is shown next.
unfoldable pub toast : Reply Participant → Toast
toast (succeeded p) = Toast.success ("Created " +s p.name)
toast (failed e) = Toast.error (describe_error e)

unfoldable pub next_page : Reply Participant → Option String
next_page (succeeded p) = some ("/participants/" +s p.id)
next_page (failed e) = none

pub record AccountState : Type 0 where
  pub is_open : Bool
  pub name : String
  pub account_type : AccountType

abbrev pub initial_account : AccountState
initial_account = record { is_open = false; name = ""; account_type = asset }

-- `AccountDialog`, which keeps the type after a success.
unfoldable pub submit_account : AccountState → Option CreateAccountRequest
submit_account s =
    if truthy (trim s.name)
    then some (record { name = trim s.name; account_type = s.account_type })
    else none

unfoldable pub settle_account {ℓ} : {A : Type ℓ} → Reply A → AccountState → AccountState
settle_account (succeeded answer) s = record s { is_open = false; name = "" }
settle_account (failed e) s = s
