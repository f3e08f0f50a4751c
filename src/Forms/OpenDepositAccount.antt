-- ===== src/Forms/OpenDepositAccount.antt =====
-- web/src/components/forms/open-deposit-account-form.tsx: the form that opens a deposit account. An
-- empty overdraft limit is a limit of 0.
use core_banking_system.Prelude.{
  String, Bool, false, Option, none, some, ◌+s◌, truthy, trim, or_else, if◌then◌else◌,
}
use core_banking_system.Prelude.Int.{ℤ, pos}
use core_banking_system.Client.Errors.{describe_error}
use core_banking_system.Types.Deposit.{DepositAccount}
use core_banking_system.Types.Requests.{OpenDepositAccountRequest}
use core_banking_system.Forms.Reply.{Reply, succeeded, failed, Toast}

pub record State : Type 0 where
  pub is_open : Bool
  pub name : String
  pub overdraft_cents : Option ℤ

abbrev pub initial : State
initial = record { is_open = false; name = ""; overdraft_cents = some (pos 0) }

unfoldable pub submit : State → Option OpenDepositAccountRequest
submit s =
    if truthy (trim s.name)
    then some (record { name = trim s.name; overdraft_limit = or_else s.overdraft_cents (pos 0) })
    else none

unfoldable pub settle {ℓ} : {A : Type ℓ} → Reply A → State → State
settle (succeeded acct) s = record { is_open = false; name = ""; overdraft_cents = some (pos 0) }
settle (failed e) s = s

unfoldable pub toast : Reply DepositAccount → Toast
toast (succeeded acct) = Toast.success ("Opened " +s acct.name)
toast (failed e) = Toast.error (describe_error e)
