-- ===== src/Forms/FundParticipant.antt =====
-- web/src/components/forms/fund-participant-form.tsx: the form that funds a deposit account.
use core_banking_system.Prelude.{String, Bool, false, Option, none, some, trim, or_undefined}
use core_banking_system.Prelude.Int.{ℤ}
use core_banking_system.Client.Errors.{describe_error}
use core_banking_system.Types.Requests.{FundRequest}
use core_banking_system.Forms.Reply.{Reply, succeeded, failed, Toast}

pub record State : Type 0 where
  pub is_open : Bool
  pub amount_cents : Option ℤ
  pub description : String

abbrev pub initial : State
initial = record { is_open = false; amount_cents = none; description = "" }

unfoldable pub submit : String → State → Option FundRequest
unfolding or_undefined
submit did s = elim s.amount_cents [
  | none ↦ none
  | some amount ↦
      some
        (record { account = did; amount = amount; description = or_undefined (trim s.description) })
]

unfoldable pub settle {ℓ} : {A : Type ℓ} → Reply A → State → State
settle (succeeded answer) s = record { is_open = false; amount_cents = none; description = "" }
settle (failed e) s = s

unfoldable pub toast {ℓ} : {A : Type ℓ} → Reply A → Toast
toast (succeeded answer) = Toast.success "Funded — reserve raised in step"
toast (failed e) = Toast.error (describe_error e)
