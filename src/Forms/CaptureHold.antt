-- ===== src/Forms/CaptureHold.antt =====
-- web/src/components/forms/capture-hold-form.tsx: the form that captures a hold. After a success the
-- amount stays as it is.
use core_banking_system.Prelude.{
  String, Bool, false, Option, none, some, ◌+s◌, truthy, trim, or_undefined, if◌then◌else◌,
}
use core_banking_system.Prelude.Int.{ℤ}
use core_banking_system.Client.Errors.{describe_error}
use core_banking_system.Types.Ledger.{Transaction}
use core_banking_system.Types.Requests.{CaptureHoldRequest}
use core_banking_system.Forms.Reply.{Reply, succeeded, failed, Toast}

pub record State : Type 0 where
  pub is_open : Bool
  pub counterparty : String
  pub amount_cents : Option ℤ
  pub description : String

-- The amount starts as the held amount.
abbrev pub initial : ℤ → State
initial held_amount = record {
  is_open = false;
  counterparty = "";
  amount_cents = some held_amount;
  description = "";
}

abbrev pub request_of : State → ℤ → CaptureHoldRequest
unfolding or_undefined
request_of s amount = record {
  counterparty = trim s.counterparty;
  amount = amount;
  description = or_undefined (trim s.description);
}

unfoldable pub submit : State → Option CaptureHoldRequest
submit s = elim s.amount_cents [
  | none ↦ none
  | some amount ↦ if truthy (trim s.counterparty) then some (request_of s amount) else none
]

unfoldable pub settle {ℓ} : {A : Type ℓ} → Reply A → State → State
settle (succeeded tx) s = record s { is_open = false; counterparty = ""; description = "" }
settle (failed e) s = s

unfoldable pub toast : Reply Transaction → Toast
toast (succeeded tx) = Toast.success ("Captured — posted " +s tx.id)
toast (failed e) = Toast.error (describe_error e)
