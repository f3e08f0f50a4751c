-- ===== src/Forms/CreateHold.antt =====
-- web/src/components/forms/create-hold-form.tsx: the form that places a hold.
use core_banking_system.Prelude.{
  String, Bool, false, Option, none, some, ◌+s◌, truthy, trim, or_undefined, if◌then◌else◌,
}
use core_banking_system.Prelude.Int.{ℤ}
use core_banking_system.Client.Errors.{describe_error}
use core_banking_system.Types.Deposit.{Hold}
use core_banking_system.Types.Requests.{null, given, CreateHoldRequest}
use core_banking_system.Forms.Reply.{Reply, succeeded, failed, Toast}

pub record State : Type 0 where
  pub is_open : Bool
  pub amount_cents : Option ℤ
  pub expires : String
  pub description : String

abbrev pub initial : State
initial = record { is_open = false; amount_cents = none; expires = ""; description = "" }

abbrev pub request_of : State → ℤ → CreateHoldRequest
unfolding or_undefined
request_of s amount = record {
  amount = amount;
  expires_at = if truthy s.expires then given (s.expires +s "T00:00:00.000Z") else null;
  description = or_undefined (trim s.description);
}

unfoldable pub submit : State → Option CreateHoldRequest
submit s = elim s.amount_cents [ none ↦ none | some amount ↦ some (request_of s amount) ]

unfoldable pub settle {ℓ} : {A : Type ℓ} → Reply A → State → State
settle (succeeded hold) s = record {
  is_open = false;
  amount_cents = none;
  expires = "";
  description = "";
}
settle (failed e) s = s

unfoldable pub toast : Reply Hold → Toast
toast (succeeded hold) = Toast.success ("Hold placed (" +s (hold.id +s ")"))
toast (failed e) = Toast.error (describe_error e)
