-- ===== src/Forms/OpenCycle.antt =====
-- web/src/components/forms/open-cycle-form.tsx: the form that opens a clearing cycle.
use core_banking_system.Prelude.{
  String, Bool, false, Option, none, some, ◌+s◌, truthy, if◌then◌else◌,
}
use core_banking_system.Client.Errors.{describe_error}
use core_banking_system.Types.Payment.{ClearingCycle}
use core_banking_system.Types.Requests.{OpenCycleRequest}
use core_banking_system.Forms.Reply.{Reply, succeeded, failed, Toast}

pub record State : Type 0 where
  pub is_open : Bool
  pub scheme : String

abbrev pub initial : State
initial = record { is_open = false; scheme = "" }

unfoldable pub submit : State → Option OpenCycleRequest
submit s = if truthy s.scheme then some (record { scheme = s.scheme }) else none

unfoldable pub settle {ℓ} : {A : Type ℓ} → Reply A → State → State
settle (succeeded c) s = record { is_open = false; scheme = "" }
settle (failed e) s = s

unfoldable pub toast : Reply ClearingCycle → Toast
toast (succeeded c) = Toast.success ("Cycle opened (" +s (c.id +s ")"))
toast (failed e) = Toast.error (describe_error e)
