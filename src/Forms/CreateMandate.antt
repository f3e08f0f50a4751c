-- ===== src/Forms/CreateMandate.antt =====
-- web/src/components/forms/create-mandate-form.tsx: the form that creates a mandate.
use core_banking_system.Prelude.{
  Bool, false, Option, none, some, ◌&&◌, ◌+s◌, truthy, trim, if◌then◌else◌,
}
use core_banking_system.Prelude.Int.{ℤ}
use core_banking_system.Client.Errors.{describe_error}
use core_banking_system.Types.Payment.{PartyRef, Mandate}
use core_banking_system.Types.Requests.{CreateMandateRequest}
use core_banking_system.Forms.Reply.{Reply, succeeded, failed, Toast}
use core_banking_system.Forms.PartyRefFields.{empty_party_ref}

pub record State : Type 0 where
  pub is_open : Bool
  pub debtor : PartyRef
  pub creditor : PartyRef
  pub max_cents : Option ℤ

abbrev pub initial : State
initial = record {
  is_open = false;
  debtor = empty_party_ref;
  creditor = empty_party_ref;
  max_cents = none;
}

-- Both fields of a party are filled.
abbrev pub party_filled : PartyRef → Bool
party_filled p = truthy (trim p.participant) && truthy (trim p.account)

unfoldable pub submit : State → Option CreateMandateRequest
submit s = elim s.max_cents [
  | none ↦ none
  | some amount ↦
      if party_filled s.debtor && party_filled s.creditor
      then some (record { debtor = s.debtor; creditor = s.creditor; max_amount = amount })
      else none
]

unfoldable pub settle {ℓ} : {A : Type ℓ} → Reply A → State → State
settle (succeeded m) s = initial
settle (failed e) s = s

unfoldable pub toast : Reply Mandate → Toast
toast (succeeded m) = Toast.success ("Mandate created (" +s (m.id +s ")"))
toast (failed e) = Toast.error (describe_error e)
