-- ===== src/Forms/InitiatePayment.antt =====
-- web/src/components/forms/initiate-payment-form.tsx: the form that initiates a payment. The schemes are
-- the answer of `useSchemes`, if it is there. After a success the scheme stays as it is.
pub mod Completeness
use core_banking_system.Prelude.{
  String, Bool, true, false, Option, none, some, List, [], ◌&&◌, ◌||◌, not, ◌+s◌, ◌=?◌, truthy,
  trim, or_undefined, or_else, find, if◌then◌else◌,
}
use core_banking_system.Prelude.Int.{ℤ}
use core_banking_system.Client.Errors.{describe_error}
use core_banking_system.Types.Payment.{PartyRef, Payment, Scheme}
use core_banking_system.Types.Requests.{missing, InitiatePaymentRequest}
use core_banking_system.Forms.Reply.{Reply, succeeded, failed, Toast}
use core_banking_system.Forms.PartyRefFields.{empty_party_ref}
use core_banking_system.Forms.CreateMandate.{party_filled}

pub record State : Type 0 where
  pub is_open : Bool
  pub scheme : String
  pub debtor : PartyRef
  pub creditor : PartyRef
  pub amount_cents : Option ℤ
  pub mandate_id : String
  pub end_to_end_id : String
  pub description : String

abbrev pub initial : State
initial = record {
  is_open = false;
  scheme = "";
  debtor = empty_party_ref;
  creditor = empty_party_ref;
  amount_cents = none;
  mandate_id = "";
  end_to_end_id = "";
  description = "";
}

-- `needsMandate`: what the chosen scheme says, if it is among those known.
unfoldable pub needs_mandate : Option (List Scheme) → String → Bool
needs_mandate schemes scheme = elim (find (λ s. s.id =? scheme) (or_else schemes [])) [
  | none ↦ false
  | some s ↦ s.requires_mandate
]

-- `valid`, the amount aside.
unfoldable pub valid : Option (List Scheme) → State → Bool
unfolding needs_mandate
valid schemes s =
    truthy s.scheme
    && (party_filled s.debtor
        && (party_filled s.creditor
            && (not (needs_mandate schemes s.scheme) || truthy (trim s.mandate_id))))

unfoldable pub request_of : State → ℤ → InitiatePaymentRequest
unfolding or_undefined
request_of s amount = record {
  scheme = s.scheme;
  debtor = s.debtor;
  creditor = s.creditor;
  amount = amount;
  mandate_id = or_undefined (trim s.mandate_id);
  end_to_end_id = or_undefined (trim s.end_to_end_id);
  description = or_undefined (trim s.description);
  metadata = missing;
}

unfoldable pub submit : Option (List Scheme) → State → Option InitiatePaymentRequest
unfolding valid
submit schemes s = elim s.amount_cents [
  | none ↦ none
  | some amount ↦ if valid schemes s then some (request_of s amount) else none
]

unfoldable pub settle {ℓ} : {A : Type ℓ} → Reply A → State → State
settle (succeeded p) s = record s {
  is_open = false;
  debtor = empty_party_ref;
  creditor = empty_party_ref;
  amount_cents = none;
  mandate_id = "";
  end_to_end_id = "";
  description = "";
}
settle (failed e) s = s

unfoldable pub toast : Reply Payment → Toast
toast (succeeded p) = Toast.success ("Payment initiated (" +s (p.id +s ")"))
toast (failed e) = Toast.error (describe_error e)
