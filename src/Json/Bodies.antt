-- ===== src/Json/Bodies.antt =====
-- The request bodies of web/src/lib/types.ts as JavaScript objects, under their field names.
use core_banking_system.Prelude.{String, Option, none, some, List, [], ◌∷◌, map}
use core_banking_system.Enums.{account_type_wire, direction_wire, action_wire}
use core_banking_system.Json.{JsValue, JsFields, object_of, array_of}
use core_banking_system.Types.Payment.{PartyRef}
use core_banking_system.Types.Requests.{
  Optional, missing, null, given, NameRequest, CreateAccountRequest, EntryInput,
  PostTransactionRequest, OpenDepositAccountRequest, StatusRequest, CreateHoldRequest,
  CaptureHoldRequest, SnapshotRequest, FundRequest, CreateMandateRequest, InitiatePaymentRequest,
  OpenCycleRequest, ReasonRequest, DescriptionRequest,
}

abbrev pub optional_text : Option String → JsValue
optional_text none = JsValue.undefined
optional_text (some s) = JsValue.string s

abbrev pub optional : {A : Type 0} → (A → JsValue) → Optional A → JsValue
optional f missing = JsValue.undefined
optional f null = JsValue.null
optional f (given a) = f a

-- A `Record<string, string>`.
unfoldable pub text_map : List (String × String) → JsFields
text_map [] = JsFields.end
text_map ((k, v) ∷ m) = JsFields.field k (JsValue.string v) (text_map m)

unfoldable pub metadata_value : List (String × String) → JsValue
metadata_value m = JsValue.object (text_map m)

abbrev pub party_ref_fields : PartyRef → List (String × JsValue)
party_ref_fields p =
    ("participant", JsValue.string p.participant)
    ∷ ("account", JsValue.string p.account)
    ∷ ("iban", optional_text p.iban)
    ∷ []

unfoldable pub party_ref_value : PartyRef → JsValue
party_ref_value p = JsValue.object (object_of (party_ref_fields p))

unfoldable pub entry_value : EntryInput → JsValue
entry_value e = JsValue.object (
    object_of (
      ("accountId", JsValue.string e.account_id)
      ∷ ("amount", JsValue.number e.amount)
      ∷ ("direction", JsValue.string (direction_wire e.direction))
      ∷ []))

unfoldable pub name_body : NameRequest → JsValue
name_body r = JsValue.object (object_of (("name", JsValue.string r.name) ∷ []))

unfoldable pub create_account_body : CreateAccountRequest → JsValue
create_account_body r = JsValue.object (
    object_of (
      ("name", JsValue.string r.name)
      ∷ ("type", JsValue.string (account_type_wire r.account_type))
      ∷ []))

abbrev pub post_transaction_fields : PostTransactionRequest → List (String × JsValue)
post_transaction_fields r =
    ("idempotencyKey", JsValue.string r.idempotency_key)
    ∷ ("entries", JsValue.array (array_of (map entry_value r.entries)))
    ∷ ("bookingDate", optional JsValue.string r.booking_date)
    ∷ ("valueDate", optional JsValue.string r.value_date)
    ∷ ("description", optional_text r.description)
    ∷ ("metadata", optional metadata_value r.metadata)
    ∷ []

unfoldable pub post_transaction_body : PostTransactionRequest → JsValue
post_transaction_body r = JsValue.object (object_of (post_transaction_fields r))

unfoldable pub open_deposit_account_body : OpenDepositAccountRequest → JsValue
open_deposit_account_body r = JsValue.object (
    object_of
      (("name", JsValue.string r.name) ∷ ("overdraftLimit", JsValue.number r.overdraft_limit) ∷ []))

unfoldable pub status_body : StatusRequest → JsValue
status_body r = JsValue.object (object_of (("action", JsValue.string (action_wire r.action)) ∷ []))

unfoldable pub create_hold_body : CreateHoldRequest → JsValue
create_hold_body r = JsValue.object (
    object_of (
      ("amount", JsValue.number r.amount)
      ∷ ("expiresAt", optional JsValue.string r.expires_at)
      ∷ ("description", optional_text r.description)
      ∷ []))

unfoldable pub capture_hold_body : CaptureHoldRequest → JsValue
capture_hold_body r = JsValue.object (
    object_of (
      ("counterparty", JsValue.string r.counterparty)
      ∷ ("amount", JsValue.number r.amount)
      ∷ ("description", optional_text r.description)
      ∷ []))

unfoldable pub snapshot_body : SnapshotRequest → JsValue
snapshot_body r = JsValue.object (object_of (("date", JsValue.string r.date) ∷ []))

unfoldable pub fund_body : FundRequest → JsValue
fund_body r = JsValue.object (
    object_of (
      ("account", JsValue.string r.account)
      ∷ ("amount", JsValue.number r.amount)
      ∷ ("description", optional_text r.description)
      ∷ []))

abbrev pub create_mandate_fields : CreateMandateRequest → List (String × JsValue)
create_mandate_fields r =
    ("debtor", party_ref_value r.debtor)
    ∷ ("creditor", party_ref_value r.creditor)
    ∷ ("maxAmount", JsValue.number r.max_amount)
    ∷ []

unfoldable pub create_mandate_body : CreateMandateRequest → JsValue
unfolding party_ref_value
create_mandate_body r = JsValue.object (object_of (create_mandate_fields r))

abbrev pub initiate_payment_fields : InitiatePaymentRequest → List (String × JsValue)
initiate_payment_fields r =
    ("scheme", JsValue.string r.scheme)
    ∷ ("debtor", party_ref_value r.debtor)
    ∷ ("creditor", party_ref_value r.creditor)
    ∷ ("amount", JsValue.number r.amount)
    ∷ ("mandateId", optional_text r.mandate_id)
    ∷ ("endToEndId", optional_text r.end_to_end_id)
    ∷ ("description", optional_text r.description)
    ∷ ("metadata", optional metadata_value r.metadata)
    ∷ []

unfoldable pub initiate_payment_body : InitiatePaymentRequest → JsValue
unfolding party_ref_value
initiate_payment_body r = JsValue.object (object_of (initiate_payment_fields r))

unfoldable pub open_cycle_body : OpenCycleRequest → JsValue
open_cycle_body r = JsValue.object (object_of (("scheme", JsValue.string r.scheme) ∷ []))

unfoldable pub reason_body : ReasonRequest → JsValue
reason_body r = JsValue.object (object_of (("reason", JsValue.string r.reason) ∷ []))

unfoldable pub description_body : DescriptionRequest → JsValue
description_body r = JsValue.object (object_of (("description", JsValue.string r.description) ∷ []))
