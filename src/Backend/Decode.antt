-- ===== src/Backend/Decode.antt =====
-- What the backend's handlers accept as a body: the request structs of api/dto.go, read by the strict
-- decoder of api/respond.go (`DisallowUnknownFields`). A JSON null leaves any field as it is. Go's
-- reading of an RFC 3339 time is the argument `is_time`.
use core_banking_system.Prelude.{
  String, Bool, true, false, Option, none, some, ◌&&◌, ◌=?◌, if◌then◌else◌, leb,
}
use core_banking_system.Prelude.Int.{ℤ, pos, negsuc}
use core_banking_system.Json.{Json, JsonItems, JsonFields}
use core_banking_system.Backend.Routes.{Handler}

mutual
  pub data Schema : Type 0 where
    text int64 time text_map : Schema
    list : Schema → Schema
    struct : Shape → Schema

  pub data Shape : Type 0 where
    end : Shape
    member : String → Schema → Shape → Shape

unfoldable pub in_int64 : ℤ → Bool
in_int64 (pos n) = leb n 9223372036854775807
in_int64 (negsuc n) = leb n 9223372036854775807

-- The schema of a field; none for an unknown one.
unfoldable pub member_of : String → Shape → Option Schema
member_of k end = none
member_of k (member j s sh) = if j =? k then some s else member_of k sh

unfoldable pub text_fields : JsonFields → Bool
text_fields JsonFields.end = true
text_fields (JsonFields.field k (Json.string v) fs) = text_fields fs
text_fields (JsonFields.field k Json.null fs) = text_fields fs
text_fields (JsonFields.field k _ fs) = false

module _ (is_time : String → Bool) where
  unfoldable mutual
    pub accepts : Json → Schema → Bool
    accepts Json.null s = true
    accepts (Json.string t) text = true
    accepts (Json.string t) time = is_time t
    accepts (Json.number n) int64 = in_int64 n
    accepts (Json.array xs) (list s) = accepts_items xs s
    accepts (Json.object fs) (struct sh) = accepts_fields fs sh
    accepts (Json.object fs) text_map = text_fields fs
    accepts _ _ = false

    pub accepts_items : JsonItems → Schema → Bool
    accepts_items JsonItems.nil s = true
    accepts_items (JsonItems.cons v vs) s = accepts v s && accepts_items vs s

    pub accepts_fields : JsonFields → Shape → Bool
    accepts_fields JsonFields.end sh = true
    accepts_fields (JsonFields.field k v fs) sh =
        (elim (member_of k sh) [ none ↦ false | some s ↦ accepts v s ]) && accepts_fields fs sh

  -- A handler with a body decodes it; one without reads none.
  unfoldable pub decodes : Option Schema → Option Json → Bool
  decodes none none = true
  decodes none (some j) = false
  decodes (some s) none = false
  decodes (some s) (some j) = accepts j s

-- The structs of api/dto.go.
abbrev pub party_ref_members : Shape
party_ref_members = member "participant" text (member "account" text (member "iban" text end))

abbrev pub party_ref_shape : Schema
party_ref_shape = struct party_ref_members

abbrev pub entry_shape : Schema
entry_shape = struct (
    member "id" text
      (member "accountId" text (member "amount" int64 (member "direction" text end))))

abbrev pub post_transaction_members : Shape
post_transaction_members = member "idempotencyKey" text (
    member "entries" (list entry_shape) (
      member "bookingDate" time
        (member "valueDate" time (member "description" text (member "metadata" text_map end)))))

abbrev pub post_transaction_shape : Schema
post_transaction_shape = struct post_transaction_members

abbrev pub initiate_payment_members : Shape
initiate_payment_members = member "scheme" text (
    member "debtor" party_ref_shape (
      member "creditor" party_ref_shape (
        member "amount" int64 (
          member "mandateId" text (
            member "endToEndId" text
              (member "description" text (member "metadata" text_map end)))))))

abbrev pub initiate_payment_shape : Schema
initiate_payment_shape = struct initiate_payment_members

abbrev pub create_mandate_members : Shape
create_mandate_members =
    member "debtor" party_ref_shape
      (member "creditor" party_ref_shape (member "maxAmount" int64 end))

abbrev pub create_mandate_shape : Schema
create_mandate_shape = struct create_mandate_members

-- The struct that each handler decodes, if any.
unfoldable pub schema_of : Handler → Option Schema
schema_of Handler.handle_add_participant = some (struct (member "name" text end))
schema_of Handler.handle_create_ledger = some (struct (member "name" text end))
schema_of Handler.handle_create_subledger = some (struct (member "name" text end))
schema_of Handler.handle_create_account =
    some (struct (member "name" text (member "type" text end)))
schema_of Handler.handle_post_transaction = some post_transaction_shape
schema_of Handler.handle_reverse_transaction = some (struct (member "description" text end))
schema_of Handler.handle_open_deposit_account =
    some (struct (member "name" text (member "overdraftLimit" int64 end)))
schema_of Handler.handle_deposit_status = some (struct (member "action" text end))
schema_of Handler.handle_create_hold =
    some (struct (member "amount" int64 (member "expiresAt" time (member "description" text end))))
schema_of Handler.handle_capture_hold =
    some
      (struct (member "counterparty" text (member "amount" int64 (member "description" text end))))
schema_of Handler.handle_take_snapshot = some (struct (member "date" text end))
schema_of Handler.handle_fund_deposit =
    some (struct (member "account" text (member "amount" int64 (member "description" text end))))
schema_of Handler.handle_create_mandate = some create_mandate_shape
schema_of Handler.handle_initiate_payment = some initiate_payment_shape
schema_of Handler.handle_reject_payment = some (struct (member "reason" text end))
schema_of Handler.handle_return_payment = some (struct (member "reason" text end))
schema_of Handler.handle_open_cycle = some (struct (member "scheme" text end))
schema_of _ = none
