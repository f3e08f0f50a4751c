-- ===== src/Endpoints/Payments.antt =====
-- The payment section of web/src/lib/api/endpoints.ts.
use core_banking_system.Prelude.{String, [], ◌∷◌}
use core_banking_system.Client.{Call, Method}
use core_banking_system.Endpoints.Calls.{bare, with_body}
use core_banking_system.Json.Bodies.{
  create_mandate_body, initiate_payment_body, open_cycle_body, reason_body,
}
use core_banking_system.Types.Requests.{
  CreateMandateRequest, InitiatePaymentRequest, OpenCycleRequest, ReasonRequest,
}

unfoldable pub list_mandates : Call
list_mandates = bare Method.get ("mandates" ∷ [])

unfoldable pub get_mandate : String → Call
get_mandate mid = bare Method.get ("mandates" ∷ mid ∷ [])

unfoldable pub create_mandate : CreateMandateRequest → Call
create_mandate body = with_body Method.post ("mandates" ∷ []) (create_mandate_body body)

unfoldable pub revoke_mandate : String → Call
revoke_mandate mid = bare Method.post ("mandates" ∷ mid ∷ "revoke" ∷ [])

unfoldable pub list_payments : Call
list_payments = bare Method.get ("payments" ∷ [])

unfoldable pub get_payment : String → Call
get_payment payid = bare Method.get ("payments" ∷ payid ∷ [])

unfoldable pub initiate_payment : InitiatePaymentRequest → Call
initiate_payment body = with_body Method.post ("payments" ∷ []) (initiate_payment_body body)

unfoldable pub reject_payment : String → ReasonRequest → Call
reject_payment payid body =
    with_body Method.post ("payments" ∷ payid ∷ "reject" ∷ []) (reason_body body)

unfoldable pub return_payment : String → ReasonRequest → Call
return_payment payid body =
    with_body Method.post ("payments" ∷ payid ∷ "return" ∷ []) (reason_body body)

unfoldable pub list_cycles : Call
list_cycles = bare Method.get ("cycles" ∷ [])

unfoldable pub get_cycle : String → Call
get_cycle cid = bare Method.get ("cycles" ∷ cid ∷ [])

unfoldable pub open_cycle : OpenCycleRequest → Call
open_cycle body = with_body Method.post ("cycles" ∷ []) (open_cycle_body body)

unfoldable pub close_cycle : String → Call
close_cycle cid = bare Method.post ("cycles" ∷ cid ∷ "close" ∷ [])

unfoldable pub settle_cycle : String → Call
settle_cycle cid = bare Method.post ("cycles" ∷ cid ∷ "settle" ∷ [])

unfoldable pub list_settlements : Call
list_settlements = bare Method.get ("settlements" ∷ [])

unfoldable pub get_settlement : String → Call
get_settlement sid = bare Method.get ("settlements" ∷ sid ∷ [])
