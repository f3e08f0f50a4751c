-- ===== src/Tests/Client.antt =====
-- The API client, the routes and the bodies at concrete inputs.
use core_banking_system.Prelude.{◌≡◌, refl, true, some, [], ◌∷◌, truthy}
use core_banking_system.Prelude.Int.{pos}
use core_banking_system.Client.Target.{is_plain}
use core_banking_system.Types.Requests.{CreateHoldRequest, given}
use core_banking_system.Json.{stringify}
use core_banking_system.Endpoints.Endpoint.{Endpoint, call, ids}
use core_banking_system.Backend.Reach.{serve_call, serve_call-call, handler}
use core_banking_system.Backend.Decode.{decodes, schema_of, in_int64}
use core_banking_system.Backend.Bodies.{amounts, times, decodes-call}

abbrev hold_request : CreateHoldRequest
hold_request = record {
  amount = pos 250;
  expires_at = given "2026-01-01T00:00:00.000Z";
  description = some "deposit";
}

abbrev create_hold : Endpoint
create_hold = Endpoint.create_hold "p1" "d1" hold_request

serve_call-call_example :
    serve_call (call (λ s. s) create_hold) ≡ some (handler create_hold, "p1" ∷ "d1" ∷ [])
unfolding ids truthy is_plain
serve_call-call_example =
    serve_call-call (λ s. s) create_hold
      (record { nonempty = refl; plain = refl }, (record { nonempty = refl; plain = refl }, tt))

decodes-call_example :
    decodes
      (λ _. true)
      (schema_of (handler create_hold))
      (stringify (call (λ s. s) create_hold).body)
    ≡ true
unfolding amounts in_int64 times
decodes-call_example = decodes-call (λ s. s) (λ _. true) create_hold refl refl
