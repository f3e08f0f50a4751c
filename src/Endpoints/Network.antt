-- ===== src/Endpoints/Network.antt =====
-- Participants, schemes and the central bank in web/src/lib/api/endpoints.ts.
use core_banking_system.Prelude.{String, [], ◌∷◌}
use core_banking_system.Client.{Call, Method}
use core_banking_system.Endpoints.Calls.{bare, with_body}
use core_banking_system.Json.Bodies.{name_body, fund_body}
use core_banking_system.Types.Requests.{NameRequest, FundRequest}

unfoldable pub list_participants : Call
list_participants = bare Method.get ("participants" ∷ [])

unfoldable pub get_participant : String → Call
get_participant pid = bare Method.get ("participants" ∷ pid ∷ [])

unfoldable pub add_participant : NameRequest → Call
add_participant body = with_body Method.post ("participants" ∷ []) (name_body body)

unfoldable pub fund_deposit : String → FundRequest → Call
fund_deposit pid body =
    with_body Method.post ("participants" ∷ pid ∷ "deposits" ∷ []) (fund_body body)

unfoldable pub list_schemes : Call
list_schemes = bare Method.get ("schemes" ∷ [])

unfoldable pub list_reserves : Call
list_reserves = bare Method.get ("central-bank" ∷ "reserves" ∷ [])

unfoldable pub get_reserve : String → Call
get_reserve pid = bare Method.get ("central-bank" ∷ "reserves" ∷ pid ∷ [])

unfoldable pub central_bank_audit : Call
central_bank_audit = bare Method.get ("central-bank" ∷ "audit" ∷ [])
