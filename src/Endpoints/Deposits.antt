-- ===== src/Endpoints/Deposits.antt =====
-- The deposit section of web/src/lib/api/endpoints.ts.
use core_banking_system.Prelude.{String, [], ◌∷◌}
use core_banking_system.Client.{Call, Method}
use core_banking_system.Endpoints.Calls.{bare, with_body}
use core_banking_system.Json.Bodies.{
  open_deposit_account_body, status_body, create_hold_body, capture_hold_body, snapshot_body,
}
use core_banking_system.Types.Requests.{
  OpenDepositAccountRequest, StatusRequest, CreateHoldRequest, CaptureHoldRequest, SnapshotRequest,
}

unfoldable pub list_deposit_accounts : String → Call
list_deposit_accounts pid = bare Method.get ("participants" ∷ pid ∷ "deposit-accounts" ∷ [])

unfoldable pub get_deposit_account : String → String → Call
get_deposit_account pid did = bare Method.get ("participants" ∷ pid ∷ "deposit-accounts" ∷ did ∷ [])

unfoldable pub open_deposit_account : String → OpenDepositAccountRequest → Call
open_deposit_account pid body =
    with_body Method.post ("participants" ∷ pid ∷ "deposit-accounts" ∷ [])
      (open_deposit_account_body body)

unfoldable pub get_deposit_balance : String → String → Call
get_deposit_balance pid did =
    bare Method.get ("participants" ∷ pid ∷ "deposit-accounts" ∷ did ∷ "balance" ∷ [])

unfoldable pub set_deposit_status : String → String → StatusRequest → Call
set_deposit_status pid did body =
    with_body Method.post ("participants" ∷ pid ∷ "deposit-accounts" ∷ did ∷ "status" ∷ [])
      (status_body body)

unfoldable pub close_deposit_account : String → String → Call
close_deposit_account pid did =
    bare Method.delete ("participants" ∷ pid ∷ "deposit-accounts" ∷ did ∷ [])

unfoldable pub list_holds : String → String → Call
list_holds pid did =
    bare Method.get ("participants" ∷ pid ∷ "deposit-accounts" ∷ did ∷ "holds" ∷ [])

unfoldable pub create_hold : String → String → CreateHoldRequest → Call
create_hold pid did body =
    with_body Method.post ("participants" ∷ pid ∷ "deposit-accounts" ∷ did ∷ "holds" ∷ [])
      (create_hold_body body)

unfoldable pub get_hold : String → String → Call
get_hold pid hid = bare Method.get ("participants" ∷ pid ∷ "holds" ∷ hid ∷ [])

unfoldable pub release_hold : String → String → Call
release_hold pid hid = bare Method.post ("participants" ∷ pid ∷ "holds" ∷ hid ∷ "release" ∷ [])

unfoldable pub capture_hold : String → String → CaptureHoldRequest → Call
capture_hold pid hid body =
    with_body Method.post ("participants" ∷ pid ∷ "holds" ∷ hid ∷ "capture" ∷ [])
      (capture_hold_body body)

unfoldable pub list_snapshots : String → String → Call
list_snapshots pid did =
    bare Method.get ("participants" ∷ pid ∷ "deposit-accounts" ∷ did ∷ "snapshots" ∷ [])

unfoldable pub take_snapshot : String → String → SnapshotRequest → Call
take_snapshot pid did body =
    with_body Method.post ("participants" ∷ pid ∷ "deposit-accounts" ∷ did ∷ "snapshots" ∷ [])
      (snapshot_body body)

unfoldable pub deposit_audit : String → Call
deposit_audit pid = bare Method.get ("participants" ∷ pid ∷ "deposit-audit" ∷ [])
