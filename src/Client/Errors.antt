-- ===== src/Client/Errors.antt =====
-- web/src/lib/api/errors.ts: the hint of a status and the one-line summary of an error.
use core_banking_system.Prelude.{ℕ, String, not, ◌&&◌, ◌+s◌, ◌=?◌, truthy, if◌then◌else◌, nat_eq}

unfoldable pub message_for_status : ℕ → String
message_for_status status =
    if nat_eq status 400
    then "The request was rejected — check the highlighted fields."
    else if nat_eq status 404
    then "Not found — state is in-memory and resets when the backend restarts."
    else if nat_eq status 409
    then "Conflict — this was a duplicate key or has already been applied."
    else if nat_eq status 422
    then "Not allowed in the current state (insufficient funds, frozen account, or invalid transition)."
    else if nat_eq status 502
    then "The backend is unreachable. Is `go run ./cmd/server` running on :8080?"
    else if nat_eq status 500
    then "The backend hit an unexpected error."
    else "Something went wrong."

-- What a handler may catch: an `ApiError`, another `Error`, or any other value.
pub data Thrown : Type 0 where
  api_error : ℕ → String → Thrown
  error : String → Thrown
  other : Thrown

unfoldable pub describe_error : Thrown → String
unfolding truthy
describe_error (api_error status message) =
    let hint = message_for_status status in
    if truthy message && not (message =? hint) then hint +s (" (" +s (message +s ")")) else hint
describe_error (error message) = message
describe_error other = "Something went wrong."
