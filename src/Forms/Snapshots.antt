-- ===== src/Forms/Snapshots.antt =====
-- The form of `SnapshotsCard` in web/src/app/participants/[pid]/deposit-accounts/[did]/page.tsx.
use core_banking_system.Prelude.{String, Option, none, some, ◌+s◌, truthy, if◌then◌else◌}
use core_banking_system.Client.Errors.{describe_error}
use core_banking_system.Types.Requests.{SnapshotRequest}
use core_banking_system.Forms.Reply.{Reply, succeeded, failed, Toast}

-- Its state is the text of the date.
unfoldable pub submit : String → Option SnapshotRequest
submit date = if truthy date then some (record { date = date }) else none

unfoldable pub settle {ℓ} : {A : Type ℓ} → Reply A → String → String
settle (succeeded answer) date = ""
settle (failed e) date = date

unfoldable pub toast {ℓ} : {A : Type ℓ} → Reply A → String → Toast
toast (succeeded answer) date = Toast.success ("Snapshot taken for " +s date)
toast (failed e) date = Toast.error (describe_error e)
