-- ===== src/Hooks/Views.antt =====
-- The queries of web/src/lib/api/hooks.ts, grouped by the keys that its mutations invalidate together.
use core_banking_system.Prelude.{String, Bool, true, false, ◌&&◌, ◌||◌, ◌=?◌}
use core_banking_system.QueryKeys.{QueryKey}
use core_banking_system.Hooks.Query.{Query, use_query}
use core_banking_system.Hooks.Mutation.{Mutation}

abbrev pub key : Query → QueryKey
unfolding use_query
key q = (use_query q).query_key

-- The views of a participant's postings: its transaction lists, GL balances and ledger log.
unfoldable pub posting_view : String → Query → Bool
posting_view pid (Query.transactions p _) = pid =? p
posting_view pid (Query.account_balance p _) = pid =? p
posting_view pid (Query.ledger_audit p _) = pid =? p
posting_view pid _ = false

-- The views of a participant's deposit layer: accounts, balances, holds, snapshots and its log.
unfoldable pub deposit_view : String → Query → Bool
deposit_view pid (Query.deposit_accounts p) = pid =? p
deposit_view pid (Query.deposit_account p _) = pid =? p
deposit_view pid (Query.deposit_balance p _) = pid =? p
deposit_view pid (Query.holds p _) = pid =? p
deposit_view pid (Query.snapshots p _) = pid =? p
deposit_view pid (Query.deposit_audit p) = pid =? p
deposit_view pid _ = false

-- The views of the central bank.
unfoldable pub central_view : Query → Bool
central_view Query.reserves = true
central_view (Query.reserve _) = true
central_view Query.central_bank_audit = true
central_view _ = false

-- Every view of a participant, the list of all of them included.
unfoldable pub participant_view : Query → Bool
participant_view Query.schemes = false
participant_view Query.reserves = false
participant_view (Query.reserve _) = false
participant_view Query.central_bank_audit = false
participant_view Query.mandates = false
participant_view (Query.mandate _) = false
participant_view Query.payments = false
participant_view (Query.payment _) = false
participant_view Query.cycles = false
participant_view (Query.cycle _) = false
participant_view Query.settlements = false
participant_view (Query.settlement _) = false
participant_view _ = true

-- Every view but those of schemes and mandates.
unfoldable pub network_view : Query → Bool
network_view Query.schemes = false
network_view Query.mandates = false
network_view (Query.mandate _) = false
network_view _ = true

unfoldable pub mandate_view : Query → Bool
mandate_view Query.mandates = true
mandate_view (Query.mandate _) = true
mandate_view _ = false

unfoldable pub cycle_view : Query → Bool
cycle_view Query.cycles = true
cycle_view (Query.cycle _) = true
cycle_view _ = false

unfoldable pub ledger_list_view : String → Query → Bool
ledger_list_view pid (Query.ledgers p) = pid =? p
ledger_list_view pid (Query.subledgers p _) = pid =? p
ledger_list_view pid _ = false

unfoldable pub subledger_list_view : String → String → Query → Bool
subledger_list_view pid lid (Query.subledgers p l) = (pid =? p) && (lid =? l)
subledger_list_view pid lid _ = false

unfoldable pub account_list_view : String → String → Query → Bool
account_list_view pid sid (Query.accounts p s) = (pid =? p) && (sid =? s)
account_list_view pid sid _ = false

unfoldable pub snapshot_view : String → String → Query → Bool
snapshot_view pid did (Query.snapshots p d) = (pid =? p) && (did =? d)
snapshot_view pid did (Query.deposit_audit p) = pid =? p
snapshot_view pid did _ = false

-- The views that a mutation invalidates.
unfoldable pub refreshed : Mutation → Query → Bool
unfolding posting_view deposit_view central_view participant_view network_view mandate_view
    cycle_view ledger_list_view subledger_list_view account_list_view snapshot_view
refreshed (Mutation.add_participant _) q = participant_view q
refreshed (Mutation.create_ledger pid _) q = ledger_list_view pid q
refreshed (Mutation.create_subledger pid lid _) q = subledger_list_view pid lid q
refreshed (Mutation.create_account pid sid _) q = account_list_view pid sid q
refreshed (Mutation.post_transaction pid _) q = posting_view pid q
refreshed (Mutation.reverse_transaction pid _ _) q = posting_view pid q
refreshed (Mutation.open_deposit_account pid _) q = deposit_view pid q
refreshed (Mutation.set_deposit_status pid _ _) q = deposit_view pid q
refreshed (Mutation.close_deposit_account pid _) q = deposit_view pid q
refreshed (Mutation.fund_deposit pid _) q = central_view q || deposit_view pid q
refreshed (Mutation.create_hold pid _ _) q = deposit_view pid q
refreshed (Mutation.release_hold pid _) q = deposit_view pid q
refreshed (Mutation.capture_hold pid _ _) q = posting_view pid q || deposit_view pid q
refreshed (Mutation.take_snapshot pid did _) q = snapshot_view pid did q
refreshed (Mutation.create_mandate _) q = mandate_view q
refreshed (Mutation.revoke_mandate _) q = mandate_view q
refreshed (Mutation.initiate_payment _) q = network_view q
refreshed (Mutation.reject_payment _ _) q = network_view q
refreshed (Mutation.return_payment _ _) q = network_view q
refreshed (Mutation.open_cycle _) q = cycle_view q
refreshed (Mutation.close_cycle _) q = network_view q
refreshed (Mutation.settle_cycle _) q = network_view q
