-- ===== src/Hooks/Changed.antt =====
-- What the handlers behind the mutations of web/src/lib/api/hooks.ts change of what its queries show, from
-- service.go, deposit/register.go and payment/system.go, and the gaps in what the mutations invalidate.
use core_banking_system.Prelude.{◌≡◌, String, Bool, true, false, ◌&&◌, ◌||◌, not, ◌=?◌, arith}
use core_banking_system.Hooks.Query.{Query}
use core_banking_system.Hooks.Mutation.{Mutation}
use core_banking_system.Hooks.Views.{refreshed, cycle_view}

-- A posting in a bank's ledger: `PostTransaction` and `ReverseTransaction` of service.go. The balance of a
-- deposit account is computed from that of its account in the ledger.
unfoldable pub posted : String → Query → Bool
posted pid (Query.transactions p _) = pid =? p
posted pid (Query.transaction p _) = pid =? p
posted pid (Query.account_balance p _) = pid =? p
posted pid (Query.ledger_audit p _) = pid =? p
posted pid (Query.deposit_balance p _) = pid =? p
posted pid _ = false

-- A posting in the ledger of a bank that the mutation does not name.
unfoldable pub posted_somewhere : Query → Bool
posted_somewhere (Query.transactions _ _) = true
posted_somewhere (Query.transaction _ _) = true
posted_somewhere (Query.account_balance _ _) = true
posted_somewhere (Query.ledger_audit _ _) = true
posted_somewhere (Query.deposit_balance _ _) = true
posted_somewhere _ = false

-- A change of the central bank's book.
unfoldable pub at_central_bank : Query → Bool
at_central_bank Query.reserves = true
at_central_bank (Query.reserve _) = true
at_central_bank Query.central_bank_audit = true
at_central_bank _ = false

-- A new account of a ledger, below any subledger.
unfoldable pub account_opened : String → Query → Bool
account_opened pid (Query.accounts p _) = pid =? p
account_opened pid (Query.all_accounts p) = pid =? p
account_opened pid (Query.account_balance p _) = pid =? p
account_opened pid (Query.ledger_audit p _) = pid =? p
account_opened pid _ = false

-- A change of a deposit account's record, and one of its holds.
unfoldable pub account_changed : String → Query → Bool
account_changed pid (Query.deposit_accounts p) = pid =? p
account_changed pid (Query.deposit_account p _) = pid =? p
account_changed pid (Query.deposit_audit p) = pid =? p
account_changed pid _ = false

unfoldable pub holds_changed : String → Query → Bool
holds_changed pid (Query.holds p _) = pid =? p
holds_changed pid (Query.deposit_balance p _) = pid =? p
holds_changed pid (Query.deposit_audit p) = pid =? p
holds_changed pid _ = false

-- Changes of payments and of cycles.
unfoldable pub payments_changed : Query → Bool
payments_changed Query.payments = true
payments_changed (Query.payment _) = true
payments_changed Query.cycles = true
payments_changed (Query.cycle _) = true
payments_changed _ = false

unfoldable pub settled : Query → Bool
settled Query.settlements = true
settled (Query.settlement _) = true
settled _ = false

unfoldable pub participant_added : Query → Bool
participant_added Query.participants = true
participant_added (Query.participant _) = true
participant_added _ = false

unfoldable pub ledger_logged : String → Query → Bool
ledger_logged pid (Query.ledger_audit p _) = pid =? p
ledger_logged pid _ = false

unfoldable pub ledger_added : String → Query → Bool
ledger_added pid (Query.ledgers p) = pid =? p
ledger_added pid _ = false

unfoldable pub subledger_added : String → String → Query → Bool
subledger_added pid lid (Query.subledgers p l) = (pid =? p) && (lid =? l)
subledger_added pid lid _ = false

-- A new account of one subledger.
unfoldable pub account_added : String → String → Query → Bool
account_added pid sid (Query.accounts p s) = (pid =? p) && (sid =? s)
account_added pid sid (Query.all_accounts p) = pid =? p
account_added pid sid (Query.account_balance p _) = pid =? p
account_added pid sid (Query.ledger_audit p _) = pid =? p
account_added pid sid _ = false

unfoldable pub snapshot_taken : String → String → Query → Bool
snapshot_taken pid did (Query.snapshots p d) = (pid =? p) && (did =? d)
snapshot_taken pid did (Query.deposit_audit p) = pid =? p
snapshot_taken pid did _ = false

unfoldable pub mandate_changed : Query → Bool
mandate_changed Query.mandates = true
mandate_changed (Query.mandate _) = true
mandate_changed _ = false

-- Whether a mutation that has succeeded can have changed what a query shows.
unfoldable pub changed : Mutation → Query → Bool
unfolding participant_added at_central_bank ledger_added ledger_logged subledger_added account_added
    posted account_changed account_opened holds_changed snapshot_taken mandate_changed
    payments_changed posted_somewhere settled cycle_view
changed (Mutation.add_participant _) q = participant_added q || at_central_bank q
changed (Mutation.create_ledger pid _) q = ledger_added pid q || ledger_logged pid q
changed (Mutation.create_subledger pid lid _) q = subledger_added pid lid q || ledger_logged pid q
changed (Mutation.create_account pid sid _) q = account_added pid sid q
changed (Mutation.post_transaction pid _) q = posted pid q
changed (Mutation.reverse_transaction pid _ _) q = posted pid q
changed (Mutation.open_deposit_account pid _) q = account_changed pid q || account_opened pid q
changed (Mutation.set_deposit_status pid _ _) q = account_changed pid q
changed (Mutation.close_deposit_account pid _) q = account_changed pid q
changed (Mutation.fund_deposit pid _) q = posted pid q || at_central_bank q
changed (Mutation.create_hold pid _ _) q = holds_changed pid q
changed (Mutation.release_hold pid _) q = holds_changed pid q
changed (Mutation.capture_hold pid _ _) q = posted pid q || holds_changed pid q
changed (Mutation.take_snapshot pid did _) q = snapshot_taken pid did q
changed (Mutation.create_mandate _) q = mandate_changed q
changed (Mutation.revoke_mandate _) q = mandate_changed q
changed (Mutation.initiate_payment _) q = payments_changed q || posted_somewhere q
changed (Mutation.reject_payment _ _) q = payments_changed q || posted_somewhere q
changed (Mutation.return_payment _ _) q =
    payments_changed q || (posted_somewhere q || at_central_bank q)
changed (Mutation.open_cycle _) q = cycle_view q
changed (Mutation.close_cycle _) q = payments_changed q
changed (Mutation.settle_cycle _) q =
    payments_changed q || (settled q || (posted_somewhere q || at_central_bank q))

-- The queries of a posting that show a single transaction or a deposit account's balance.
unfoldable pub transaction_missed : Query → Bool
transaction_missed (Query.transaction _ _) = true
transaction_missed _ = false

unfoldable pub posting_missed : Query → Bool
posting_missed (Query.transaction _ _) = true
posting_missed (Query.deposit_balance _ _) = true
posting_missed _ = false

unfoldable pub funding_missed : Query → Bool
funding_missed (Query.transactions _ _) = true
funding_missed (Query.transaction _ _) = true
funding_missed (Query.account_balance _ _) = true
funding_missed (Query.ledger_audit _ _) = true
funding_missed _ = false

unfoldable pub opening_missed : Query → Bool
opening_missed (Query.accounts _ _) = true
opening_missed (Query.all_accounts _) = true
opening_missed (Query.account_balance _ _) = true
opening_missed (Query.ledger_audit _ _) = true
opening_missed _ = false

unfoldable pub creation_missed : Query → Bool
creation_missed (Query.all_accounts _) = true
creation_missed (Query.account_balance _ _) = true
creation_missed (Query.ledger_audit _ _) = true
creation_missed _ = false

-- The gaps: what a mutation changes and does not invalidate.
unfoldable pub missed : Mutation → Query → Bool
unfolding at_central_bank transaction_missed posting_missed funding_missed opening_missed
    creation_missed
missed (Mutation.add_participant _) q = at_central_bank q
missed (Mutation.create_ledger _ _) q = creation_missed q
missed (Mutation.create_subledger _ _ _) q = creation_missed q
missed (Mutation.create_account _ _ _) q = creation_missed q
missed (Mutation.post_transaction _ _) q = posting_missed q
missed (Mutation.reverse_transaction _ _ _) q = posting_missed q
missed (Mutation.open_deposit_account _ _) q = opening_missed q
missed (Mutation.fund_deposit _ _) q = funding_missed q
missed (Mutation.capture_hold _ _ _) q = transaction_missed q
missed _ q = false

module _ (q : Query) where
  pub refreshed-changed : (m : Mutation) → changed m q ≡ true → refreshed m q ≡ not (missed m q)
  unfolding changed missed refreshed
  refreshed-changed (Mutation.add_participant _) h = ground arith
  refreshed-changed (Mutation.create_ledger pid _) h = ground arith
  refreshed-changed (Mutation.create_subledger pid lid _) h = ground arith
  refreshed-changed (Mutation.create_account pid sid _) h = ground arith
  refreshed-changed (Mutation.post_transaction pid _) h = ground arith
  refreshed-changed (Mutation.reverse_transaction pid _ _) h = ground arith
  refreshed-changed (Mutation.open_deposit_account pid _) h = ground arith
  refreshed-changed (Mutation.set_deposit_status pid _ _) h = ground arith
  refreshed-changed (Mutation.close_deposit_account pid _) h = ground arith
  refreshed-changed (Mutation.fund_deposit pid _) h = ground arith
  refreshed-changed (Mutation.create_hold pid _ _) h = ground arith
  refreshed-changed (Mutation.release_hold pid _) h = ground arith
  refreshed-changed (Mutation.capture_hold pid _ _) h = ground arith
  refreshed-changed (Mutation.take_snapshot pid did _) h = ground arith
  refreshed-changed (Mutation.create_mandate _) h = ground arith
  refreshed-changed (Mutation.revoke_mandate _) h = ground arith
  refreshed-changed (Mutation.initiate_payment _) h = ground arith
  refreshed-changed (Mutation.reject_payment _ _) h = ground arith
  refreshed-changed (Mutation.return_payment _ _) h = ground arith
  refreshed-changed (Mutation.open_cycle _) h = ground arith
  refreshed-changed (Mutation.close_cycle _) h = ground arith
  refreshed-changed (Mutation.settle_cycle _) h = ground arith
