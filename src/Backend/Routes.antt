-- ===== src/Backend/Routes.antt =====
-- The backend's routing table: the patterns registered in api/handlers_participant.go,
-- api/handlers_ledger.go, api/handlers_deposit.go and api/handlers_payment.go, and the choice of a
-- handler that `http.ServeMux` makes. No two of the patterns fit one request, so the first fit is
-- the only one.
use core_banking_system.Prelude.{
  String, Bool, true, false, Option, none, some, List, [], ◌∷◌, ◌++◌, ◌=?◌, truthy, if◌then◌else◌,
}
use core_banking_system.Client.{Method}

pub data Handler : Type 0 where
  handle_add_participant : Handler
  handle_list_participants : Handler
  handle_get_participant : Handler
  handle_fund_deposit : Handler
  handle_list_schemes : Handler
  handle_list_reserves : Handler
  handle_get_reserve : Handler
  handle_central_bank_audit : Handler
  handle_create_ledger : Handler
  handle_list_ledgers : Handler
  handle_get_ledger : Handler
  handle_create_subledger : Handler
  handle_list_subledgers : Handler
  handle_get_subledger : Handler
  handle_create_account : Handler
  handle_list_accounts : Handler
  handle_get_account : Handler
  handle_book_balance : Handler
  handle_post_transaction : Handler
  handle_list_transactions : Handler
  handle_get_transaction : Handler
  handle_reverse_transaction : Handler
  handle_ledger_audit : Handler
  handle_open_deposit_account : Handler
  handle_list_deposit_accounts : Handler
  handle_get_deposit_account : Handler
  handle_deposit_balance : Handler
  handle_deposit_status : Handler
  handle_close_deposit_account : Handler
  handle_create_hold : Handler
  handle_list_holds : Handler
  handle_get_hold : Handler
  handle_release_hold : Handler
  handle_capture_hold : Handler
  handle_take_snapshot : Handler
  handle_get_snapshots : Handler
  handle_deposit_audit : Handler
  handle_create_mandate : Handler
  handle_list_mandates : Handler
  handle_get_mandate : Handler
  handle_revoke_mandate : Handler
  handle_initiate_payment : Handler
  handle_list_payments : Handler
  handle_get_payment : Handler
  handle_reject_payment : Handler
  handle_return_payment : Handler
  handle_open_cycle : Handler
  handle_list_cycles : Handler
  handle_get_cycle : Handler
  handle_close_cycle : Handler
  handle_settle_cycle : Handler
  handle_list_settlements : Handler
  handle_get_settlement : Handler

-- A pattern's segment: a literal, or a wildcard such as `{pid}`.
pub data Pat : Type 0 where
  lit : String → Pat
  wild : Pat

-- A wildcard takes one segment that is not empty.
abbrev pub take_segment : String → Option (List String) → Option (List String)
take_segment s none = none
take_segment s (some vs) = if truthy s then some (s ∷ vs) else none

unfoldable pub match_path : List Pat → List String → Option (List String)
match_path [] [] = some []
match_path [] (_ ∷ _) = none
match_path (_ ∷ _) [] = none
match_path (lit p ∷ ps) (s ∷ ss) = if p =? s then match_path ps ss else none
match_path (wild ∷ ps) (s ∷ ss) = take_segment s (match_path ps ss)

unfoldable pub same_method : Method → Method → Bool
same_method Method.get Method.get = true
same_method Method.post Method.post = true
same_method Method.delete Method.delete = true
same_method Method.put Method.put = true
same_method Method.head Method.head = true
same_method Method.options Method.options = true
same_method _ _ = false

abbrev pub Route : Type 0
Route = Method × List Pat × Handler

abbrev pub participant_routes : List Route
participant_routes =
    (Method.post, lit "participants" ∷ [], handle_add_participant)
    ∷ (Method.get, lit "participants" ∷ [], handle_list_participants)
    ∷ (Method.get, lit "participants" ∷ wild ∷ [], handle_get_participant)
    ∷ (Method.post, lit "participants" ∷ wild ∷ lit "deposits" ∷ [], handle_fund_deposit)
    ∷ (Method.get, lit "schemes" ∷ [], handle_list_schemes)
    ∷ (Method.get, lit "central-bank" ∷ lit "reserves" ∷ [], handle_list_reserves)
    ∷ (Method.get, lit "central-bank" ∷ lit "reserves" ∷ wild ∷ [], handle_get_reserve)
    ∷ (Method.get, lit "central-bank" ∷ lit "audit" ∷ [], handle_central_bank_audit)
    ∷ []

abbrev pub ledger_routes : List Route
ledger_routes =
    (Method.post, lit "participants" ∷ wild ∷ lit "ledgers" ∷ [], handle_create_ledger)
    ∷ (Method.get, lit "participants" ∷ wild ∷ lit "ledgers" ∷ [], handle_list_ledgers)
    ∷ (Method.get, lit "participants" ∷ wild ∷ lit "ledgers" ∷ wild ∷ [], handle_get_ledger)
    ∷ (
      Method.post,
      lit "participants" ∷ wild ∷ lit "ledgers" ∷ wild ∷ lit "subledgers" ∷ [],
      handle_create_subledger,
    )
    ∷ (
      Method.get,
      lit "participants" ∷ wild ∷ lit "ledgers" ∷ wild ∷ lit "subledgers" ∷ [],
      handle_list_subledgers,
    )
    ∷ (Method.get, lit "participants" ∷ wild ∷ lit "subledgers" ∷ wild ∷ [], handle_get_subledger)
    ∷ (
      Method.post,
      lit "participants" ∷ wild ∷ lit "subledgers" ∷ wild ∷ lit "accounts" ∷ [],
      handle_create_account,
    )
    ∷ (
      Method.get,
      lit "participants" ∷ wild ∷ lit "subledgers" ∷ wild ∷ lit "accounts" ∷ [],
      handle_list_accounts,
    )
    ∷ (Method.get, lit "participants" ∷ wild ∷ lit "accounts" ∷ wild ∷ [], handle_get_account)
    ∷ (
      Method.get,
      lit "participants" ∷ wild ∷ lit "accounts" ∷ wild ∷ lit "balance" ∷ [],
      handle_book_balance,
    )
    ∷ (Method.post, lit "participants" ∷ wild ∷ lit "transactions" ∷ [], handle_post_transaction)
    ∷ (Method.get, lit "participants" ∷ wild ∷ lit "transactions" ∷ [], handle_list_transactions)
    ∷ (
      Method.get,
      lit "participants" ∷ wild ∷ lit "transactions" ∷ wild ∷ [],
      handle_get_transaction,
    )
    ∷ (
      Method.post,
      lit "participants" ∷ wild ∷ lit "transactions" ∷ wild ∷ lit "reversal" ∷ [],
      handle_reverse_transaction,
    )
    ∷ (Method.get, lit "participants" ∷ wild ∷ lit "audit" ∷ [], handle_ledger_audit)
    ∷ []

abbrev pub deposit_routes : List Route
deposit_routes =
    (
      Method.post,
      lit "participants" ∷ wild ∷ lit "deposit-accounts" ∷ [],
      handle_open_deposit_account,
    )
    ∷ (
      Method.get,
      lit "participants" ∷ wild ∷ lit "deposit-accounts" ∷ [],
      handle_list_deposit_accounts,
    )
    ∷ (
      Method.get,
      lit "participants" ∷ wild ∷ lit "deposit-accounts" ∷ wild ∷ [],
      handle_get_deposit_account,
    )
    ∷ (
      Method.get,
      lit "participants" ∷ wild ∷ lit "deposit-accounts" ∷ wild ∷ lit "balance" ∷ [],
      handle_deposit_balance,
    )
    ∷ (
      Method.post,
      lit "participants" ∷ wild ∷ lit "deposit-accounts" ∷ wild ∷ lit "status" ∷ [],
      handle_deposit_status,
    )
    ∷ (
      Method.delete,
      lit "participants" ∷ wild ∷ lit "deposit-accounts" ∷ wild ∷ [],
      handle_close_deposit_account,
    )
    ∷ (
      Method.post,
      lit "participants" ∷ wild ∷ lit "deposit-accounts" ∷ wild ∷ lit "holds" ∷ [],
      handle_create_hold,
    )
    ∷ (
      Method.get,
      lit "participants" ∷ wild ∷ lit "deposit-accounts" ∷ wild ∷ lit "holds" ∷ [],
      handle_list_holds,
    )
    ∷ (Method.get, lit "participants" ∷ wild ∷ lit "holds" ∷ wild ∷ [], handle_get_hold)
    ∷ (
      Method.post,
      lit "participants" ∷ wild ∷ lit "holds" ∷ wild ∷ lit "release" ∷ [],
      handle_release_hold,
    )
    ∷ (
      Method.post,
      lit "participants" ∷ wild ∷ lit "holds" ∷ wild ∷ lit "capture" ∷ [],
      handle_capture_hold,
    )
    ∷ (
      Method.post,
      lit "participants" ∷ wild ∷ lit "deposit-accounts" ∷ wild ∷ lit "snapshots" ∷ [],
      handle_take_snapshot,
    )
    ∷ (
      Method.get,
      lit "participants" ∷ wild ∷ lit "deposit-accounts" ∷ wild ∷ lit "snapshots" ∷ [],
      handle_get_snapshots,
    )
    ∷ (Method.get, lit "participants" ∷ wild ∷ lit "deposit-audit" ∷ [], handle_deposit_audit)
    ∷ []

abbrev pub payment_routes : List Route
payment_routes =
    (Method.post, lit "mandates" ∷ [], handle_create_mandate)
    ∷ (Method.get, lit "mandates" ∷ [], handle_list_mandates)
    ∷ (Method.get, lit "mandates" ∷ wild ∷ [], handle_get_mandate)
    ∷ (Method.post, lit "mandates" ∷ wild ∷ lit "revoke" ∷ [], handle_revoke_mandate)
    ∷ (Method.post, lit "payments" ∷ [], handle_initiate_payment)
    ∷ (Method.get, lit "payments" ∷ [], handle_list_payments)
    ∷ (Method.get, lit "payments" ∷ wild ∷ [], handle_get_payment)
    ∷ (Method.post, lit "payments" ∷ wild ∷ lit "reject" ∷ [], handle_reject_payment)
    ∷ (Method.post, lit "payments" ∷ wild ∷ lit "return" ∷ [], handle_return_payment)
    ∷ (Method.post, lit "cycles" ∷ [], handle_open_cycle)
    ∷ (Method.get, lit "cycles" ∷ [], handle_list_cycles)
    ∷ (Method.get, lit "cycles" ∷ wild ∷ [], handle_get_cycle)
    ∷ (Method.post, lit "cycles" ∷ wild ∷ lit "close" ∷ [], handle_close_cycle)
    ∷ (Method.post, lit "cycles" ∷ wild ∷ lit "settle" ∷ [], handle_settle_cycle)
    ∷ (Method.get, lit "settlements" ∷ [], handle_list_settlements)
    ∷ (Method.get, lit "settlements" ∷ wild ∷ [], handle_get_settlement)
    ∷ []

abbrev pub routes : List Route
routes = participant_routes ++ (ledger_routes ++ (deposit_routes ++ (payment_routes)))

-- The handler of a request, with the values of its wildcards.
unfoldable pub serve : List Route → Method → List String → Option (Handler × List String)
unfolding match_path same_method
serve [] m segs = none
serve ((n, ps, h) ∷ rs) m segs =
    let rest = serve rs m segs in
    if same_method n m
    then elim (match_path ps segs) [ none ↦ rest | some vs ↦ some (h, vs) ]
    else rest
