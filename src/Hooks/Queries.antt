-- ===== src/Hooks/Queries.antt =====
-- The query hooks of web/src/lib/api/hooks.ts: for each its key, what it fetches, and the condition
-- under which it fetches at all.
use core_banking_system.Prelude.{String, Bool, true, Option, not, ◌&&◌, ◌=?◌}
use core_banking_system.QueryKeys
use core_banking_system.QueryKeys.{QueryKey}
use core_banking_system.Endpoints.Endpoint.{Endpoint}

-- A query function: one endpoint, or the walk over a participant's chart of accounts.
pub data QueryFn : Type 0 where
  fetch : Endpoint → QueryFn
  walk_accounts : String → QueryFn

pub record UseQuery : Type 0 where
  pub query_key : QueryKey
  pub query_fn : QueryFn
  pub enabled : Bool

-- `id !== ""`.
abbrev pub present : String → Bool
present id = not (id =? "")

unfoldable pub use_participants : UseQuery
unfolding QueryKeys.participants
use_participants = record {
  query_key = QueryKeys.participants;
  query_fn = fetch Endpoint.list_participants;
  enabled = true;
}

unfoldable pub use_participant : String → UseQuery
unfolding QueryKeys.participant
use_participant a = record {
  query_key = QueryKeys.participant a;
  query_fn = fetch (Endpoint.get_participant a);
  enabled = present a;
}

unfoldable pub use_schemes : UseQuery
unfolding QueryKeys.schemes
use_schemes = record {
  query_key = QueryKeys.schemes;
  query_fn = fetch Endpoint.list_schemes;
  enabled = true;
}

unfoldable pub use_reserves : UseQuery
unfolding QueryKeys.reserves
use_reserves = record {
  query_key = QueryKeys.reserves;
  query_fn = fetch Endpoint.list_reserves;
  enabled = true;
}

unfoldable pub use_reserve : String → UseQuery
unfolding QueryKeys.reserve
use_reserve a = record {
  query_key = QueryKeys.reserve a;
  query_fn = fetch (Endpoint.get_reserve a);
  enabled = present a;
}

unfoldable pub use_central_bank_audit : UseQuery
unfolding QueryKeys.central_bank_audit
use_central_bank_audit = record {
  query_key = QueryKeys.central_bank_audit;
  query_fn = fetch Endpoint.central_bank_audit;
  enabled = true;
}

unfoldable pub use_ledgers : String → UseQuery
unfolding QueryKeys.ledgers
use_ledgers a = record {
  query_key = QueryKeys.ledgers a;
  query_fn = fetch (Endpoint.list_ledgers a);
  enabled = present a;
}

unfoldable pub use_subledgers : String → String → UseQuery
unfolding QueryKeys.subledgers
use_subledgers a b = record {
  query_key = QueryKeys.subledgers a b;
  query_fn = fetch (Endpoint.list_subledgers a b);
  enabled = present a && present b;
}

unfoldable pub use_accounts : String → String → UseQuery
unfolding QueryKeys.accounts
use_accounts a b = record {
  query_key = QueryKeys.accounts a b;
  query_fn = fetch (Endpoint.list_accounts a b);
  enabled = present a && present b;
}

unfoldable pub use_account_balance : String → String → UseQuery
unfolding QueryKeys.account_balance
use_account_balance a b = record {
  query_key = QueryKeys.account_balance a b;
  query_fn = fetch (Endpoint.get_book_balance a b);
  enabled = present a && present b;
}

unfoldable pub use_all_accounts : String → UseQuery
unfolding QueryKeys.all_accounts
use_all_accounts a = record {
  query_key = QueryKeys.all_accounts a;
  query_fn = walk_accounts a;
  enabled = present a;
}

unfoldable pub use_transactions : String → Option String → UseQuery
unfolding QueryKeys.transactions
use_transactions a o = record {
  query_key = QueryKeys.transactions a o;
  query_fn = fetch (Endpoint.list_transactions a o);
  enabled = present a;
}

unfoldable pub use_transaction : String → String → UseQuery
unfolding QueryKeys.transaction
use_transaction a b = record {
  query_key = QueryKeys.transaction a b;
  query_fn = fetch (Endpoint.get_transaction a b);
  enabled = present a && present b;
}

unfoldable pub use_ledger_audit : String → Option String → UseQuery
unfolding QueryKeys.ledger_audit
use_ledger_audit a o = record {
  query_key = QueryKeys.ledger_audit a o;
  query_fn = fetch (Endpoint.ledger_audit a o);
  enabled = present a;
}

unfoldable pub use_deposit_accounts : String → UseQuery
unfolding QueryKeys.deposit_accounts
use_deposit_accounts a = record {
  query_key = QueryKeys.deposit_accounts a;
  query_fn = fetch (Endpoint.list_deposit_accounts a);
  enabled = present a;
}

unfoldable pub use_deposit_account : String → String → UseQuery
unfolding QueryKeys.deposit_account
use_deposit_account a b = record {
  query_key = QueryKeys.deposit_account a b;
  query_fn = fetch (Endpoint.get_deposit_account a b);
  enabled = present a && present b;
}

unfoldable pub use_deposit_balance : String → String → UseQuery
unfolding QueryKeys.deposit_balance
use_deposit_balance a b = record {
  query_key = QueryKeys.deposit_balance a b;
  query_fn = fetch (Endpoint.get_deposit_balance a b);
  enabled = present a && present b;
}

unfoldable pub use_holds : String → String → UseQuery
unfolding QueryKeys.holds
use_holds a b = record {
  query_key = QueryKeys.holds a b;
  query_fn = fetch (Endpoint.list_holds a b);
  enabled = present a && present b;
}

unfoldable pub use_snapshots : String → String → UseQuery
unfolding QueryKeys.snapshots
use_snapshots a b = record {
  query_key = QueryKeys.snapshots a b;
  query_fn = fetch (Endpoint.list_snapshots a b);
  enabled = present a && present b;
}

unfoldable pub use_deposit_audit : String → UseQuery
unfolding QueryKeys.deposit_audit
use_deposit_audit a = record {
  query_key = QueryKeys.deposit_audit a;
  query_fn = fetch (Endpoint.deposit_audit a);
  enabled = present a;
}

unfoldable pub use_mandates : UseQuery
unfolding QueryKeys.mandates
use_mandates = record {
  query_key = QueryKeys.mandates;
  query_fn = fetch Endpoint.list_mandates;
  enabled = true;
}

unfoldable pub use_mandate : String → UseQuery
unfolding QueryKeys.mandate
use_mandate a = record {
  query_key = QueryKeys.mandate a;
  query_fn = fetch (Endpoint.get_mandate a);
  enabled = present a;
}

unfoldable pub use_payments : UseQuery
unfolding QueryKeys.payments
use_payments = record {
  query_key = QueryKeys.payments;
  query_fn = fetch Endpoint.list_payments;
  enabled = true;
}

unfoldable pub use_payment : String → UseQuery
unfolding QueryKeys.payment
use_payment a = record {
  query_key = QueryKeys.payment a;
  query_fn = fetch (Endpoint.get_payment a);
  enabled = present a;
}

unfoldable pub use_cycles : UseQuery
unfolding QueryKeys.cycles
use_cycles = record {
  query_key = QueryKeys.cycles;
  query_fn = fetch Endpoint.list_cycles;
  enabled = true;
}

unfoldable pub use_cycle : String → UseQuery
unfolding QueryKeys.cycle
use_cycle a = record {
  query_key = QueryKeys.cycle a;
  query_fn = fetch (Endpoint.get_cycle a);
  enabled = present a;
}

unfoldable pub use_settlements : UseQuery
unfolding QueryKeys.settlements
use_settlements = record {
  query_key = QueryKeys.settlements;
  query_fn = fetch Endpoint.list_settlements;
  enabled = true;
}

unfoldable pub use_settlement : String → UseQuery
unfolding QueryKeys.settlement
use_settlement a = record {
  query_key = QueryKeys.settlement a;
  query_fn = fetch (Endpoint.get_settlement a);
  enabled = present a;
}
