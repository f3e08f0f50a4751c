-- ===== src/Hooks/Query.antt =====
-- The query hooks as one type, so that a statement can range over all of them.
use core_banking_system.Prelude.{String, Option}
use core_banking_system.Hooks.Queries

pub data Query : Type 0 where
  participants : Query
  participant : String → Query
  schemes : Query
  reserves : Query
  reserve : String → Query
  central_bank_audit : Query
  ledgers : String → Query
  subledgers : String → String → Query
  accounts : String → String → Query
  account_balance : String → String → Query
  all_accounts : String → Query
  transactions : String → Option String → Query
  transaction : String → String → Query
  ledger_audit : String → Option String → Query
  deposit_accounts : String → Query
  deposit_account : String → String → Query
  deposit_balance : String → String → Query
  holds : String → String → Query
  snapshots : String → String → Query
  deposit_audit : String → Query
  mandates : Query
  mandate : String → Query
  payments : Query
  payment : String → Query
  cycles : Query
  cycle : String → Query
  settlements : Query
  settlement : String → Query

-- The hook that a query stands for.
unfoldable pub use_query : Query → Queries.UseQuery
unfolding Queries.use_participants Queries.use_participant Queries.use_schemes Queries.use_reserves
    Queries.use_reserve Queries.use_central_bank_audit Queries.use_ledgers Queries.use_subledgers
    Queries.use_accounts Queries.use_account_balance Queries.use_all_accounts
    Queries.use_transactions Queries.use_transaction Queries.use_ledger_audit
    Queries.use_deposit_accounts Queries.use_deposit_account Queries.use_deposit_balance
    Queries.use_holds Queries.use_snapshots Queries.use_deposit_audit Queries.use_mandates
    Queries.use_mandate Queries.use_payments Queries.use_payment Queries.use_cycles
    Queries.use_cycle Queries.use_settlements Queries.use_settlement
use_query participants = Queries.use_participants
use_query (participant a) = Queries.use_participant a
use_query schemes = Queries.use_schemes
use_query reserves = Queries.use_reserves
use_query (reserve a) = Queries.use_reserve a
use_query central_bank_audit = Queries.use_central_bank_audit
use_query (ledgers a) = Queries.use_ledgers a
use_query (subledgers a b) = Queries.use_subledgers a b
use_query (accounts a b) = Queries.use_accounts a b
use_query (account_balance a b) = Queries.use_account_balance a b
use_query (all_accounts a) = Queries.use_all_accounts a
use_query (transactions a o) = Queries.use_transactions a o
use_query (transaction a b) = Queries.use_transaction a b
use_query (ledger_audit a o) = Queries.use_ledger_audit a o
use_query (deposit_accounts a) = Queries.use_deposit_accounts a
use_query (deposit_account a b) = Queries.use_deposit_account a b
use_query (deposit_balance a b) = Queries.use_deposit_balance a b
use_query (holds a b) = Queries.use_holds a b
use_query (snapshots a b) = Queries.use_snapshots a b
use_query (deposit_audit a) = Queries.use_deposit_audit a
use_query mandates = Queries.use_mandates
use_query (mandate a) = Queries.use_mandate a
use_query payments = Queries.use_payments
use_query (payment a) = Queries.use_payment a
use_query cycles = Queries.use_cycles
use_query (cycle a) = Queries.use_cycle a
use_query settlements = Queries.use_settlements
use_query (settlement a) = Queries.use_settlement a
