-- ===== src/Endpoints/Endpoint.antt =====
-- The endpoint functions of web/src/lib/api/endpoints.ts as one type, so that a statement can range
-- over all of them.
use core_banking_system.Prelude.{String, Option, List, [], ◌∷◌}
use core_banking_system.Client.{Call}
use core_banking_system.Endpoints.Network
use core_banking_system.Endpoints.Ledger
use core_banking_system.Endpoints.Deposits
use core_banking_system.Endpoints.Payments
use core_banking_system.Types.Requests.{
  CaptureHoldRequest, CreateAccountRequest, CreateHoldRequest, CreateMandateRequest,
  DescriptionRequest, FundRequest, InitiatePaymentRequest, NameRequest, OpenCycleRequest,
  OpenDepositAccountRequest, PostTransactionRequest, ReasonRequest, SnapshotRequest, StatusRequest,
}

pub data Endpoint : Type 0 where
  list_participants : Endpoint
  get_participant : String → Endpoint
  add_participant : NameRequest → Endpoint
  fund_deposit : String → FundRequest → Endpoint
  list_schemes : Endpoint
  list_reserves : Endpoint
  get_reserve : String → Endpoint
  central_bank_audit : Endpoint
  list_ledgers : String → Endpoint
  create_ledger : String → NameRequest → Endpoint
  list_subledgers : String → String → Endpoint
  create_subledger : String → String → NameRequest → Endpoint
  list_accounts : String → String → Endpoint
  create_account : String → String → CreateAccountRequest → Endpoint
  get_book_balance : String → String → Endpoint
  list_transactions : String → Option String → Endpoint
  get_transaction : String → String → Endpoint
  post_transaction : String → PostTransactionRequest → Endpoint
  reverse_transaction : String → String → DescriptionRequest → Endpoint
  ledger_audit : String → Option String → Endpoint
  list_deposit_accounts : String → Endpoint
  get_deposit_account : String → String → Endpoint
  open_deposit_account : String → OpenDepositAccountRequest → Endpoint
  get_deposit_balance : String → String → Endpoint
  set_deposit_status : String → String → StatusRequest → Endpoint
  close_deposit_account : String → String → Endpoint
  list_holds : String → String → Endpoint
  create_hold : String → String → CreateHoldRequest → Endpoint
  get_hold : String → String → Endpoint
  release_hold : String → String → Endpoint
  capture_hold : String → String → CaptureHoldRequest → Endpoint
  list_snapshots : String → String → Endpoint
  take_snapshot : String → String → SnapshotRequest → Endpoint
  deposit_audit : String → Endpoint
  list_mandates : Endpoint
  get_mandate : String → Endpoint
  create_mandate : CreateMandateRequest → Endpoint
  revoke_mandate : String → Endpoint
  list_payments : Endpoint
  get_payment : String → Endpoint
  initiate_payment : InitiatePaymentRequest → Endpoint
  reject_payment : String → ReasonRequest → Endpoint
  return_payment : String → ReasonRequest → Endpoint
  list_cycles : Endpoint
  get_cycle : String → Endpoint
  open_cycle : OpenCycleRequest → Endpoint
  close_cycle : String → Endpoint
  settle_cycle : String → Endpoint
  list_settlements : Endpoint
  get_settlement : String → Endpoint

-- The call that each function makes.
unfoldable pub call : (String → String) → Endpoint → Call
unfolding Network.list_participants Network.get_participant Network.add_participant
    Network.fund_deposit Network.list_schemes Network.list_reserves Network.get_reserve
    Network.central_bank_audit Ledger.list_ledgers Ledger.create_ledger Ledger.list_subledgers
    Ledger.create_subledger Ledger.list_accounts Ledger.create_account Ledger.get_book_balance
    Ledger.list_transactions Ledger.get_transaction Ledger.post_transaction
    Ledger.reverse_transaction Ledger.ledger_audit Deposits.list_deposit_accounts
    Deposits.get_deposit_account Deposits.open_deposit_account Deposits.get_deposit_balance
    Deposits.set_deposit_status Deposits.close_deposit_account Deposits.list_holds
    Deposits.create_hold Deposits.get_hold Deposits.release_hold Deposits.capture_hold
    Deposits.list_snapshots Deposits.take_snapshot Deposits.deposit_audit Payments.list_mandates
    Payments.get_mandate Payments.create_mandate Payments.revoke_mandate Payments.list_payments
    Payments.get_payment Payments.initiate_payment Payments.reject_payment Payments.return_payment
    Payments.list_cycles Payments.get_cycle Payments.open_cycle Payments.close_cycle
    Payments.settle_cycle Payments.list_settlements Payments.get_settlement
call encode list_participants = Network.list_participants
call encode (get_participant a) = Network.get_participant a
call encode (add_participant a) = Network.add_participant a
call encode (fund_deposit a b) = Network.fund_deposit a b
call encode list_schemes = Network.list_schemes
call encode list_reserves = Network.list_reserves
call encode (get_reserve a) = Network.get_reserve a
call encode central_bank_audit = Network.central_bank_audit
call encode (list_ledgers a) = Ledger.list_ledgers a
call encode (create_ledger a b) = Ledger.create_ledger a b
call encode (list_subledgers a b) = Ledger.list_subledgers a b
call encode (create_subledger a b c) = Ledger.create_subledger a b c
call encode (list_accounts a b) = Ledger.list_accounts a b
call encode (create_account a b c) = Ledger.create_account a b c
call encode (get_book_balance a b) = Ledger.get_book_balance a b
call encode (list_transactions a b) = Ledger.list_transactions encode a b
call encode (get_transaction a b) = Ledger.get_transaction a b
call encode (post_transaction a b) = Ledger.post_transaction a b
call encode (reverse_transaction a b c) = Ledger.reverse_transaction a b c
call encode (ledger_audit a b) = Ledger.ledger_audit encode a b
call encode (list_deposit_accounts a) = Deposits.list_deposit_accounts a
call encode (get_deposit_account a b) = Deposits.get_deposit_account a b
call encode (open_deposit_account a b) = Deposits.open_deposit_account a b
call encode (get_deposit_balance a b) = Deposits.get_deposit_balance a b
call encode (set_deposit_status a b c) = Deposits.set_deposit_status a b c
call encode (close_deposit_account a b) = Deposits.close_deposit_account a b
call encode (list_holds a b) = Deposits.list_holds a b
call encode (create_hold a b c) = Deposits.create_hold a b c
call encode (get_hold a b) = Deposits.get_hold a b
call encode (release_hold a b) = Deposits.release_hold a b
call encode (capture_hold a b c) = Deposits.capture_hold a b c
call encode (list_snapshots a b) = Deposits.list_snapshots a b
call encode (take_snapshot a b c) = Deposits.take_snapshot a b c
call encode (deposit_audit a) = Deposits.deposit_audit a
call encode list_mandates = Payments.list_mandates
call encode (get_mandate a) = Payments.get_mandate a
call encode (create_mandate a) = Payments.create_mandate a
call encode (revoke_mandate a) = Payments.revoke_mandate a
call encode list_payments = Payments.list_payments
call encode (get_payment a) = Payments.get_payment a
call encode (initiate_payment a) = Payments.initiate_payment a
call encode (reject_payment a b) = Payments.reject_payment a b
call encode (return_payment a b) = Payments.return_payment a b
call encode list_cycles = Payments.list_cycles
call encode (get_cycle a) = Payments.get_cycle a
call encode (open_cycle a) = Payments.open_cycle a
call encode (close_cycle a) = Payments.close_cycle a
call encode (settle_cycle a) = Payments.settle_cycle a
call encode list_settlements = Payments.list_settlements
call encode (get_settlement a) = Payments.get_settlement a

-- The ids that a function puts into the path.
unfoldable pub ids : Endpoint → List String
ids list_participants = []
ids (get_participant a) = a ∷ []
ids (add_participant _) = []
ids (fund_deposit a _) = a ∷ []
ids list_schemes = []
ids list_reserves = []
ids (get_reserve a) = a ∷ []
ids central_bank_audit = []
ids (list_ledgers a) = a ∷ []
ids (create_ledger a _) = a ∷ []
ids (list_subledgers a b) = a ∷ b ∷ []
ids (create_subledger a b _) = a ∷ b ∷ []
ids (list_accounts a b) = a ∷ b ∷ []
ids (create_account a b _) = a ∷ b ∷ []
ids (get_book_balance a b) = a ∷ b ∷ []
ids (list_transactions a _) = a ∷ []
ids (get_transaction a b) = a ∷ b ∷ []
ids (post_transaction a _) = a ∷ []
ids (reverse_transaction a b _) = a ∷ b ∷ []
ids (ledger_audit a _) = a ∷ []
ids (list_deposit_accounts a) = a ∷ []
ids (get_deposit_account a b) = a ∷ b ∷ []
ids (open_deposit_account a _) = a ∷ []
ids (get_deposit_balance a b) = a ∷ b ∷ []
ids (set_deposit_status a b _) = a ∷ b ∷ []
ids (close_deposit_account a b) = a ∷ b ∷ []
ids (list_holds a b) = a ∷ b ∷ []
ids (create_hold a b _) = a ∷ b ∷ []
ids (get_hold a b) = a ∷ b ∷ []
ids (release_hold a b) = a ∷ b ∷ []
ids (capture_hold a b _) = a ∷ b ∷ []
ids (list_snapshots a b) = a ∷ b ∷ []
ids (take_snapshot a b _) = a ∷ b ∷ []
ids (deposit_audit a) = a ∷ []
ids list_mandates = []
ids (get_mandate a) = a ∷ []
ids (create_mandate _) = []
ids (revoke_mandate a) = a ∷ []
ids list_payments = []
ids (get_payment a) = a ∷ []
ids (initiate_payment _) = []
ids (reject_payment a _) = a ∷ []
ids (return_payment a _) = a ∷ []
ids list_cycles = []
ids (get_cycle a) = a ∷ []
ids (open_cycle _) = []
ids (close_cycle a) = a ∷ []
ids (settle_cycle a) = a ∷ []
ids list_settlements = []
ids (get_settlement a) = a ∷ []
