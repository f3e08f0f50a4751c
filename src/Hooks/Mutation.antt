-- ===== src/Hooks/Mutation.antt =====
-- The mutation hooks as one type, so that a statement can range over all of them.
use core_banking_system.Prelude.{String}
use core_banking_system.Endpoints.Endpoint.{Endpoint}
use core_banking_system.Hooks.Cache.{QueryClient}
use core_banking_system.Hooks.Mutations
use core_banking_system.Types.Requests.{
  CaptureHoldRequest, CreateAccountRequest, CreateHoldRequest, CreateMandateRequest, FundRequest,
  InitiatePaymentRequest, NameRequest, OpenCycleRequest, OpenDepositAccountRequest,
  PostTransactionRequest, SnapshotRequest, StatusRequest,
}

-- A call of a mutation hook with its variables.
pub data Mutation : Type 0 where
  add_participant : NameRequest → Mutation
  create_ledger : String → NameRequest → Mutation
  create_subledger : String → String → NameRequest → Mutation
  create_account : String → String → CreateAccountRequest → Mutation
  post_transaction : String → PostTransactionRequest → Mutation
  reverse_transaction : String → String → String → Mutation
  open_deposit_account : String → OpenDepositAccountRequest → Mutation
  set_deposit_status : String → String → StatusRequest → Mutation
  close_deposit_account : String → String → Mutation
  fund_deposit : String → FundRequest → Mutation
  create_hold : String → String → CreateHoldRequest → Mutation
  release_hold : String → String → Mutation
  capture_hold : String → String → CaptureHoldRequest → Mutation
  take_snapshot : String → String → SnapshotRequest → Mutation
  create_mandate : CreateMandateRequest → Mutation
  revoke_mandate : String → Mutation
  initiate_payment : InitiatePaymentRequest → Mutation
  reject_payment : String → String → Mutation
  return_payment : String → String → Mutation
  open_cycle : OpenCycleRequest → Mutation
  close_cycle : String → Mutation
  settle_cycle : String → Mutation

module _ (qc : QueryClient) where
  -- The endpoint function that it calls.
  unfoldable pub mutation_fn : Mutation → Endpoint
  unfolding Mutations.use_add_participant Mutations.use_create_ledger Mutations.use_create_subledger
      Mutations.use_create_account Mutations.use_post_transaction Mutations.use_reverse_transaction
      Mutations.use_open_deposit_account Mutations.use_set_deposit_status
      Mutations.use_close_deposit_account Mutations.use_fund_deposit Mutations.use_create_hold
      Mutations.use_release_hold Mutations.use_capture_hold Mutations.use_take_snapshot
      Mutations.use_create_mandate Mutations.use_revoke_mandate Mutations.use_initiate_payment
      Mutations.use_reject_payment Mutations.use_return_payment Mutations.use_open_cycle
      Mutations.use_close_cycle Mutations.use_settle_cycle
  mutation_fn (add_participant r) = (Mutations.use_add_participant qc).mutation_fn r
  mutation_fn (create_ledger pid r) = (Mutations.use_create_ledger qc pid).mutation_fn r
  mutation_fn (create_subledger pid lid r) =
      (Mutations.use_create_subledger qc pid lid).mutation_fn r
  mutation_fn (create_account pid sid r) = (Mutations.use_create_account qc pid sid).mutation_fn r
  mutation_fn (post_transaction pid r) = (Mutations.use_post_transaction qc pid).mutation_fn r
  mutation_fn (reverse_transaction pid tid d) =
      (Mutations.use_reverse_transaction qc pid).mutation_fn (tid, d)
  mutation_fn (open_deposit_account pid r) =
      (Mutations.use_open_deposit_account qc pid).mutation_fn r
  mutation_fn (set_deposit_status pid did r) =
      (Mutations.use_set_deposit_status qc pid did).mutation_fn r
  mutation_fn (close_deposit_account pid did) =
      (Mutations.use_close_deposit_account qc pid).mutation_fn did
  mutation_fn (fund_deposit pid r) = (Mutations.use_fund_deposit qc pid).mutation_fn r
  mutation_fn (create_hold pid did r) = (Mutations.use_create_hold qc pid did).mutation_fn r
  mutation_fn (release_hold pid hid) = (Mutations.use_release_hold qc pid).mutation_fn hid
  mutation_fn (capture_hold pid hid r) = (Mutations.use_capture_hold qc pid).mutation_fn (hid, r)
  mutation_fn (take_snapshot pid did r) = (Mutations.use_take_snapshot qc pid did).mutation_fn r
  mutation_fn (create_mandate r) = (Mutations.use_create_mandate qc).mutation_fn r
  mutation_fn (revoke_mandate mid) = (Mutations.use_revoke_mandate qc).mutation_fn mid
  mutation_fn (initiate_payment r) = (Mutations.use_initiate_payment qc).mutation_fn r
  mutation_fn (reject_payment payid reason) =
      (Mutations.use_reject_payment qc).mutation_fn (payid, reason)
  mutation_fn (return_payment payid reason) =
      (Mutations.use_return_payment qc).mutation_fn (payid, reason)
  mutation_fn (open_cycle r) = (Mutations.use_open_cycle qc).mutation_fn r
  mutation_fn (close_cycle cid) = (Mutations.use_close_cycle qc).mutation_fn cid
  mutation_fn (settle_cycle cid) = (Mutations.use_settle_cycle qc).mutation_fn cid

  -- What its success does to the cache.
  unfoldable pub on_success : Mutation → qc.Cache → qc.Cache
  unfolding Mutations.use_add_participant Mutations.use_create_ledger Mutations.use_create_subledger
      Mutations.use_create_account Mutations.use_post_transaction Mutations.use_reverse_transaction
      Mutations.use_open_deposit_account Mutations.use_set_deposit_status
      Mutations.use_close_deposit_account Mutations.use_fund_deposit Mutations.use_create_hold
      Mutations.use_release_hold Mutations.use_capture_hold Mutations.use_take_snapshot
      Mutations.use_create_mandate Mutations.use_revoke_mandate Mutations.use_initiate_payment
      Mutations.use_reject_payment Mutations.use_return_payment Mutations.use_open_cycle
      Mutations.use_close_cycle Mutations.use_settle_cycle
  on_success (add_participant _) = (Mutations.use_add_participant qc).on_success
  on_success (create_ledger pid _) = (Mutations.use_create_ledger qc pid).on_success
  on_success (create_subledger pid lid _) = (Mutations.use_create_subledger qc pid lid).on_success
  on_success (create_account pid sid _) = (Mutations.use_create_account qc pid sid).on_success
  on_success (post_transaction pid _) = (Mutations.use_post_transaction qc pid).on_success
  on_success (reverse_transaction pid _ _) = (Mutations.use_reverse_transaction qc pid).on_success
  on_success (open_deposit_account pid _) = (Mutations.use_open_deposit_account qc pid).on_success
  on_success (set_deposit_status pid did _) =
      (Mutations.use_set_deposit_status qc pid did).on_success
  on_success (close_deposit_account pid _) = (Mutations.use_close_deposit_account qc pid).on_success
  on_success (fund_deposit pid _) = (Mutations.use_fund_deposit qc pid).on_success
  on_success (create_hold pid did _) = (Mutations.use_create_hold qc pid did).on_success
  on_success (release_hold pid _) = (Mutations.use_release_hold qc pid).on_success
  on_success (capture_hold pid _ _) = (Mutations.use_capture_hold qc pid).on_success
  on_success (take_snapshot pid did _) = (Mutations.use_take_snapshot qc pid did).on_success
  on_success (create_mandate _) = (Mutations.use_create_mandate qc).on_success
  on_success (revoke_mandate _) = (Mutations.use_revoke_mandate qc).on_success
  on_success (initiate_payment _) = (Mutations.use_initiate_payment qc).on_success
  on_success (reject_payment _ _) = (Mutations.use_reject_payment qc).on_success
  on_success (return_payment _ _) = (Mutations.use_return_payment qc).on_success
  on_success (open_cycle _) = (Mutations.use_open_cycle qc).on_success
  on_success (close_cycle _) = (Mutations.use_close_cycle qc).on_success
  on_success (settle_cycle _) = (Mutations.use_settle_cycle qc).on_success
