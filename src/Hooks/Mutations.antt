-- ===== src/Hooks/Mutations.antt =====
-- The mutation hooks of web/src/lib/api/hooks.ts: for each the endpoint function that it calls, and what
-- its `onSuccess` does to the query cache.
use core_banking_system.Prelude.{String, [], ◌∷◌}
use core_banking_system.QueryKeys
use core_banking_system.QueryKeys.{text, QueryKey}
use core_banking_system.Endpoints.Endpoint.{Endpoint}
use core_banking_system.Hooks.Cache.{QueryClient}
use core_banking_system.Types.Requests.{
  CaptureHoldRequest, CreateAccountRequest, CreateHoldRequest, CreateMandateRequest, FundRequest,
  InitiatePaymentRequest, NameRequest, OpenCycleRequest, OpenDepositAccountRequest,
  PostTransactionRequest, SnapshotRequest, StatusRequest,
}

module _ (qc : QueryClient) where
  open qc use {Cache, invalidate_queries}

  -- A mutation hook: the endpoint function with its variables, and what `onSuccess` does to the cache.
  pub record UseMutation (V : Type 0) : Type 0 where
    pub mutation_fn : V → Endpoint
    pub on_success : Cache → Cache

  -- After any posting of a participant.
  unfoldable pub invalidate_ledger : String → Cache → Cache
  invalidate_ledger pid c =
      let c1 = invalidate_queries (text "participants" ∷ text pid ∷ text "transactions" ∷ []) c in
      let c2 = invalidate_queries (text "participants" ∷ text pid ∷ text "accounts" ∷ []) c1 in
      invalidate_queries (text "participants" ∷ text pid ∷ text "audit" ∷ []) c2

  -- After any change in a participant's deposit layer.
  unfoldable pub invalidate_deposits : String → Cache → Cache
  unfolding QueryKeys.deposit_accounts QueryKeys.deposit_audit
  invalidate_deposits pid c =
      invalidate_queries (QueryKeys.deposit_audit pid)
        (invalidate_queries (QueryKeys.deposit_accounts pid) c)

  -- After a payment, a clearing or a settlement.
  unfoldable pub invalidate_network : Cache → Cache
  unfolding QueryKeys.payments QueryKeys.cycles QueryKeys.settlements QueryKeys.reserves
      QueryKeys.central_bank_audit
  invalidate_network c =
      let c1 = invalidate_queries QueryKeys.payments c in
      let c2 = invalidate_queries QueryKeys.cycles c1 in
      let c3 = invalidate_queries QueryKeys.settlements c2 in
      let c4 = invalidate_queries QueryKeys.reserves c3 in
      let c5 = invalidate_queries QueryKeys.central_bank_audit c4 in
      invalidate_queries (text "participants" ∷ []) c5

  unfoldable pub use_add_participant : UseMutation NameRequest
  unfolding QueryKeys.participants
  use_add_participant = record {
    mutation_fn = λ r. Endpoint.add_participant r;
    on_success = λ c. invalidate_queries QueryKeys.participants c;
  }

  unfoldable pub use_create_ledger : String → UseMutation NameRequest
  unfolding QueryKeys.ledgers
  use_create_ledger pid = record {
    mutation_fn = λ r. Endpoint.create_ledger pid r;
    on_success = λ c. invalidate_queries (QueryKeys.ledgers pid) c;
  }

  unfoldable pub use_create_subledger : String → String → UseMutation NameRequest
  unfolding QueryKeys.subledgers
  use_create_subledger pid lid = record {
    mutation_fn = λ r. Endpoint.create_subledger pid lid r;
    on_success = λ c. invalidate_queries (QueryKeys.subledgers pid lid) c;
  }

  unfoldable pub use_create_account : String → String → UseMutation CreateAccountRequest
  unfolding QueryKeys.accounts
  use_create_account pid sid = record {
    mutation_fn = λ r. Endpoint.create_account pid sid r;
    on_success = λ c. invalidate_queries (QueryKeys.accounts pid sid) c;
  }

  unfoldable pub use_post_transaction : String → UseMutation PostTransactionRequest
  unfolding invalidate_ledger
  use_post_transaction pid = record {
    mutation_fn = λ r. Endpoint.post_transaction pid r;
    on_success = invalidate_ledger pid;
  }

  unfoldable pub use_reverse_transaction : String → UseMutation (String × String)
  unfolding invalidate_ledger
  use_reverse_transaction pid = record {
    mutation_fn = λ vars. Endpoint.reverse_transaction pid vars.0 (record { description = vars.1 });
    on_success = invalidate_ledger pid;
  }

  unfoldable pub use_open_deposit_account : String → UseMutation OpenDepositAccountRequest
  unfolding invalidate_deposits
  use_open_deposit_account pid = record {
    mutation_fn = λ r. Endpoint.open_deposit_account pid r;
    on_success = invalidate_deposits pid;
  }

  unfoldable pub use_set_deposit_status : String → String → UseMutation StatusRequest
  unfolding invalidate_deposits
  use_set_deposit_status pid did = record {
    mutation_fn = λ r. Endpoint.set_deposit_status pid did r;
    on_success = invalidate_deposits pid;
  }

  unfoldable pub use_close_deposit_account : String → UseMutation String
  unfolding invalidate_deposits
  use_close_deposit_account pid = record {
    mutation_fn = λ did. Endpoint.close_deposit_account pid did;
    on_success = invalidate_deposits pid;
  }

  unfoldable pub use_fund_deposit : String → UseMutation FundRequest
  unfolding invalidate_deposits QueryKeys.reserves QueryKeys.reserve QueryKeys.central_bank_audit
  use_fund_deposit pid = record {
    mutation_fn = λ r. Endpoint.fund_deposit pid r;
    on_success = λ c.
        let c1 = invalidate_deposits pid c in
        let c2 = invalidate_queries QueryKeys.reserves c1 in
        let c3 = invalidate_queries (QueryKeys.reserve pid) c2 in
        invalidate_queries QueryKeys.central_bank_audit c3;
  }

  unfoldable pub use_create_hold : String → String → UseMutation CreateHoldRequest
  unfolding invalidate_deposits
  use_create_hold pid did = record {
    mutation_fn = λ r. Endpoint.create_hold pid did r;
    on_success = invalidate_deposits pid;
  }

  unfoldable pub use_release_hold : String → UseMutation String
  unfolding invalidate_deposits
  use_release_hold pid = record {
    mutation_fn = λ hid. Endpoint.release_hold pid hid;
    on_success = invalidate_deposits pid;
  }

  unfoldable pub use_capture_hold : String → UseMutation (String × CaptureHoldRequest)
  unfolding invalidate_ledger invalidate_deposits
  use_capture_hold pid = record {
    mutation_fn = λ vars. Endpoint.capture_hold pid vars.0 vars.1;
    on_success = λ c. invalidate_ledger pid (invalidate_deposits pid c);
  }

  unfoldable pub use_take_snapshot : String → String → UseMutation SnapshotRequest
  unfolding QueryKeys.snapshots QueryKeys.deposit_audit
  use_take_snapshot pid did = record {
    mutation_fn = λ r. Endpoint.take_snapshot pid did r;
    on_success = λ c.
        invalidate_queries (QueryKeys.deposit_audit pid)
          (invalidate_queries (QueryKeys.snapshots pid did) c);
  }

  unfoldable pub use_create_mandate : UseMutation CreateMandateRequest
  unfolding QueryKeys.mandates
  use_create_mandate = record {
    mutation_fn = λ r. Endpoint.create_mandate r;
    on_success = λ c. invalidate_queries QueryKeys.mandates c;
  }

  unfoldable pub use_revoke_mandate : UseMutation String
  unfolding QueryKeys.mandates
  use_revoke_mandate = record {
    mutation_fn = λ mid. Endpoint.revoke_mandate mid;
    on_success = λ c. invalidate_queries QueryKeys.mandates c;
  }

  unfoldable pub use_initiate_payment : UseMutation InitiatePaymentRequest
  unfolding invalidate_network
  use_initiate_payment = record {
    mutation_fn = λ r. Endpoint.initiate_payment r;
    on_success = invalidate_network;
  }

  unfoldable pub use_reject_payment : UseMutation (String × String)
  unfolding invalidate_network
  use_reject_payment = record {
    mutation_fn = λ vars. Endpoint.reject_payment vars.0 (record { reason = vars.1 });
    on_success = invalidate_network;
  }

  unfoldable pub use_return_payment : UseMutation (String × String)
  unfolding invalidate_network
  use_return_payment = record {
    mutation_fn = λ vars. Endpoint.return_payment vars.0 (record { reason = vars.1 });
    on_success = invalidate_network;
  }

  unfoldable pub use_open_cycle : UseMutation OpenCycleRequest
  unfolding QueryKeys.cycles
  use_open_cycle = record {
    mutation_fn = λ r. Endpoint.open_cycle r;
    on_success = λ c. invalidate_queries QueryKeys.cycles c;
  }

  unfoldable pub use_close_cycle : UseMutation String
  unfolding invalidate_network
  use_close_cycle = record {
    mutation_fn = λ cid. Endpoint.close_cycle cid;
    on_success = invalidate_network;
  }

  unfoldable pub use_settle_cycle : UseMutation String
  unfolding invalidate_network
  use_settle_cycle = record {
    mutation_fn = λ cid. Endpoint.settle_cycle cid;
    on_success = invalidate_network;
  }
