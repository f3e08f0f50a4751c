-- ===== src/Hooks/Refresh.antt =====
-- Which queries a mutation of web/src/lib/api/hooks.ts has fetched again.
use mathlib.Core.Bool.{or_assoc}
use core_banking_system.Prelude.{◌≡◌, refl, ◌∙◌, ap, Bool, true, not, ◌||◌}
use core_banking_system.QueryKeys.{QueryKey}
use core_banking_system.Hooks.Cache.{QueryClient}
use core_banking_system.Hooks.Query.{Query}
use core_banking_system.Hooks.Mutation.{Mutation, on_success}
use core_banking_system.Hooks.Views.{key, refreshed}
use core_banking_system.Hooks.Changed.{changed, missed, refreshed-changed}
use core_banking_system.Hooks.Hits.{
  ledger_hits, deposit_hits, funded_hits, network_hits, participant_hits, mandate_hits, cycle_hits,
  ledger_list_hits, subledger_list_hits, account_list_hits, snapshot_hits, ledger_hits-key,
  deposit_hits-key, funded_hits-key, network_hits-key, participant_hits-key, mandate_hits-key,
  cycle_hits-key, ledger_list_hits-key, subledger_list_hits-key, account_list_hits-key,
  snapshot_hits-key,
}

-- The keys that a mutation hits.
hits : Mutation → QueryKey → Bool
hits (Mutation.add_participant _) j = participant_hits j
hits (Mutation.create_ledger pid _) j = ledger_list_hits pid j
hits (Mutation.create_subledger pid lid _) j = subledger_list_hits pid lid j
hits (Mutation.create_account pid sid _) j = account_list_hits pid sid j
hits (Mutation.post_transaction pid _) j = ledger_hits pid j
hits (Mutation.reverse_transaction pid _ _) j = ledger_hits pid j
hits (Mutation.open_deposit_account pid _) j = deposit_hits pid j
hits (Mutation.set_deposit_status pid _ _) j = deposit_hits pid j
hits (Mutation.close_deposit_account pid _) j = deposit_hits pid j
hits (Mutation.fund_deposit pid _) j = funded_hits pid j || deposit_hits pid j
hits (Mutation.create_hold pid _ _) j = deposit_hits pid j
hits (Mutation.release_hold pid _) j = deposit_hits pid j
hits (Mutation.capture_hold pid _ _) j = ledger_hits pid j || deposit_hits pid j
hits (Mutation.take_snapshot pid did _) j = snapshot_hits pid did j
hits (Mutation.create_mandate _) j = mandate_hits j
hits (Mutation.revoke_mandate _) j = mandate_hits j
hits (Mutation.initiate_payment _) j = network_hits j
hits (Mutation.reject_payment _ _) j = network_hits j
hits (Mutation.return_payment _ _) j = network_hits j
hits (Mutation.open_cycle _) j = cycle_hits j
hits (Mutation.close_cycle _) j = network_hits j
hits (Mutation.settle_cycle _) j = network_hits j

hits-key : (m : Mutation) (q : Query) → hits m (key q) ≡ refreshed m q
unfolding hits refreshed
hits-key (Mutation.add_participant _) q = participant_hits-key q
hits-key (Mutation.create_ledger pid _) q = ledger_list_hits-key pid q
hits-key (Mutation.create_subledger pid lid _) q = subledger_list_hits-key pid lid q
hits-key (Mutation.create_account pid sid _) q = account_list_hits-key pid sid q
hits-key (Mutation.post_transaction pid _) q = ledger_hits-key pid q
hits-key (Mutation.reverse_transaction pid _ _) q = ledger_hits-key pid q
hits-key (Mutation.open_deposit_account pid _) q = deposit_hits-key pid q
hits-key (Mutation.set_deposit_status pid _ _) q = deposit_hits-key pid q
hits-key (Mutation.close_deposit_account pid _) q = deposit_hits-key pid q
hits-key (Mutation.fund_deposit pid _) q = rw (funded_hits-key pid q, deposit_hits-key pid q) refl
hits-key (Mutation.create_hold pid _ _) q = deposit_hits-key pid q
hits-key (Mutation.release_hold pid _) q = deposit_hits-key pid q
hits-key (Mutation.capture_hold pid _ _) q = rw (ledger_hits-key pid q, deposit_hits-key pid q) refl
hits-key (Mutation.take_snapshot pid did _) q = snapshot_hits-key pid did q
hits-key (Mutation.create_mandate _) q = mandate_hits-key q
hits-key (Mutation.revoke_mandate _) q = mandate_hits-key q
hits-key (Mutation.initiate_payment _) q = network_hits-key q
hits-key (Mutation.reject_payment _ _) q = network_hits-key q
hits-key (Mutation.return_payment _ _) q = network_hits-key q
hits-key (Mutation.open_cycle _) q = cycle_hits-key q
hits-key (Mutation.close_cycle _) q = network_hits-key q
hits-key (Mutation.settle_cycle _) q = network_hits-key q

module _ (qc : QueryClient) where
  open qc use {Cache, stale, stale-invalidate}

  stale-on_success :
      (m : Mutation) (j : QueryKey) (c : Cache)
      → stale (on_success qc m c) j ≡ (hits m j || stale c j)
  unfolding hits on_success ledger_hits deposit_hits funded_hits network_hits participant_hits
      mandate_hits cycle_hits ledger_list_hits subledger_list_hits account_list_hits snapshot_hits
  stale-on_success (Mutation.add_participant r) j c = simp (stale-invalidate, or_assoc)
  stale-on_success _ j c = simp (stale-invalidate, or_assoc)

  -- The queries that have to be fetched again after a mutation are those that had to be before and those
  -- whose keys it invalidates.
  stale-refreshed :
      (m : Mutation) (q : Query) (c : Cache)
      → stale (on_success qc m c) (key q) ≡ (refreshed m q || stale c (key q))
  stale-refreshed m q c =
      stale-on_success m (key q) c ∙ ap (λ b. b || stale c (key q)) (hits-key m q)

  -- After a mutation has succeeded, a query whose answer its handler in the backend can have changed
  -- is to be fetched again, but for these gaps, which stay as they were: a single transaction after
  -- a posting, a reversal, a capture or a funding; a deposit balance after a posting or a reversal;
  -- a ledger's transactions, balances and log after a funding; the flattened chart of accounts, a
  -- ledger account's balance and the ledger's log after an account is created or a deposit account
  -- opened, and after the latter also the lists of accounts; the ledger's log after a ledger or a
  -- subledger is created; and the central bank's reserves and log after a participant is added.
  pub stale-changed :
      (m : Mutation) (q : Query) (c : Cache)
      → changed m q ≡ true
      → stale (on_success qc m c) (key q) ≡ (not (missed m q) || stale c (key q))
  stale-changed m q c h =
      stale-refreshed m q c ∙ ap (λ b. b || stale c (key q)) (refreshed-changed q m h)
