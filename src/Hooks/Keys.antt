-- ===== src/Hooks/Keys.antt =====
-- Two queries that share a cache key make the same request, so a cached answer is never served to a
-- query that would have asked for something else.
use core_banking_system.Prelude.{
  ◌≡◌, refl, sym, ap, ◌∙◌, String, Option, none, some, [], ◌∷◌, false, ◌=?◌, truthy, if◌then◌else◌,
  Bool-cases, inl, inr,
}
use core_banking_system.Client.{Call, kept, qs}
use core_banking_system.QueryKeys.{text, account_is, entity_is, QueryKey}
use core_banking_system.Endpoints.Ledger
use core_banking_system.Endpoints.Endpoint.{Endpoint, call}
use core_banking_system.Hooks.Queries.{fetch, walk_accounts}
use core_banking_system.Hooks.Query.{Query, use_query}

-- What a query asks the backend for.
pub data Request : Type 0 where
  one : Call → Request
  walk : String → Request

module _ (encode : String → String) where
  unfoldable pub requested : Query → Request
  requested q = elim (use_query q).query_fn [
    | fetch e ↦ one (call encode e)
    | walk_accounts pid ↦ walk pid
  ]

  abbrev ask : Endpoint → Option Request
  ask e = some (one (call encode e))

  -- The request that a key stands for, read off the key alone.
  request_at : QueryKey → Option Request
  request_at (text a ∷ []) =
      if a =? "participants"
      then ask Endpoint.list_participants
      else if a =? "schemes"
      then ask Endpoint.list_schemes
      else if a =? "mandates"
      then ask Endpoint.list_mandates
      else if a =? "payments"
      then ask Endpoint.list_payments
      else if a =? "cycles"
      then ask Endpoint.list_cycles
      else if a =? "settlements"
      then ask Endpoint.list_settlements
      else none
  request_at (text a ∷ text b ∷ []) =
      if a =? "participants"
      then ask (Endpoint.get_participant b)
      else if a =? "mandates"
      then ask (Endpoint.get_mandate b)
      else if a =? "payments"
      then ask (Endpoint.get_payment b)
      else if a =? "cycles"
      then ask (Endpoint.get_cycle b)
      else if a =? "settlements"
      then ask (Endpoint.get_settlement b)
      else if b =? "reserves"
      then ask Endpoint.list_reserves
      else if b =? "audit"
      then ask Endpoint.central_bank_audit
      else none
  request_at (text a ∷ text b ∷ text c ∷ []) =
      if a =? "central-bank"
      then ask (Endpoint.get_reserve c)
      else if c =? "ledgers"
      then ask (Endpoint.list_ledgers b)
      else if c =? "all-accounts"
      then some (walk b)
      else if c =? "transactions"
      then ask (Endpoint.list_transactions b none)
      else if c =? "audit"
      then ask (Endpoint.ledger_audit b none)
      else if c =? "deposit-accounts"
      then ask (Endpoint.list_deposit_accounts b)
      else if c =? "deposit-audit"
      then ask (Endpoint.deposit_audit b)
      else none
  request_at (text a ∷ text b ∷ text c ∷ text d ∷ []) =
      if c =? "transaction"
      then ask (Endpoint.get_transaction b d)
      else if c =? "deposit-accounts"
      then ask (Endpoint.get_deposit_account b d)
      else none
  request_at (text a ∷ text b ∷ text c ∷ account_is d ∷ []) =
      ask (Endpoint.list_transactions b (some d))
  request_at (text a ∷ text b ∷ text c ∷ entity_is d ∷ []) = ask (Endpoint.ledger_audit b (some d))
  request_at (text a ∷ text b ∷ text c ∷ text d ∷ text e ∷ []) =
      if e =? "subledgers"
      then ask (Endpoint.list_subledgers b d)
      else if e =? "accounts"
      then ask (Endpoint.list_accounts b d)
      else if e =? "holds"
      then ask (Endpoint.list_holds b d)
      else if e =? "snapshots"
      then ask (Endpoint.list_snapshots b d)
      else if c =? "accounts"
      then ask (Endpoint.get_book_balance b d)
      else if e =? "balance"
      then ask (Endpoint.get_deposit_balance b d)
      else none
  request_at _ = none

  -- An empty filter is dropped from the query string, as it is from the key.
  transactions-empty :
      (pid account : String)
      → truthy account ≡ false
      → call encode (Endpoint.list_transactions pid (some account))
        ≡ call encode (Endpoint.list_transactions pid none)
  unfolding call Ledger.list_transactions qs
  transactions-empty pid account e = rw (e, kept)

  audit-empty :
      (pid entity : String)
      → truthy entity ≡ false
      → call encode (Endpoint.ledger_audit pid (some entity))
        ≡ call encode (Endpoint.ledger_audit pid none)
  unfolding call Ledger.ledger_audit qs
  audit-empty pid entity e = rw (e, kept)

  request_at-query_key : (q : Query) → request_at (use_query q).query_key ≡ some (requested q)
  unfolding request_at requested use_query
  request_at-query_key Query.participants = refl
  request_at-query_key (Query.participant a) = refl
  request_at-query_key Query.schemes = refl
  request_at-query_key Query.reserves = refl
  request_at-query_key (Query.reserve a) = refl
  request_at-query_key Query.central_bank_audit = refl
  request_at-query_key (Query.ledgers a) = refl
  request_at-query_key (Query.subledgers a b) = refl
  request_at-query_key (Query.accounts a b) = refl
  request_at-query_key (Query.account_balance a b) = refl
  request_at-query_key (Query.all_accounts a) = refl
  request_at-query_key (Query.transactions a none) = refl
  request_at-query_key (Query.transactions a (some s)) = elim (Bool-cases (truthy s)) [
    | inl kept_filter ↦ rw kept_filter refl
    | inr dropped ↦ rw dropped (cc (transactions-empty a s dropped))
  ]
  request_at-query_key (Query.transaction a b) = refl
  request_at-query_key (Query.ledger_audit a none) = refl
  request_at-query_key (Query.ledger_audit a (some s)) = elim (Bool-cases (truthy s)) [
    | inl kept_filter ↦ rw kept_filter refl
    | inr dropped ↦ rw dropped (cc (audit-empty a s dropped))
  ]
  request_at-query_key (Query.deposit_accounts a) = refl
  request_at-query_key (Query.deposit_account a b) = refl
  request_at-query_key (Query.deposit_balance a b) = refl
  request_at-query_key (Query.holds a b) = refl
  request_at-query_key (Query.snapshots a b) = refl
  request_at-query_key (Query.deposit_audit a) = refl
  request_at-query_key Query.mandates = refl
  request_at-query_key (Query.mandate a) = refl
  request_at-query_key Query.payments = refl
  request_at-query_key (Query.payment a) = refl
  request_at-query_key Query.cycles = refl
  request_at-query_key (Query.cycle a) = refl
  request_at-query_key Query.settlements = refl
  request_at-query_key (Query.settlement a) = refl

  -- Two queries with one cache key make the same request.
  pub requested_of_query_key :
      (q r : Query) → (use_query q).query_key ≡ (use_query r).query_key → requested q ≡ requested r
  requested_of_query_key q r e =
      cc (sym (request_at-query_key q) ∙ ap request_at e ∙ request_at-query_key r)
