-- ===== src/Tests/Hooks.antt =====
-- The cache of the hooks at concrete inputs.
use core_banking_system.Prelude.{◌≡◌, refl, not, false, none, some, ◌||◌, truthy}
use core_banking_system.Prelude.Int.{pos}
use core_banking_system.Hooks.Query.{Query, use_query}
use core_banking_system.Hooks.Keys.{requested, requested_of_query_key}
use core_banking_system.Hooks.Cache.{flag_client}
use core_banking_system.Hooks.Mutation.{Mutation, on_success}
use core_banking_system.Hooks.Views.{key}
use core_banking_system.Hooks.Changed.{changed, missed}
use core_banking_system.Hooks.Refresh.{stale-changed}

requested_of_query_key_example :
    requested (λ s. s) (Query.transactions "p1" none)
    ≡ requested (λ s. s) (Query.transactions "p1" (some ""))
unfolding use_query truthy
requested_of_query_key_example =
    requested_of_query_key (λ s. s) (Query.transactions "p1" none)
      (Query.transactions "p1" (some "")) refl

abbrev capture : Mutation
capture =
    Mutation.capture_hold "p1" "h1"
      (record { counterparty = "a2"; amount = pos 250; description = none })

stale-changed_example :
    flag_client.stale
      (on_success flag_client capture (λ _. false))
      (key (Query.deposit_balance "p1" "d1"))
    ≡ (not (missed capture (Query.deposit_balance "p1" "d1")) || false)
unfolding changed
stale-changed_example =
    stale-changed flag_client capture (Query.deposit_balance "p1" "d1") (λ _. false) refl
