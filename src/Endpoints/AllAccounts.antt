-- ===== src/Endpoints/AllAccounts.antt =====
-- `getAllAccounts` of web/src/lib/api/endpoints.ts: the walk over a participant's whole chart of
-- accounts. The three reads are the backend's answers, each of which may fail.
pub mod Walk
use core_banking_system.Prelude.{String, List, [], ◌∷◌, ◌++◌, map}
use core_banking_system.Types.Ledger.{Ledger, Subledger, Account}

-- A promise that has settled: fulfilled, or rejected with a reason.
pub data Settled {ℓ} (A : Type ℓ) : Type ℓ where
  fulfilled : A → Settled A
  rejected : String → Settled A

infixl 5 ◌>>=◌
abbrev pub ◌>>=◌ {ℓ κ} : {A : Type ℓ} {B : Type κ} → Settled A → (A → Settled B) → Settled B
fulfilled a >>= f = f a
rejected e >>= f = rejected e

-- `Promise.all(xs.map(f))`: every answer, or the first reason in the order of the list.
unfoldable pub all_of {ℓ κ} :
    {A : Type ℓ} {B : Type κ} → (A → Settled B) → List A → Settled (List B)
all_of f [] = fulfilled []
all_of f (x ∷ xs) = do b ← f x; bs ← all_of f xs; fulfilled (b ∷ bs)

unfoldable pub flat {ℓ} : {A : Type ℓ} → List (List A) → List A
flat [] = []
flat (xs ∷ xss) = xs ++ flat xss

pub record AccountWithContext : Type 0 where
  pub account : Account
  pub ledger_name : String
  pub subledger_name : String

abbrev pub in_context : Ledger → Subledger → Account → AccountWithContext
in_context l s a = record { account = a; ledger_name = l.name; subledger_name = s.name }

module _ (list_ledgers : String → Settled (List Ledger))
    (list_subledgers : String → String → Settled (List Subledger))
    (list_accounts : String → String → Settled (List Account)) where
  unfoldable pub subledger_accounts :
      String → Ledger → Subledger → Settled (List AccountWithContext)
  subledger_accounts pid l s = do
    accts ← list_accounts pid s.id
    fulfilled (map (in_context l s) accts)

  unfoldable pub ledger_accounts : String → Ledger → Settled (List AccountWithContext)
  unfolding subledger_accounts all_of flat
  ledger_accounts pid l = do
    subs ← list_subledgers pid l.id
    per_sub ← all_of (subledger_accounts pid l) subs
    fulfilled (flat per_sub)

  unfoldable pub get_all_accounts : String → Settled (List AccountWithContext)
  unfolding ledger_accounts all_of flat
  get_all_accounts pid = do
    ledgers ← list_ledgers pid
    per_ledger ← all_of (ledger_accounts pid) ledgers
    fulfilled (flat per_ledger)
