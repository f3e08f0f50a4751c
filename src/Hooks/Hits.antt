-- ===== src/Hooks/Hits.antt =====
-- Which views each group of invalidations of web/src/lib/api/hooks.ts hits: the prefix tests of its keys,
-- read at the key of each query.
use core_banking_system.Prelude.{
  ◌≡◌, String, Bool, none, some, Bool-cases, inl, inr, [], ◌∷◌, ◌||◌, truthy, arith,
}
use core_banking_system.QueryKeys
use core_banking_system.QueryKeys.{QueryKey, text, is_prefix}
use core_banking_system.Hooks.Query.{Query, use_query}
use core_banking_system.Hooks.Views.{
  key, posting_view, deposit_view, central_view, participant_view, network_view, mandate_view,
  cycle_view, ledger_list_view, subledger_list_view, account_list_view, snapshot_view,
}

-- Whether a key is hit by the invalidations after a posting.
unfoldable pub ledger_hits : String → QueryKey → Bool
ledger_hits pid j =
    is_prefix (text "participants" ∷ text pid ∷ text "audit" ∷ []) j
    || (is_prefix (text "participants" ∷ text pid ∷ text "accounts" ∷ []) j
        || is_prefix (text "participants" ∷ text pid ∷ text "transactions" ∷ []) j)

pub ledger_hits-key : (pid : String) (q : Query) → ledger_hits pid (key q) ≡ posting_view pid q
unfolding ledger_hits posting_view use_query is_prefix
ledger_hits-key pid (Query.transactions p (some a)) = elim (Bool-cases (truthy a)) [
  | inl f ↦ rw f (ground arith)
  | inr f ↦ rw f (ground arith)
]
ledger_hits-key pid (Query.ledger_audit p (some a)) = elim (Bool-cases (truthy a)) [
  | inl f ↦ rw f (ground arith)
  | inr f ↦ rw f (ground arith)
]
ledger_hits-key pid (Query.transactions p none) = ground arith
ledger_hits-key pid (Query.ledger_audit p none) = ground arith
ledger_hits-key pid _ = ground arith

unfoldable pub deposit_hits : String → QueryKey → Bool
deposit_hits pid j =
    is_prefix (QueryKeys.deposit_audit pid) j || (is_prefix (QueryKeys.deposit_accounts pid) j)

pub deposit_hits-key : (pid : String) (q : Query) → deposit_hits pid (key q) ≡ deposit_view pid q
unfolding deposit_hits deposit_view use_query is_prefix
deposit_hits-key pid (Query.transactions p (some a)) = elim (Bool-cases (truthy a)) [
  | inl f ↦ rw f (ground arith)
  | inr f ↦ rw f (ground arith)
]
deposit_hits-key pid (Query.ledger_audit p (some a)) = elim (Bool-cases (truthy a)) [
  | inl f ↦ rw f (ground arith)
  | inr f ↦ rw f (ground arith)
]
deposit_hits-key pid (Query.transactions p none) = ground arith
deposit_hits-key pid (Query.ledger_audit p none) = ground arith
deposit_hits-key pid _ = ground arith

unfoldable pub network_hits : QueryKey → Bool
network_hits j =
    is_prefix (text "participants" ∷ []) j
    || (is_prefix QueryKeys.central_bank_audit j
        || (is_prefix QueryKeys.reserves j
            || (is_prefix QueryKeys.settlements j
                || (is_prefix QueryKeys.cycles j || (is_prefix QueryKeys.payments j)))))

pub network_hits-key : (q : Query) → network_hits (key q) ≡ network_view q
unfolding network_hits network_view use_query is_prefix
network_hits-key (Query.transactions p (some a)) = elim (Bool-cases (truthy a)) [
  | inl f ↦ rw f (ground arith)
  | inr f ↦ rw f (ground arith)
]
network_hits-key (Query.ledger_audit p (some a)) = elim (Bool-cases (truthy a)) [
  | inl f ↦ rw f (ground arith)
  | inr f ↦ rw f (ground arith)
]
network_hits-key (Query.transactions p none) = ground arith
network_hits-key (Query.ledger_audit p none) = ground arith
network_hits-key _ = ground arith

unfoldable pub participant_hits : QueryKey → Bool
participant_hits j = is_prefix QueryKeys.participants j

pub participant_hits-key : (q : Query) → participant_hits (key q) ≡ participant_view q
unfolding participant_hits participant_view use_query is_prefix
participant_hits-key (Query.transactions p (some a)) = elim (Bool-cases (truthy a)) [
  | inl f ↦ rw f (ground arith)
  | inr f ↦ rw f (ground arith)
]
participant_hits-key (Query.ledger_audit p (some a)) = elim (Bool-cases (truthy a)) [
  | inl f ↦ rw f (ground arith)
  | inr f ↦ rw f (ground arith)
]
participant_hits-key (Query.transactions p none) = ground arith
participant_hits-key (Query.ledger_audit p none) = ground arith
participant_hits-key _ = ground arith

unfoldable pub mandate_hits : QueryKey → Bool
mandate_hits j = is_prefix QueryKeys.mandates j

pub mandate_hits-key : (q : Query) → mandate_hits (key q) ≡ mandate_view q
unfolding mandate_hits mandate_view use_query is_prefix
mandate_hits-key (Query.transactions p (some a)) = elim (Bool-cases (truthy a)) [
  | inl f ↦ rw f (ground arith)
  | inr f ↦ rw f (ground arith)
]
mandate_hits-key (Query.ledger_audit p (some a)) = elim (Bool-cases (truthy a)) [
  | inl f ↦ rw f (ground arith)
  | inr f ↦ rw f (ground arith)
]
mandate_hits-key (Query.transactions p none) = ground arith
mandate_hits-key (Query.ledger_audit p none) = ground arith
mandate_hits-key _ = ground arith

unfoldable pub cycle_hits : QueryKey → Bool
cycle_hits j = is_prefix QueryKeys.cycles j

pub cycle_hits-key : (q : Query) → cycle_hits (key q) ≡ cycle_view q
unfolding cycle_hits cycle_view use_query is_prefix
cycle_hits-key (Query.transactions p (some a)) = elim (Bool-cases (truthy a)) [
  | inl f ↦ rw f (ground arith)
  | inr f ↦ rw f (ground arith)
]
cycle_hits-key (Query.ledger_audit p (some a)) = elim (Bool-cases (truthy a)) [
  | inl f ↦ rw f (ground arith)
  | inr f ↦ rw f (ground arith)
]
cycle_hits-key (Query.transactions p none) = ground arith
cycle_hits-key (Query.ledger_audit p none) = ground arith
cycle_hits-key _ = ground arith

unfoldable pub ledger_list_hits : String → QueryKey → Bool
ledger_list_hits pid j = is_prefix (QueryKeys.ledgers pid) j

pub ledger_list_hits-key :
    (pid : String) (q : Query) → ledger_list_hits pid (key q) ≡ ledger_list_view pid q
unfolding ledger_list_hits ledger_list_view use_query is_prefix
ledger_list_hits-key pid (Query.transactions p (some a)) = elim (Bool-cases (truthy a)) [
  | inl f ↦ rw f (ground arith)
  | inr f ↦ rw f (ground arith)
]
ledger_list_hits-key pid (Query.ledger_audit p (some a)) = elim (Bool-cases (truthy a)) [
  | inl f ↦ rw f (ground arith)
  | inr f ↦ rw f (ground arith)
]
ledger_list_hits-key pid (Query.transactions p none) = ground arith
ledger_list_hits-key pid (Query.ledger_audit p none) = ground arith
ledger_list_hits-key pid _ = ground arith

unfoldable pub subledger_list_hits : String → String → QueryKey → Bool
subledger_list_hits pid lid j = is_prefix (QueryKeys.subledgers pid lid) j

pub subledger_list_hits-key :
    (pid lid : String) (q : Query)
    → subledger_list_hits pid lid (key q) ≡ subledger_list_view pid lid q
unfolding subledger_list_hits subledger_list_view use_query is_prefix
subledger_list_hits-key pid lid (Query.transactions p (some a)) = elim (Bool-cases (truthy a)) [
  | inl f ↦ rw f (ground arith)
  | inr f ↦ rw f (ground arith)
]
subledger_list_hits-key pid lid (Query.ledger_audit p (some a)) = elim (Bool-cases (truthy a)) [
  | inl f ↦ rw f (ground arith)
  | inr f ↦ rw f (ground arith)
]
subledger_list_hits-key pid lid (Query.transactions p none) = ground arith
subledger_list_hits-key pid lid (Query.ledger_audit p none) = ground arith
subledger_list_hits-key pid lid _ = ground arith

unfoldable pub account_list_hits : String → String → QueryKey → Bool
account_list_hits pid sid j = is_prefix (QueryKeys.accounts pid sid) j

pub account_list_hits-key :
    (pid sid : String) (q : Query) → account_list_hits pid sid (key q) ≡ account_list_view pid sid q
unfolding account_list_hits account_list_view use_query is_prefix
account_list_hits-key pid sid (Query.transactions p (some a)) = elim (Bool-cases (truthy a)) [
  | inl f ↦ rw f (ground arith)
  | inr f ↦ rw f (ground arith)
]
account_list_hits-key pid sid (Query.ledger_audit p (some a)) = elim (Bool-cases (truthy a)) [
  | inl f ↦ rw f (ground arith)
  | inr f ↦ rw f (ground arith)
]
account_list_hits-key pid sid (Query.transactions p none) = ground arith
account_list_hits-key pid sid (Query.ledger_audit p none) = ground arith
account_list_hits-key pid sid _ = ground arith

unfoldable pub snapshot_hits : String → String → QueryKey → Bool
snapshot_hits pid did j =
    is_prefix (QueryKeys.deposit_audit pid) j || (is_prefix (QueryKeys.snapshots pid did) j)

pub snapshot_hits-key :
    (pid did : String) (q : Query) → snapshot_hits pid did (key q) ≡ snapshot_view pid did q
unfolding snapshot_hits snapshot_view use_query is_prefix
snapshot_hits-key pid did (Query.transactions p (some a)) = elim (Bool-cases (truthy a)) [
  | inl f ↦ rw f (ground arith)
  | inr f ↦ rw f (ground arith)
]
snapshot_hits-key pid did (Query.ledger_audit p (some a)) = elim (Bool-cases (truthy a)) [
  | inl f ↦ rw f (ground arith)
  | inr f ↦ rw f (ground arith)
]
snapshot_hits-key pid did (Query.transactions p none) = ground arith
snapshot_hits-key pid did (Query.ledger_audit p none) = ground arith
snapshot_hits-key pid did _ = ground arith

-- Funding also names the participant's own reserve, which the reserves' key covers already.
unfoldable pub funded_hits : String → QueryKey → Bool
funded_hits pid j =
    is_prefix QueryKeys.central_bank_audit j
    || (is_prefix (QueryKeys.reserve pid) j || is_prefix QueryKeys.reserves j)

pub funded_hits-key : (pid : String) (q : Query) → funded_hits pid (key q) ≡ central_view q
unfolding funded_hits central_view use_query is_prefix
funded_hits-key pid (Query.transactions p (some a)) = elim (Bool-cases (truthy a)) [
  | inl f ↦ rw f (ground arith)
  | inr f ↦ rw f (ground arith)
]
funded_hits-key pid (Query.ledger_audit p (some a)) = elim (Bool-cases (truthy a)) [
  | inl f ↦ rw f (ground arith)
  | inr f ↦ rw f (ground arith)
]
funded_hits-key pid (Query.transactions p none) = ground arith
funded_hits-key pid (Query.ledger_audit p none) = ground arith
funded_hits-key pid _ = ground arith
