-- ===== src/QueryKeys.antt =====
-- web/src/lib/api/query-keys.ts: the key factory of the query cache.
use core_banking_system.Prelude.{
  String, Bool, true, false, Option, none, some, List, [], ◌∷◌, ◌&&◌, ◌=?◌, truthy, if◌then◌else◌,
}

-- A part of a key: a text, or one of the objects `{ account }` and `{ entity }`.
pub data KeyPart : Type 0 where
  text : String → KeyPart
  account_is entity_is : String → KeyPart

abbrev pub QueryKey : Type 0
QueryKey = List KeyPart

-- An optional argument as a condition: present and not empty.
abbrev pub filtered : Option String → (String → QueryKey) → QueryKey → QueryKey
filtered none f k = k
filtered (some s) f k = if truthy s then f s else k

unfoldable pub participants : QueryKey
participants = text "participants" ∷ []

unfoldable pub participant : String → QueryKey
participant pid = text "participants" ∷ text pid ∷ []

unfoldable pub schemes : QueryKey
schemes = text "schemes" ∷ []

unfoldable pub reserves : QueryKey
reserves = text "central-bank" ∷ text "reserves" ∷ []

unfoldable pub reserve : String → QueryKey
reserve pid = text "central-bank" ∷ text "reserves" ∷ text pid ∷ []

unfoldable pub central_bank_audit : QueryKey
central_bank_audit = text "central-bank" ∷ text "audit" ∷ []

unfoldable pub ledgers : String → QueryKey
ledgers pid = text "participants" ∷ text pid ∷ text "ledgers" ∷ []

unfoldable pub subledgers : String → String → QueryKey
subledgers pid lid =
    text "participants" ∷ text pid ∷ text "ledgers" ∷ text lid ∷ text "subledgers" ∷ []

unfoldable pub accounts : String → String → QueryKey
accounts pid sid =
    text "participants" ∷ text pid ∷ text "subledgers" ∷ text sid ∷ text "accounts" ∷ []

unfoldable pub account_balance : String → String → QueryKey
account_balance pid aid =
    text "participants" ∷ text pid ∷ text "accounts" ∷ text aid ∷ text "balance" ∷ []

unfoldable pub all_accounts : String → QueryKey
all_accounts pid = text "participants" ∷ text pid ∷ text "all-accounts" ∷ []

unfoldable pub transactions : String → Option String → QueryKey
transactions pid account =
    filtered account (λ a. text "participants" ∷ text pid ∷ text "transactions" ∷ account_is a ∷ [])
      (text "participants" ∷ text pid ∷ text "transactions" ∷ [])

unfoldable pub transaction : String → String → QueryKey
transaction pid tid = text "participants" ∷ text pid ∷ text "transaction" ∷ text tid ∷ []

unfoldable pub ledger_audit : String → Option String → QueryKey
ledger_audit pid entity =
    filtered entity (λ e. text "participants" ∷ text pid ∷ text "audit" ∷ entity_is e ∷ [])
      (text "participants" ∷ text pid ∷ text "audit" ∷ [])

unfoldable pub deposit_accounts : String → QueryKey
deposit_accounts pid = text "participants" ∷ text pid ∷ text "deposit-accounts" ∷ []

unfoldable pub deposit_account : String → String → QueryKey
deposit_account pid did = text "participants" ∷ text pid ∷ text "deposit-accounts" ∷ text did ∷ []

unfoldable pub deposit_balance : String → String → QueryKey
deposit_balance pid did =
    text "participants" ∷ text pid ∷ text "deposit-accounts" ∷ text did ∷ text "balance" ∷ []

unfoldable pub holds : String → String → QueryKey
holds pid did =
    text "participants" ∷ text pid ∷ text "deposit-accounts" ∷ text did ∷ text "holds" ∷ []

unfoldable pub hold : String → String → QueryKey
hold pid hid = text "participants" ∷ text pid ∷ text "holds" ∷ text hid ∷ []

unfoldable pub snapshots : String → String → QueryKey
snapshots pid did =
    text "participants" ∷ text pid ∷ text "deposit-accounts" ∷ text did ∷ text "snapshots" ∷ []

unfoldable pub deposit_audit : String → QueryKey
deposit_audit pid = text "participants" ∷ text pid ∷ text "deposit-audit" ∷ []

unfoldable pub mandates : QueryKey
mandates = text "mandates" ∷ []

unfoldable pub mandate : String → QueryKey
mandate mid = text "mandates" ∷ text mid ∷ []

unfoldable pub payments : QueryKey
payments = text "payments" ∷ []

unfoldable pub payment : String → QueryKey
payment payid = text "payments" ∷ text payid ∷ []

unfoldable pub cycles : QueryKey
cycles = text "cycles" ∷ []

unfoldable pub cycle : String → QueryKey
cycle cid = text "cycles" ∷ text cid ∷ []

unfoldable pub settlements : QueryKey
settlements = text "settlements" ∷ []

unfoldable pub settlement : String → QueryKey
settlement sid = text "settlements" ∷ text sid ∷ []

unfoldable pub part_eq : KeyPart → KeyPart → Bool
part_eq (text a) (text b) = a =? b
part_eq (account_is a) (account_is b) = a =? b
part_eq (entity_is a) (entity_is b) = a =? b
part_eq _ _ = false

-- How the cache matches a filter's key: as a prefix of the query's key.
unfoldable pub is_prefix : QueryKey → QueryKey → Bool
unfolding part_eq
is_prefix [] j = true
is_prefix (x ∷ xs) [] = false
is_prefix (x ∷ xs) (y ∷ ys) = part_eq x y && is_prefix xs ys
