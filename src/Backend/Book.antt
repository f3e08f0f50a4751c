-- ===== src/Backend/Book.antt =====
-- service.go with types.go: the general ledger of the backend. An id is kept as the number that
-- `nextID` puts behind its prefix; a map is an association list, and its iteration the list's order, on
-- which no result depends. An amount is an int64 as its residue modulo 2 ^ 64, and a time the number of
-- nanoseconds since Go's zero time. The mutex makes each method one step.
pub mod Methods
pub mod Totals
pub mod Steps
pub mod Balances
pub mod Reversal
pub mod Funds
pub mod Chart
pub mod Equation
pub mod Keys
pub mod Balanced
use core_banking_system.Prelude.{
  ◌≡◌, refl, ℕ, zero, suc, ◌+◌, ◌-◌, ◌%◌, ◌^◌, String, Bool, true, false, Option, none, some, List,
  [], ◌∷◌, ◌++◌, map, ◌&&◌, ◌||◌, not, every, any, find, is_some, ltb, leb, nat_eq, ◌=?◌, truthy,
  if◌then◌else◌,
}
use core_banking_system.Enums.{
  AccountType, asset, expense, Direction, debit, credit, TransactionStatus, posted, reversed,
}

abbrev pub Amount : Type 0
Amount = ℕ

-- int64 arithmetic and tests.
abbrev pub range : ℕ
range = 2 ^ 64

unfoldable pub add : Amount → Amount → Amount
add a b = (a + b) % range

unfoldable pub sub : Amount → Amount → Amount
sub a b = (a + (range - b % range)) % range

abbrev pub is_negative : Amount → Bool
is_negative a = leb (2 ^ 63) a

abbrev pub is_positive : Amount → Bool
is_positive a = ltb 0 a && ltb a (2 ^ 63)

unfoldable pub same_direction : Direction → Direction → Bool
same_direction debit debit = true
same_direction credit credit = true
same_direction _ _ = false

unfoldable pub opposite : Direction → Direction
opposite debit = credit
opposite credit = debit

unfoldable pub normal_direction : AccountType → Direction
normal_direction asset = debit
normal_direction expense = debit
normal_direction _ = credit

pub record Account : Type 0 where
  pub id : ℕ
  pub subledger_id : ℕ
  pub name : String
  pub account_type : AccountType
  pub created_at : ℕ

pub record Entry : Type 0 where
  pub id : ℕ
  pub account_id : ℕ
  pub amount : Amount
  pub direction : Direction

pub record Transaction : Type 0 where
  pub id : ℕ
  pub idempotency_key : String
  pub entries : List Entry
  pub booking_date : ℕ
  pub value_date : ℕ
  pub status : TransactionStatus
  pub description : String
  pub metadata : List (String × String)
  pub created_at : ℕ
  pub reversal_of : Option ℕ

pub data EventType : Type 0 where
  account_created transaction_posted transaction_reversed ledger_created subledger_created :
      EventType

pub record AuditEvent : Type 0 where
  pub id : ℕ
  pub timestamp : ℕ
  pub event_type : EventType
  pub entity_id : ℕ

pub record Book : Type 0 where
  pub ledgers : List (ℕ × String)
  pub subledgers : List (ℕ × ℕ × String)
  pub accounts : List Account
  pub transactions : List Transaction
  pub idempotency_index : List (String × ℕ)
  pub audit_log : List AuditEvent
  pub id_counter : ℕ

pub data BookError : Type 0 where
  ledger_not_found subledger_not_found account_not_found transaction_not_found : BookError
  unbalanced_transaction empty_transaction duplicate_idempotency_key : BookError
  transaction_already_reversed invalid_amount insufficient_balance : BookError

pub data Result (A : Type 0) : Type 0 where
  error : BookError → Result A
  ok : A → Book → Result A

unfoldable pub new_book : Book
new_book = record {
  ledgers = [];
  subledgers = [];
  accounts = [];
  transactions = [];
  idempotency_index = [];
  audit_log = [];
  id_counter = 0;
}

-- `appendAudit`, which takes the next id.
unfoldable pub append_audit : ℕ → EventType → ℕ → Book → Book
append_audit now t entity b = record b {
  audit_log =
      b.audit_log
      ++ (record { id = suc b.id_counter; timestamp = now; event_type = t; entity_id = entity }
          ∷ []);
  id_counter = suc b.id_counter;
}

unfoldable pub create_ledger : ℕ → String → Book → Result ℕ
unfolding append_audit
create_ledger now name b =
    let id = suc b.id_counter in
    ok id (
      append_audit now ledger_created id
        (record b { ledgers = (id, name) ∷ b.ledgers; id_counter = id }))

unfoldable pub create_subledger : ℕ → ℕ → String → Book → Result ℕ
unfolding append_audit
create_subledger now ledger_id name b =
    let id = suc b.id_counter in
    if any (λ l. nat_eq l.0 ledger_id) b.ledgers
    then ok id (
        append_audit now subledger_created id
          (record b { subledgers = (id, ledger_id, name) ∷ b.subledgers; id_counter = id }))
    else error ledger_not_found

unfoldable pub fresh_account : ℕ → ℕ → ℕ → String → AccountType → Account
fresh_account id now subledger_id name t = record {
  id = id;
  subledger_id = subledger_id;
  name = name;
  account_type = t;
  created_at = now;
}

unfoldable pub create_account : ℕ → ℕ → String → AccountType → Book → Result Account
unfolding fresh_account append_audit
create_account now subledger_id name t b =
    let id = suc b.id_counter in
    let a = fresh_account id now subledger_id name t in
    if any (λ s. nat_eq s.0 subledger_id) b.subledgers
    then ok a (
        append_audit now account_created id
          (record b { accounts = a ∷ b.accounts; id_counter = id }))
    else error subledger_not_found

unfoldable pub account_of : Book → ℕ → Option Account
account_of b id = find (λ a. nat_eq a.id id) b.accounts

-- One entry's part in a balance, or in the impact, of an account with this normal direction.
unfoldable pub replay_entry : ℕ → Direction → Entry → Amount → Amount
unfolding same_direction add sub
replay_entry id normal e balance =
    if nat_eq e.account_id id
    then if same_direction e.direction normal then add balance e.amount else sub balance e.amount
    else balance

unfoldable pub replay : ℕ → Direction → List Entry → Amount → Amount
unfolding replay_entry
replay id normal [] balance = balance
replay id normal (e ∷ es) balance = replay id normal es (replay_entry id normal e balance)

unfoldable pub replay_all : ℕ → Direction → List Transaction → Amount → Amount
unfolding replay
replay_all id normal [] balance = balance
replay_all id normal (t ∷ ts) balance = replay_all id normal ts (replay id normal t.entries balance)

-- `computeBookBalance` and `BookBalance`.
unfoldable pub compute_book_balance : Book → ℕ → AccountType → Amount
unfolding replay_all normal_direction
compute_book_balance b id t = replay_all id (normal_direction t) b.transactions 0

unfoldable pub book_balance : Book → ℕ → Option Amount
unfolding account_of compute_book_balance
book_balance b id = elim (account_of b id) [
  | none ↦ none
  | some a ↦ some (compute_book_balance b id a.account_type)
]

-- `validateBalance`, one pass with two running totals.
unfoldable pub is_balanced : List Entry → Amount → Amount → Bool
unfolding add
is_balanced [] debits credits = nat_eq debits credits
is_balanced (e ∷ es) debits credits = elim e.direction [
  | debit ↦ is_balanced es (add debits e.amount) credits
  | credit ↦ is_balanced es debits (add credits e.amount)
]

-- `checkSufficientBalance`: the net impact on each account of the entries, for the types that may not
-- become negative.
unfoldable pub is_checked : AccountType → Bool
is_checked asset = true
is_checked expense = true
is_checked _ = false

unfoldable pub is_sufficient : Book → List Entry → Account → Bool
unfolding is_checked replay normal_direction compute_book_balance add
is_sufficient b es a =
    let delta = replay a.id (normal_direction a.account_type) es 0 in
    not (is_checked a.account_type)
    || not (is_negative delta)
    || not (is_negative (add (compute_book_balance b a.id a.account_type) delta))

unfoldable pub passes : Book → List Entry → Entry → Bool
unfolding account_of is_sufficient
passes b es e = elim (account_of b e.account_id) [ none ↦ true | some a ↦ is_sufficient b es a ]

unfoldable pub has_sufficient_balance : Book → List Entry → Bool
unfolding passes
has_sufficient_balance b es = every (passes b es) es
