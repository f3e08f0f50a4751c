-- ===== src/Backend/Register.antt =====
-- deposit/register.go with deposit/types.go: deposit accounts over the general ledger, their holds and
-- their snapshots. Ids, amounts, times and maps are kept as in Backend/Book; a method reads the clock
-- once. `accountHolds` lists, for each account, the holds with its id: it is read off the holds. The day
-- of a date, which keys a snapshot, comes as its text.
pub mod Methods
pub mod Entries
pub mod Changes
pub mod Statuses
pub mod Sums
pub mod Available
pub mod Captured
use core_banking_system.Prelude.{
  ℕ, suc, String, Bool, true, false, Option, none, some, List, [], ◌∷◌, ◌++◌, ◌&&◌, not, find, ltb,
  nat_eq, if◌then◌else◌,
}
use core_banking_system.Enums.{DepositStatus, HoldStatus}
use core_banking_system.Backend.Book.{Amount, Book, BookError, add, sub, is_negative, book_balance}

pub record Account : Type 0 where
  pub id : ℕ
  pub gl_account : ℕ
  pub name : String
  pub status : DepositStatus
  pub overdraft_limit : Amount
  pub created_at : ℕ

pub record Hold : Type 0 where
  pub id : ℕ
  pub account_id : ℕ
  pub amount : Amount
  pub expires_at : ℕ
  pub description : String
  pub status : HoldStatus
  pub created_at : ℕ

pub record Balance : Type 0 where
  pub book : Amount
  pub holds : Amount
  pub available : Amount

pub record Snapshot : Type 0 where
  pub account_id : ℕ
  pub date_key : String
  pub balance : Balance
  pub taken_at : ℕ

pub data EventType : Type 0 where
  account_opened account_frozen account_unfrozen account_closed : EventType
  account_dormant account_reactivated : EventType
  hold_created hold_released hold_captured snapshot_taken : EventType

pub record AuditEvent : Type 0 where
  pub id : ℕ
  pub timestamp : ℕ
  pub event_type : EventType
  pub entity_id : ℕ

pub record Register : Type 0 where
  pub book : Book
  pub accounts : List Account
  pub holds : List Hold
  pub snapshots : List Snapshot
  pub audit_log : List AuditEvent
  pub id_counter : ℕ

pub data RegisterError : Type 0 where
  account_not_found hold_not_found hold_not_active snapshot_not_found : RegisterError
  invalid_amount insufficient_available account_frozen account_closed : RegisterError
  account_not_empty invalid_status_transition : RegisterError
  of_book : BookError → RegisterError

unfoldable pub new_register : Book → Register
new_register b = record {
  book = b;
  accounts = [];
  holds = [];
  snapshots = [];
  audit_log = [];
  id_counter = 0;
}

unfoldable pub append_audit : ℕ → EventType → ℕ → Register → Register
append_audit now t entity r = record r {
  audit_log =
      r.audit_log
      ++ (record { id = suc r.id_counter; timestamp = now; event_type = t; entity_id = entity }
          ∷ []);
  id_counter = suc r.id_counter;
}

-- A change of the entry that a key finds in a map.
unfoldable pub replace : {A : Type 0} → (A → Bool) → (A → A) → List A → List A
replace p f [] = []
replace p f (x ∷ xs) = if p x then f x ∷ xs else x ∷ replace p f xs

unfoldable pub account_with : ℕ → Register → Option Account
account_with id r = find (λ a. nat_eq a.id id) r.accounts

unfoldable pub hold_with : ℕ → Register → Option Hold
hold_with id r = find (λ h. nat_eq h.id id) r.holds

-- `requireActive`.
unfoldable pub require_active : DepositStatus → Option RegisterError
require_active DepositStatus.active = none
require_active DepositStatus.frozen = some account_frozen
require_active DepositStatus.closed = some account_closed
require_active DepositStatus.dormant = some invalid_status_transition

abbrev pub is_active : HoldStatus → Bool
is_active HoldStatus.active = true
is_active _ = false

unfoldable pub expired : ℕ → Hold → Bool
expired now h = not (nat_eq h.expires_at 0) && ltb h.expires_at now

-- A hold that counts for an account.
unfoldable pub counts : ℕ → ℕ → Hold → Bool
unfolding expired
counts now id h = nat_eq h.account_id id && is_active h.status && not (expired now h)

unfoldable pub sum_holds : ℕ → ℕ → List Hold → Amount → Amount
unfolding counts add
sum_holds now id [] total = total
sum_holds now id (h ∷ hs) total =
    sum_holds now id hs (if counts now id h then add total h.amount else total)

unfoldable pub compute_active_holds : ℕ → ℕ → Register → Amount
unfolding sum_holds
compute_active_holds now id r = sum_holds now id r.holds 0

-- Book - Holds + OverdraftLimit, over the book balance of the backing account.
unfoldable pub balance_of : ℕ → Account → Register → Amount → Balance
unfolding compute_active_holds add sub
balance_of now a r book = record {
  book = book;
  holds = compute_active_holds now a.id r;
  available = add (sub book (compute_active_holds now a.id r)) a.overdraft_limit;
}

-- `availableLocked`, as the balance that it is a part of; none where the backing account is unknown.
unfoldable pub account_balance : ℕ → Account → Register → Option Balance
unfolding book_balance balance_of
account_balance now a r = elim (book_balance r.book a.gl_account) [
  | none ↦ none
  | some x ↦ some (balance_of now a r x)
]

pub data Outcome (A : Type 0) : Type 0 where
  refused : RegisterError → Outcome A
  done : A → Register → Outcome A

-- `GetBalance`.
unfoldable pub get_balance : ℕ → ℕ → Register → Outcome Balance
unfolding account_with account_balance
get_balance now id r = elim (account_with id r) [
  | none ↦ refused account_not_found
  | some a ↦ elim (account_balance now a r) [
    | none ↦ refused (of_book BookError.account_not_found)
    | some b ↦ done b r
  ]
]

-- `CheckWithdrawal`: the refusal, if there is one.
unfoldable pub check_withdrawal : ℕ → ℕ → Amount → Register → Option RegisterError
unfolding account_with require_active account_balance sub
check_withdrawal now id amount r = elim (account_with id r) [
  | none ↦ some account_not_found
  | some a ↦ elim (require_active a.status) [
    | some e ↦ some e
    | none ↦ elim (account_balance now a r) [
      | none ↦ some (of_book BookError.account_not_found)
      | some b ↦ if is_negative (sub b.available amount) then some insufficient_available else none
    ]
  ]
]
