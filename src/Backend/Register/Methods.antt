-- ===== src/Backend/Register/Methods.antt =====
-- The methods of deposit/register.go that change a register, and its calls as one type.
use core_banking_system.Prelude.{
  ℕ, suc, String, Bool, true, false, Option, none, some, List, [], ◌∷◌, ◌++◌, filter, not, ◌&&◌,
  ◌=?◌, nat_eq, if◌then◌else◌,
}
use core_banking_system.Enums.{AccountType, DepositStatus, HoldStatus, debit, credit}
use core_banking_system.Backend.Book as Ledger
use core_banking_system.Backend.Book.{
  Amount, Book, Transaction, is_positive, is_negative, sub, book_balance,
}
use core_banking_system.Backend.Book.Methods as BookMethods
use core_banking_system.Backend.Book.Methods.{PostRequest}
use core_banking_system.Backend.Register.{
  Account, Hold, Snapshot, Balance, EventType, Register, RegisterError, of_book, Outcome, refused,
  done, append_audit, replace, account_with, hold_with, require_active, is_active, account_balance,
}

unfoldable pub opened : ℕ → ℕ → ℕ → String → Amount → Account
opened id now gl name limit = record {
  id = id;
  gl_account = gl;
  name = name;
  status = DepositStatus.active;
  overdraft_limit = limit;
  created_at = now;
}

-- `OpenAccount`: the backing account of the ledger comes first.
unfoldable pub open_account : ℕ → ℕ → String → Amount → Register → Outcome Account
unfolding Ledger.create_account opened append_audit
open_account now subledger name limit r =
    elim (Ledger.create_account now subledger name AccountType.liability r.book) [
      | Ledger.error e ↦ refused (of_book e)
      | Ledger.ok gl b ↦
          let a = opened (suc r.id_counter) now gl.id name limit in
          done a (
            append_audit now EventType.account_opened a.id
              (record r { book = b; accounts = a ∷ r.accounts; id_counter = suc r.id_counter }))
    ]

abbrev pub same_status : DepositStatus → DepositStatus → Bool
same_status DepositStatus.active DepositStatus.active = true
same_status DepositStatus.dormant DepositStatus.dormant = true
same_status DepositStatus.frozen DepositStatus.frozen = true
same_status DepositStatus.closed DepositStatus.closed = true
same_status _ _ = false

abbrev pub with_status : DepositStatus → Account → Account
with_status s a = record a { status = s }

unfoldable pub put_status : ℕ → DepositStatus → EventType → ℕ → Register → Register
unfolding replace append_audit
put_status now s e id r =
    append_audit now e id
      (record r { accounts = replace (λ a. nat_eq a.id id) (with_status s) r.accounts })

-- The four changes of status have one body: the status that is asked for, the new one, and the event.
unfoldable pub move_status :
    DepositStatus → DepositStatus → EventType → ℕ → ℕ → Register → Outcome (Unit {0})
unfolding account_with put_status
move_status from to e now id r = elim (account_with id r) [
  | none ↦ refused RegisterError.account_not_found
  | some a ↦
      if not (same_status a.status from)
      then refused RegisterError.invalid_status_transition
      else done tt (put_status now to e id r)
]

unfoldable pub freeze_account : ℕ → ℕ → Register → Outcome (Unit {0})
unfolding move_status
freeze_account now id r =
    move_status DepositStatus.active DepositStatus.frozen EventType.account_frozen now id r

unfoldable pub unfreeze_account : ℕ → ℕ → Register → Outcome (Unit {0})
unfolding move_status
unfreeze_account now id r =
    move_status DepositStatus.frozen DepositStatus.active EventType.account_unfrozen now id r

unfoldable pub mark_account_dormant : ℕ → ℕ → Register → Outcome (Unit {0})
unfolding move_status
mark_account_dormant now id r =
    move_status DepositStatus.active DepositStatus.dormant EventType.account_dormant now id r

unfoldable pub reactivate_account : ℕ → ℕ → Register → Outcome (Unit {0})
unfolding move_status
reactivate_account now id r =
    move_status DepositStatus.dormant DepositStatus.active EventType.account_reactivated now id r

-- `Close`: from any other status, with a book balance of zero.
unfoldable pub close_account : ℕ → ℕ → Register → Outcome (Unit {0})
unfolding account_with book_balance put_status
close_account now id r = elim (account_with id r) [
  | none ↦ refused RegisterError.account_not_found
  | some a ↦
      if same_status a.status DepositStatus.closed
      then refused RegisterError.invalid_status_transition
      else elim (book_balance r.book a.gl_account) [
        | none ↦ refused (of_book Ledger.account_not_found)
        | some x ↦
            if nat_eq x 0
            then done tt (put_status now DepositStatus.closed EventType.account_closed id r)
            else refused RegisterError.account_not_empty
      ]
]

pub record HoldRequest : Type 0 where
  pub account_id : ℕ
  pub amount : Amount
  pub expires_at : ℕ
  pub description : String

unfoldable pub held : ℕ → ℕ → HoldRequest → Hold
held id now q = record {
  id = id;
  account_id = q.account_id;
  amount = q.amount;
  expires_at = q.expires_at;
  description = q.description;
  status = HoldStatus.active;
  created_at = now;
}

-- The checks of `CreateHold` on a known account, in their order.
unfoldable pub hold_refusal : ℕ → HoldRequest → Account → Register → Option RegisterError
unfolding require_active account_balance sub
hold_refusal now q a r = elim (require_active a.status) [
  | some e ↦ some e
  | none ↦
      if not (is_positive q.amount)
      then some RegisterError.invalid_amount
      else elim (account_balance now a r) [
        | none ↦ some (of_book Ledger.account_not_found)
        | some b ↦
            if is_negative (sub b.available q.amount)
            then some RegisterError.insufficient_available
            else none
      ]
]

unfoldable pub add_hold : ℕ → HoldRequest → Register → Register
unfolding held append_audit
add_hold now q r = append_audit now EventType.hold_created (suc r.id_counter) (record r {
  holds = r.holds ++ (held (suc r.id_counter) now q ∷ []);
  id_counter = suc r.id_counter;
})

unfoldable pub create_hold : ℕ → HoldRequest → Register → Outcome Hold
unfolding account_with hold_refusal add_hold held
create_hold now q r = elim (account_with q.account_id r) [
  | none ↦ refused RegisterError.account_not_found
  | some a ↦ elim (hold_refusal now q a r) [
    | some e ↦ refused e
    | none ↦ done (held (suc r.id_counter) now q) (add_hold now q r)
  ]
]

abbrev pub with_hold_status : HoldStatus → Hold → Hold
with_hold_status s h = record h { status = s }

unfoldable pub end_hold : ℕ → HoldStatus → EventType → ℕ → Register → Register
unfolding replace append_audit
end_hold now s e id r =
    append_audit now e id
      (record r { holds = replace (λ h. nat_eq h.id id) (with_hold_status s) r.holds })

unfoldable pub release_hold : ℕ → ℕ → Register → Outcome (Unit {0})
unfolding hold_with end_hold
release_hold now id r = elim (hold_with id r) [
  | none ↦ refused RegisterError.hold_not_found
  | some h ↦
      if not (is_active h.status)
      then refused RegisterError.hold_not_active
      else done tt (end_hold now HoldStatus.released EventType.hold_released id r)
]

-- The posting of a capture: the amount that is asked for, or the hold's if that is not positive.
abbrev pub captured_amount : Amount → Hold → Amount
captured_amount x h = if is_positive x then x else h.amount

unfoldable pub capture_request : ℕ → ℕ → Amount → String → PostRequest
capture_request gl counterparty x description = record {
  idempotency_key = "";
  entries =
      record { id = 0; account_id = gl; amount = x; direction = debit }
      ∷ record { id = 0; account_id = counterparty; amount = x; direction = credit }
      ∷ [];
  booking_date = 0;
  value_date = 0;
  description = description;
  metadata = [];
}

unfoldable pub capture_hold : ℕ → ℕ → ℕ → Amount → String → Register → Outcome Transaction
unfolding hold_with account_with capture_request BookMethods.post_transaction end_hold
capture_hold now id counterparty x description r = elim (hold_with id r) [
  | none ↦ refused RegisterError.hold_not_found
  | some h ↦
      if not (is_active h.status)
      then refused RegisterError.hold_not_active
      else elim (account_with h.account_id r) [
        | none ↦ refused RegisterError.account_not_found
        | some a ↦
            elim (BookMethods.post_transaction now
              (capture_request a.gl_account counterparty (captured_amount x h) description)
              r.book) [
                | Ledger.error e ↦ refused (of_book e)
                | Ledger.ok t b ↦ done t (
                    end_hold now HoldStatus.captured EventType.hold_captured id
                      (record r { book = b }))
              ]
      ]
]

unfoldable pub put_snapshot : Snapshot → List Snapshot → List Snapshot
put_snapshot s ss =
    s ∷ filter (λ x. not (nat_eq x.account_id s.account_id && (x.date_key =? s.date_key))) ss

unfoldable pub taken : ℕ → ℕ → String → Balance → Snapshot
taken now id date b = record { account_id = id; date_key = date; balance = b; taken_at = now }

-- `TakeEndOfDaySnapshot`: a snapshot of the same account and day is overwritten.
unfoldable pub take_snapshot : ℕ → ℕ → String → Register → Outcome Snapshot
unfolding account_with account_balance taken put_snapshot append_audit
take_snapshot now id date r = elim (account_with id r) [
  | none ↦ refused RegisterError.account_not_found
  | some a ↦ elim (account_balance now a r) [
    | none ↦ refused (of_book Ledger.account_not_found)
    | some b ↦
        let s = taken now id date b in
        done s (
          append_audit now EventType.snapshot_taken id
            (record r { snapshots = put_snapshot s r.snapshots }))
  ]
]

-- The calls that change a register, and those that others make on its ledger between them.
pub data Command : Type 0 where
  open_new : ℕ → String → Amount → Command
  freeze unfreeze mark_dormant reactivate close : ℕ → Command
  place : HoldRequest → Command
  release : ℕ → Command
  capture : ℕ → ℕ → Amount → String → Command
  snapshot : ℕ → String → Command
  on_book : BookMethods.Command → Command

abbrev pub after : {A : Type 0} → Outcome A → Register → Register
after (refused e) r = r
after (done a s) r = s

unfoldable pub run : ℕ → Command → Register → Register
unfolding open_account freeze_account unfreeze_account mark_account_dormant reactivate_account
    close_account create_hold release_hold capture_hold take_snapshot BookMethods.run
run now (open_new s name limit) r = after (open_account now s name limit r) r
run now (freeze id) r = after (freeze_account now id r) r
run now (unfreeze id) r = after (unfreeze_account now id r) r
run now (mark_dormant id) r = after (mark_account_dormant now id r) r
run now (reactivate id) r = after (reactivate_account now id r) r
run now (close id) r = after (close_account now id r) r
run now (place q) r = after (create_hold now q r) r
run now (release id) r = after (release_hold now id r) r
run now (capture id counterparty x description) r =
    after (capture_hold now id counterparty x description r) r
run now (snapshot id date) r = after (take_snapshot now id date r) r
run now (on_book c) r = record r { book = BookMethods.run now c r.book }
