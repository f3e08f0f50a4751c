-- ===== src/Tests/Register.antt =====
-- A deposit register at a concrete ledger.
use core_banking_system.Prelude.{◌≡◌, refl, false, some, [], ◌∷◌, truthy}
use core_banking_system.Enums.{AccountType, DepositStatus, HoldStatus, debit, credit}
use core_banking_system.Backend.Book.{Book, new_book, sub, is_negative}
use core_banking_system.Backend.Book.Methods as BookMethods
use core_banking_system.Backend.Book.Methods.{PostRequest}
use core_banking_system.Backend.Register.{
  Account, Hold, Register, done, new_register, account_with, hold_with, get_balance,
}
use core_banking_system.Backend.Register.Methods.{
  HoldRequest, open_new, freeze, capture, place, on_book, run, create_hold, capture_hold,
}
use core_banking_system.Backend.Register.Statuses.{Follows, Reach, account_with-StatusPath}
use core_banking_system.Backend.Register.Available.{create_hold-get_balance}
use core_banking_system.Backend.Register.Captured.{capture_hold-get_balance}

abbrev chart : Book
chart = BookMethods.run 3 (BookMethods.new_account 3 "Cash" AccountType.asset) (
    BookMethods.run 2 (BookMethods.new_subledger 1 "Main")
      (BookMethods.run 1 (BookMethods.new_ledger "General") new_book))

abbrev cash_in : PostRequest
cash_in = record {
  idempotency_key = "";
  entries =
      record { id = 0; account_id = 5; amount = 100; direction = debit }
      ∷ record { id = 0; account_id = 7; amount = 100; direction = credit }
      ∷ [];
  booking_date = 0;
  value_date = 0;
  description = "";
  metadata = [];
}

abbrev funded : Register
funded =
    run 5 (on_book (BookMethods.post cash_in))
      (run 4 (open_new 3 "Bob" 0) (run 4 (open_new 3 "Ann" 0) (new_register chart)))

abbrev card : HoldRequest
card = record { account_id = 1; amount = 30; expires_at = 0; description = "" }

abbrev with_hold : Register
with_hold = run 6 (place card) funded

abbrev card_hold : Hold
card_hold = record {
  id = 5;
  account_id = 1;
  amount = 30;
  expires_at = 0;
  description = "";
  status = HoldStatus.active;
  created_at = 6;
}

hold_with_test : hold_with 5 with_hold ≡ some card_hold
unfolding hold_with run new_register truthy new_book
hold_with_test = refl

abbrev ann : Account
ann = record {
  id = 1;
  gl_account = 7;
  name = "Ann";
  status = DepositStatus.active;
  overdraft_limit = 0;
  created_at = 4;
}

create_hold-get_balance_example :
    (get_balance 6 1 with_hold ≡ done (record { book = 100; holds = 30; available = 70 }) with_hold)
    × (is_negative 70 ≡ false)
unfolding create_hold get_balance run new_register truthy new_book
create_hold-get_balance_example =
    create_hold-get_balance 6 card funded with_hold card_hold
      (record { book = 100; holds = 0; available = 100 }) refl refl refl

-- A capture of more than the hold, for another customer.
abbrev captured : Register
captured = run 7 (capture 5 9 40 "card") with_hold

capture_hold-get_balance_example :
    get_balance 7 1 captured ≡ done (record { book = 60; holds = 0; available = 60 }) captured
unfolding capture_hold get_balance run new_register truthy new_book
capture_hold-get_balance_example =
    capture_hold-get_balance 7 5 9 40 "card" with_hold captured card_hold ann _ _
      (record { book = 100; holds = 30; available = 70 }) refl refl refl refl refl refl refl refl

-- The account after the hold, its capture and a freeze.
abbrev frozen : Register
frozen = run 8 (freeze 1) captured

account_with-StatusPath_example : Follows ann (account_with 1 frozen)
unfolding account_with run new_register truthy new_book
account_with-StatusPath_example =
    account_with-StatusPath chart funded frozen 1 ann
      (Reach.step 5 (on_book (BookMethods.post cash_in))
        (Reach.step 4 (open_new 3 "Bob" 0) (Reach.step 4 (open_new 3 "Ann" 0) Reach.start)))
      (Reach.step 8 (freeze 1)
        (Reach.step 7 (capture 5 9 40 "card") (Reach.step 6 (place card) Reach.start)))
      refl

-- A hold that expired long ago is accepted, holds nothing, and is captured all the same.
abbrev late : HoldRequest
late = record { account_id = 1; amount = 30; expires_at = 2; description = "" }

expired_capture_test :
    get_balance 7 1 (run 7 (capture 5 9 0 "late") (run 6 (place late) funded))
    ≡ done
        (record { book = 70; holds = 0; available = 70 })
        (run 7 (capture 5 9 0 "late") (run 6 (place late) funded))
unfolding get_balance run new_register truthy new_book
expired_capture_test = refl

-- A capture above the hold takes more than is available: the balance is -20.
over_capture_test :
    get_balance 7 1 (run 7 (capture 5 9 120 "card") with_hold)
    ≡ done
        (record { book = sub 0 20; holds = 0; available = sub 0 20 })
        (run 7 (capture 5 9 120 "card") with_hold)
unfolding get_balance run new_register truthy new_book
over_capture_test = refl
