-- ===== src/Tests/Book.antt =====
-- The general ledger at a concrete book.
use core_banking_system.Prelude.{
  ◌≡◌, refl, ◌+◌, ◌-◌, ◌%◌, ◌^◌, ◌<◌, ◌≤◌, if◌then◌else◌, true, some, [], ◌∷◌, All, arith, truthy,
}
use core_banking_system.Enums.{AccountType, debit, credit}
use core_banking_system.Backend.Book.{
  Account, Book, range, new_book, is_balanced, normal_direction, opposite, replay, replay_all,
  compute_book_balance, book_balance, account_of, is_checked,
}
use core_banking_system.Backend.Book.Methods.{
  PostRequest, refusal, transaction_of, transaction_with, reverse_transaction, post_transaction,
  after, new_ledger, new_subledger, new_account, post, run,
}
use core_banking_system.Backend.Book.Totals.{total_all}
use core_banking_system.Backend.Book.Balances.{on, replay_all-total}
use core_banking_system.Backend.Book.Keys.{uses, indexed, uses-Reach}
use core_banking_system.Backend.Book.Balanced.{Reach, Even, InBalance, InBalance-Reach}
use core_banking_system.Backend.Book.Equation.{side, side-Reach}
use core_banking_system.Backend.Book.Reversal.{replay-reverse}
use core_banking_system.Backend.Book.Funds.{compute_book_balance-post}

abbrev deposit : PostRequest
deposit = record {
  idempotency_key = "k1";
  entries =
      record { id = 0; account_id = 5; amount = 100; direction = debit }
      ∷ record { id = 0; account_id = 7; amount = 100; direction = credit }
      ∷ [];
  booking_date = 0;
  value_date = 0;
  description = "";
  metadata = [];
}

abbrev chart_book : Book
chart_book = run 4 (new_account 3 "Deposits" AccountType.liability) (
    run 3 (new_account 3 "Cash" AccountType.asset)
      (run 2 (new_subledger 1 "Main") (run 1 (new_ledger "General") new_book)))

abbrev posted_book : Book
posted_book = run 5 (post deposit) chart_book

book_balance_test : book_balance posted_book 5 ≡ some 100
unfolding book_balance run new_book truthy
book_balance_test = refl

chart-Reach : Reach chart_book
chart-Reach = Reach.step 4 _ (Reach.step 3 _ (Reach.step 2 _ (Reach.step 1 _ Reach.start)))

posted-Reach : Reach posted_book
posted-Reach = Reach.step 5 _ chart-Reach

InBalance-Reach_example : All Even posted_book.transactions × InBalance posted_book.transactions
InBalance-Reach_example = InBalance-Reach posted_book posted-Reach

side-Reach_example : side debit posted_book % range ≡ side credit posted_book % range
side-Reach_example = side-Reach posted_book posted-Reach

replay_all-total_example :
    (replay_all 5 debit posted_book.transactions 0
        + total_all (on 5 (opposite debit)) posted_book.transactions)
      % range
    ≡ (0 + total_all (on 5 debit) posted_book.transactions) % range
replay_all-total_example = replay_all-total 5 debit posted_book.transactions 0

uses-Reach_example :
    uses "k1" posted_book.transactions ≤ (if indexed "k1" posted_book then 1 else 0)
unfolding truthy
uses-Reach_example = uses-Reach posted_book "k1" posted-Reach refl

abbrev cash : Account
cash = record {
  id = 5;
  subledger_id = 3;
  name = "Cash";
  account_type = AccountType.asset;
  created_at = 3;
}

replay-reverse_example :
    replay 5 (normal_direction AccountType.asset) (transaction_of 5 deposit 8).entries (
      compute_book_balance
        (after (reverse_transaction 6 11 "mistake" posted_book) posted_book)
        5
        AccountType.asset)
    ≡ compute_book_balance posted_book 5 AccountType.asset
unfolding run transaction_with transaction_of new_book truthy
replay-reverse_example =
    replay-reverse 6 11 "mistake" posted_book (transaction_of 5 deposit 8) 5 AccountType.asset refl
      refl

compute_book_balance-post_example :
    compute_book_balance
      (after (post_transaction 5 deposit chart_book) chart_book)
      5
      AccountType.asset
    < 2 ^ 63
unfolding run refusal account_of is_checked compute_book_balance replay normal_direction new_book
    truthy
compute_book_balance-post_example =
    compute_book_balance-post 5 deposit chart_book cash refl refl refl (omega arith)
      (λ k. omega arith)

-- The totals of `validateBalance` wrap around: three credits of 2 ^ 64 in all pass it without a debit.
wrapped_test :
    is_balanced
      (record { id = 0; account_id = 7; amount = 2 ^ 63 - 1; direction = credit }
        ∷ record { id = 0; account_id = 7; amount = 2 ^ 63 - 1; direction = credit }
        ∷ record { id = 0; account_id = 7; amount = 2; direction = credit }
        ∷ [])
      0
      0
    ≡ true
unfolding is_balanced
wrapped_test = refl
