-- ===== src/Tests/Clearing.antt =====
-- Two banks and a payment between them, whose payer's bank has no reserves.
use core_banking_system.Prelude.{
  ◌≡◌, refl, ℕ, ◌%◌, ◌+◌, String, true, none, some, [], ◌∷◌, ◌+s◌, nat_eq, truthy, if◌then◌else◌,
}
use core_banking_system.Enums.{AccountType, CycleStatus, PaymentStatus, debit, credit}
use core_banking_system.Backend.Book.{
  Book, new_book, range, sub, is_balanced, compute_book_balance, insufficient_balance,
  duplicate_idempotency_key,
}
use core_banking_system.Backend.Book.Methods as BookMethods
use core_banking_system.Backend.Book.Methods.{
  PostRequest, new_ledger, new_subledger, new_account, post,
}
use core_banking_system.Backend.Register.{Register, new_register}
use core_banking_system.Backend.Register.Methods as RegisterMethods
use core_banking_system.Backend.Register.Methods.{open_new, on_book}
use core_banking_system.Backend.Clearing.{
  Participant, Payment, Cycle, Network, Outcome, failed, done, of_book, close_cycle,
}
use core_banking_system.Backend.Clearing.Settling.{settlement_entries, settle_cycle}
use core_banking_system.Backend.Clearing.Positions.{sum, is_balanced-close_cycle}
use core_banking_system.Backend.Clearing.Banks.{suspense_balance}
use core_banking_system.Backend.Clearing.Netting.{debited}
use core_banking_system.Backend.Clearing.Cycles.{suspense-settle_cycle}
use core_banking_system.Backend.Clearing.Retry.{settle_cycle-again}

-- The chart of a new bank: suspense is account 7, the reserve 9.
abbrev bank_book : Book
bank_book = BookMethods.run 1 (new_account 5 "Reserve at Central Bank" AccountType.asset) (
    BookMethods.run 1 (new_account 5 "Clearing Suspense" AccountType.liability) (
      BookMethods.run 1 (new_subledger 1 "Interbank") (
        BookMethods.run 1 (new_subledger 1 "Customer Deposits")
          (BookMethods.run 1 (new_ledger "GL") new_book))))

-- One customer, with account 11 behind it and an overdraft.
abbrev customers : Register
customers = RegisterMethods.run 2 (open_new 3 "Ann" 100) (new_register bank_book)

-- The payer's leg.
abbrev debtor_leg : PostRequest
debtor_leg = record {
  idempotency_key = "";
  entries =
      record { id = 0; account_id = 11; amount = 50; direction = debit }
      ∷ record { id = 0; account_id = 7; amount = 50; direction = credit }
      ∷ [];
  booking_date = 0;
  value_date = 0;
  description = "";
  metadata = [];
}

-- The central bank: the reserve accounts of the two banks are 9 and 11.
abbrev central : Book
central = BookMethods.run 1 (new_account 3 "Reserve: Beta" AccountType.liability) (
    BookMethods.run 1 (new_account 3 "Reserve: Alpha" AccountType.liability) (
      BookMethods.run 1 (new_account 5 "Settlement Assets" AccountType.asset) (
        BookMethods.run 1 (new_subledger 1 "Central Bank Capital") (
          BookMethods.run 1 (new_subledger 1 "Member Reserves")
            (BookMethods.run 1 (new_ledger "Central Bank") new_book)))))

abbrev bank : ℕ → String → Register → ℕ → Participant
bank id name deposit settlement = record {
  id = id;
  name = name;
  deposit = deposit;
  customer_subledger = 3;
  suspense_account = 7;
  reserve_account = 9;
  settlement_account = settlement;
}

abbrev payment : Payment
payment = record {
  id = 4;
  scheme = "sepa.ct";
  debtor = record { participant = 1; account = 1; iban = "" };
  creditor = record { participant = 2; account = 1; iban = "" };
  amount = 50;
  mandate_id = 0;
  end_to_end_id = "";
  status = PaymentStatus.accepted;
  reject_reason = "";
  cycle_id = 3;
  booking_date = 3;
  value_date = 4;
  description = "";
  metadata = [];
  created_at = 3;
  debtor_leg_tx = some 15;
  creditor_leg_tx = none;
}

abbrev open_network : Network
open_network = record {
  schemes = "sepa.ct" ∷ [];
  participants =
      bank 1 "Alpha" (RegisterMethods.run 3 (on_book (post debtor_leg)) customers) 9
      ∷ bank 2 "Beta" customers 11
      ∷ [];
  payments = payment ∷ [];
  cycles =
      record {
        id = 3;
        scheme = "sepa.ct";
        status = CycleStatus.open_cycle;
        payment_ids = 4 ∷ [];
        net_positions = [];
        opened_at = 2;
        closed_at = 0;
        settlement_id = none;
      }
      ∷ [];
  settlements = [];
  open_cycles = ("sepa.ct", 3) ∷ [];
  central_bank = central;
  id_counter = 4;
}

abbrev network_of : {A : Type 0} → Outcome A → Network
network_of (failed e n) = n
network_of (done a n) = n

abbrev closed_network : Network
closed_network = network_of (close_cycle 5 3 open_network)

abbrev closed : Cycle
closed = record {
  id = 3;
  scheme = "sepa.ct";
  status = CycleStatus.closed;
  payment_ids = 4 ∷ [];
  net_positions = (1, sub 0 50) ∷ (2, 50) ∷ [];
  opened_at = 2;
  closed_at = 5;
  settlement_id = none;
}

is_balanced-close_cycle_example :
    (sum closed.net_positions % range ≡ 0)
    × (is_balanced
          (record { id = 0; account_id = 9; amount = 50; direction = debit }
            ∷ record { id = 0; account_id = 11; amount = 50; direction = credit }
            ∷ [])
          0
          0
        ≡ true)
unfolding close_cycle settlement_entries sub
is_balanced-close_cycle_example =
    is_balanced-close_cycle 5 3 open_network closed_network closed_network closed _ refl refl

-- Texts of ids that are enough for one cycle, two banks and one payment.
abbrev named : String → ℕ → String
named prefix id = prefix +s (if nat_eq id 1 then "_1" else if nat_eq id 2 then "_2" else "_3")

abbrev stuck : Network
stuck = network_of (settle_cycle named 6 3 closed_network)

settle_cycle-again_example :
    settle_cycle named 7 3 stuck ≡ failed (of_book duplicate_idempotency_key) stuck
unfolding settle_cycle close_cycle RegisterMethods.run BookMethods.run new_register new_book truthy
    BookMethods.is_used
settle_cycle-again_example =
    settle_cycle-again named 6 7 3 closed_network stuck (of_book insufficient_balance) refl refl
      refl

-- The same with reserves of the payer's bank, at the central bank and in its own ledger.
abbrev funding : ℕ → ℕ → PostRequest
funding from to = record debtor_leg {
  entries =
      record { id = 0; account_id = from; amount = 50; direction = debit }
      ∷ record { id = 0; account_id = to; amount = 50; direction = credit }
      ∷ [];
}

abbrev payer_bank : Participant
payer_bank =
    bank 1 "Alpha"
      (RegisterMethods.run 3 (on_book (post debtor_leg))
        (RegisterMethods.run 3 (on_book (post (funding 9 11))) customers))
      9

abbrev funded_network : Network
funded_network = record open_network {
  participants = payer_bank ∷ bank 2 "Beta" customers 11 ∷ [];
  central_bank = BookMethods.run 1 (post (funding 7 9)) central;
}

abbrev funded_closed : Network
funded_closed = network_of (close_cycle 5 3 funded_network)

abbrev settled_network : Network
settled_network = network_of (settle_cycle named 6 3 funded_closed)

payer_suspense : suspense_balance 1 7 settled_network ≡ 0
unfolding settle_cycle close_cycle RegisterMethods.run BookMethods.run new_register new_book truthy
    BookMethods.is_used compute_book_balance
payer_suspense = refl

payee_suspense : suspense_balance 2 7 settled_network ≡ 0
unfolding settle_cycle close_cycle RegisterMethods.run BookMethods.run new_register new_book truthy
    BookMethods.is_used compute_book_balance
payee_suspense = refl

suspense-settle_cycle_example :
    (suspense_balance 1 7 settled_network + debited 1 (4 ∷ []) funded_network) % range
    ≡ suspense_balance 1 7 funded_network % range
unfolding settle_cycle close_cycle RegisterMethods.run BookMethods.run new_register new_book truthy
    BookMethods.is_used
suspense-settle_cycle_example =
    suspense-settle_cycle named 5 6 1 3 payer_bank funded_network funded_closed settled_network
      closed _ refl refl refl refl refl
