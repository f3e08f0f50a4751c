-- ===== src/Backend/Clearing/Banks.antt =====
-- A bank's clearing suspense, and what a step of a settlement of payment/system.go does to it.
use core_banking_system.Prelude.{
  ◌≡◌, refl, ap, sym, ◌∙◌, ℕ, ◌+◌, ◌%◌, true, false, Option, none, some, List, [], ◌∷◌, nat_eq,
  arith, Bool-cases, inl, inr, if◌then◌else◌,
}
use core_banking_system.Enums.{AccountType, credit}
use core_banking_system.Backend.Book as Ledger
use core_banking_system.Backend.Book.{
  Amount, Book, Entry, range, add, sub, is_positive, compute_book_balance, replay, replay_entry,
  normal_direction, same_direction,
}
use core_banking_system.Backend.Book.Methods.{PostRequest, post_transaction}
use core_banking_system.Backend.Book.Totals.{eq_of_nat_eq}
use core_banking_system.Backend.Book.Funds.{compute_book_balance-post_transaction}
use core_banking_system.Backend.Register as Reg
use core_banking_system.Backend.Register.{replace, account_with}
use core_banking_system.Backend.Register.Entries.{key-find, find-put}
use core_banking_system.Backend.Register.Changes.{Result-cases}
use core_banking_system.Backend.Clearing.{
  Participant, Payment, Network, Positions, failed, done, of_book, payment_with, participant_with,
  put_participant,
}
use core_banking_system.Backend.Clearing.Settling.{post_in_bank}

-- A bank with its suspense and reserve accounts and its customers' accounts.
pub record Bank (k s r : ℕ) (accounts : List Reg.Account) (n : Network) : Type 0 where
  pub bank : Participant
  pub found : participant_with k n ≡ some bank
  pub suspense : bank.suspense_account ≡ s
  pub reserve : bank.reserve_account ≡ r
  pub customers : bank.deposit.accounts ≡ accounts

-- The balance of a liability account in a bank's own ledger.
abbrev pub balance_in : ℕ → Option Participant → Amount
balance_in s none = 0
balance_in s (some b) = compute_book_balance b.deposit.book s AccountType.liability

abbrev pub suspense_balance : ℕ → ℕ → Network → Amount
suspense_balance k s n = balance_in s (participant_with k n)

-- A posting in a bank, seen from a bank: its own ledger takes the entries, the others' stay.
pub record Posted (k id s r : ℕ) (accounts : List Reg.Account) (q : PostRequest) (n m : Network)
    : Type 0 where
  pub stays : Bank k s r accounts m
  pub payments : m.payments ≡ n.payments
  pub own :
      nat_eq id k ≡ true
      → suspense_balance k s m ≡ replay s credit q.entries (suspense_balance k s n)
  pub other : nat_eq id k ≡ false → suspense_balance k s m ≡ suspense_balance k s n

pub Posted-post_in_bank :
    (now id k s r : ℕ) (accounts : List Reg.Account) (bank : Participant) (q : PostRequest)
    (t : Ledger.Transaction) (n m : Network)
    → Bank k s r accounts n
    → participant_with id n ≡ some bank
    → post_in_bank now bank q n ≡ done t m
    → Posted k id s r accounts q n m
unfolding post_in_bank put_participant participant_with normal_direction
Posted-post_in_bank now id k s r accounts bank q t n m v h e =
    elim (Result-cases (post_transaction now q bank.deposit.book)) [
      | inl (x, p) ↦
          absurd (let g : failed (of_book x) n ≡ done t m = rw (p, post_in_bank) at e in cc)
      | inr (u, b, p) ↦
          let c = record bank { deposit = record bank.deposit { book = b } } in
          let g : done u (put_participant c n) ≡ done t m = rw (p, post_in_bank) at e in
          let same : put_participant c n ≡ m = cc in
          let key = key-find (λ (x : Participant). x.id) id n.participants bank h in
          let there : participant_with bank.id n ≡ some bank =
            ap (λ i. participant_with i n) key ∙ h in
          let look : participant_with k m
              ≡ (if nat_eq bank.id k then some c else participant_with k n) =
            rw (← same) (find-put (λ (x : Participant). x.id) k c bank n.participants there) in
          elim (Bool-cases (nat_eq id k)) [
            | inl i ↦
                let here : participant_with k n ≡ some bank =
                  ap (λ j. participant_with j n) (sym (eq_of_nat_eq id k i)) ∙ h in
                let at_k : nat_eq bank.id k ≡ true = ap (λ j. nat_eq j k) key ∙ i in
                let put : participant_with k m ≡ some c = rw at_k at look in
                let eq : v.bank ≡ bank =
                  (let z : some v.bank ≡ some bank = sym v.found ∙ here in cc) in
                record {
                  stays = record {
                    bank = c;
                    found = put;
                    suspense = ap (λ (z : Participant). z.suspense_account) (sym eq) ∙ v.suspense;
                    reserve = ap (λ (z : Participant). z.reserve_account) (sym eq) ∙ v.reserve;
                    customers = ap (λ (z : Participant). z.deposit.accounts) (sym eq) ∙ v.customers;
                  };
                  payments = ap (λ (z : Network). z.payments) (sym same);
                  own = λ _.
                      rw (put, here)
                        (compute_book_balance-post_transaction now s AccountType.liability q
                          bank.deposit.book b u p);
                  other = λ z. absurd cc;
                }
            | inr i ↦
                let off : nat_eq bank.id k ≡ false = ap (λ j. nat_eq j k) key ∙ i in
                let kept : participant_with k m ≡ participant_with k n = rw off at look in
                record {
                  stays = record {
                    bank = v.bank;
                    found = kept ∙ v.found;
                    suspense = v.suspense;
                    reserve = v.reserve;
                    customers = v.customers;
                  };
                  payments = ap (λ (z : Network). z.payments) (sym same);
                  own = λ z. absurd cc;
                  other = λ _. ap (balance_in s) kept;
                }
          ]
    ]

-- The position of a bank.
abbrev pub position : ℕ → Positions → ℕ
position k [] = 0
position k (p ∷ ps) = (if nat_eq p.0 k then p.1 else 0) + position k ps

-- What is read off a payment, where there is one.
abbrev pub amount_if : (Payment → ℕ) → Option Payment → ℕ
amount_if f none = 0
amount_if f (some p) = f p

-- A payment's part in what a bank's customers are paid.
abbrev pub paid_in : ℕ → Option Payment → ℕ
paid_in k o = amount_if (λ p. if nat_eq p.creditor.participant k then p.amount else 0) o

-- What the payments of a cycle pay to a bank's customers.
abbrev pub credited : ℕ → List ℕ → Network → ℕ
credited k [] n = 0
credited k (id ∷ ids) n = paid_in k (payment_with id n) + credited k ids n

-- After steps: the bank is there, its suspense has changed by a sum, and the payments pay the same.
pub record Shifted (k s r : ℕ) (accounts : List Reg.Account) (plus minus : ℕ) (n m : Network)
    : Type 0 where
  pub stays : Bank k s r accounts m
  pub suspense : (suspense_balance k s m + minus) % range ≡ (suspense_balance k s n + plus) % range
  pub paid : (id : ℕ) → paid_in k (payment_with id m) ≡ paid_in k (payment_with id n)

-- The accounts of the bank that an id finds, where it is the one in question.
pub record Own (s r : ℕ) (accounts : List Reg.Account) (bank : Participant) : Type 0 where
  pub suspense : bank.suspense_account ≡ s
  pub reserve : bank.reserve_account ≡ r
  pub customers : bank.deposit.accounts ≡ accounts

pub Own-Bank :
    (k id s r : ℕ) (accounts : List Reg.Account) (bank : Participant) (n : Network)
    → Bank k s r accounts n
    → participant_with id n ≡ some bank
    → nat_eq id k ≡ true
    → Own s r accounts bank
Own-Bank k id s r accounts bank n b h t =
    let here : participant_with k n ≡ some bank =
      ap (λ j. participant_with j n) (sym (eq_of_nat_eq id k t)) ∙ h in
    let eq : b.bank ≡ bank = (let z : some b.bank ≡ some bank = sym b.found ∙ here in cc) in
    record {
      suspense = ap (λ (z : Participant). z.suspense_account) (sym eq) ∙ b.suspense;
      reserve = ap (λ (z : Participant). z.reserve_account) (sym eq) ∙ b.reserve;
      customers = ap (λ (z : Participant). z.deposit.accounts) (sym eq) ∙ b.customers;
    }

module _ (k s r : ℕ) (accounts : List Reg.Account) where
  pub Shifted-refl : (n : Network) → Bank k s r accounts n → Shifted k s r accounts 0 0 n n
  Shifted-refl n b = record { stays = b; suspense = refl; paid = λ id. refl }

  pub Shifted-trans :
      (a b c d : ℕ) (n m o : Network)
      → Shifted k s r accounts a b n m
      → Shifted k s r accounts c d m o
      → Shifted k s r accounts (a + c) (b + d) n o
  Shifted-trans a b c d n m o x y = record {
    stays = y.stays;
    suspense = (let p = x.suspense in let q = y.suspense in omega arith);
    paid = λ id. y.paid id ∙ x.paid id;
  }

module _ (k : ℕ) where
  pub credited-paid :
      (ids : List ℕ) (n m : Network)
      → ((id : ℕ) → paid_in k (payment_with id m) ≡ paid_in k (payment_with id n))
      → credited k ids m ≡ credited k ids n
  credited-paid [] n m h = refl
  credited-paid (id ∷ ids) n m h = let i = credited-paid ids n m h in let j = h id in omega arith
