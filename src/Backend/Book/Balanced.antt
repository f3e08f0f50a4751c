-- ===== src/Backend/Book/Balanced.antt =====
-- Every book that the calls of service.go can make is in balance.
use core_banking_system.Prelude.{
  ◌≡◌, refl, sym, ℕ, ◌%◌, Bool, true, false, some, List, [], ◌∷◌, ◌++◌, find, arith, All,
  if◌then◌else◌, some_of_if, nat_eq,
}
use core_banking_system.Enums.{debit, credit}
use core_banking_system.Backend.Book.{Transaction, Book, range, new_book, opposite}
use core_banking_system.Backend.Book.Methods.{
  transaction_of, reversal_of_transaction, mark_reversed, transaction_with, Command, run,
}
use core_banking_system.Backend.Book.Totals.{
  part, total, total_all, totals_of_is_balanced, total-numbered, total-flipped, entries-mark,
}
use core_banking_system.Backend.Book.Steps.{Change, same, posting, reversing, Change-run}

-- Books that calls make, at whatever times.
pub data Reach : Book → Type 0 where
  start : Reach new_book
  step : {b : Book} (now : ℕ) (c : Command) → Reach b → Reach (run now c b)

-- A transaction in balance, and a book: the debits and the credits agree as int64 sums.
abbrev pub Even : Transaction → Type 0
Even t = total (part debit) t.entries % range ≡ total (part credit) t.entries % range

abbrev pub InBalance : List Transaction → Type 0
InBalance ts = total_all (part debit) ts % range ≡ total_all (part credit) ts % range

pub All-append {ℓ κ} :
    {A : Type ℓ} (P : A → Type κ) (xs : List A) (x : A) → All P xs → P x → All P (xs ++ (x ∷ []))
All-append P [] x h k = (k, tt)
All-append P (y ∷ xs) x h k = (h.0, All-append P xs x h.1 k)

pub All-find {ℓ κ} :
    {A : Type ℓ} (P : A → Type κ) (p : A → Bool) (xs : List A) (x : A)
    → All P xs
    → find p xs ≡ some x
    → P x
All-find P p [] x h e = absurd cc
All-find P p (y ∷ xs) x h e =
    elim (p y) as (λ b. (if b then some y else find p xs) ≡ some x → P x) [
      | true ↦ λ k. rw (← (some_of_if true y k).1) h.0
      | false ↦ λ k. All-find P p xs x h.1 k
    ]
      e

Even-mark : (id : ℕ) (ts : List Transaction) → All Even ts → All Even (mark_reversed id ts)
unfolding mark_reversed
Even-mark id [] h = tt
Even-mark id (t ∷ ts) h = (rw (entries-mark id t) h.0, Even-mark id ts h.1)

Even-change :
    (now : ℕ) (b : Book) (ts : List Transaction)
    → Change now b ts
    → All Even b.transactions
    → All Even ts
unfolding transaction_of reversal_of_transaction transaction_with opposite
Even-change now b _ same h = h
Even-change now b _ (posting r p) h = All-append Even b.transactions _ h (
    rw (total-numbered debit b.id_counter r.entries, total-numbered credit b.id_counter r.entries)
      (let e = totals_of_is_balanced r.entries 0 0 p.balanced in omega arith))
Even-change now b _ (reversing id description t e k) h =
    All-append Even (mark_reversed id b.transactions) _ (Even-mark id b.transactions h) (
      rw (total-numbered debit, total-numbered credit, total-flipped debit, total-flipped credit)
        (sym (All-find Even (λ x. nat_eq x.id id) b.transactions t h e)))

InBalance-of_Even : (ts : List Transaction) → All Even ts → InBalance ts
InBalance-of_Even [] h = refl
InBalance-of_Even (t ∷ ts) h = let i = InBalance-of_Even ts h.1 in let e = h.0 in omega arith

pub Even-Reach : (b : Book) → Reach b → All Even b.transactions
unfolding new_book
Even-Reach _ Reach.start = tt
Even-Reach _ (Reach.step {b} now c r) = Even-change now b _ (Change-run now c b) (Even-Reach b r)

-- In every book that calls can make, the debits and the credits agree as int64 sums, in each transaction and
-- over all of them.
pub InBalance-Reach : (b : Book) → Reach b → All Even b.transactions × InBalance b.transactions
InBalance-Reach b r = (Even-Reach b r, InBalance-of_Even b.transactions (Even-Reach b r))
