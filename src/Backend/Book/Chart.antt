-- ===== src/Backend/Book/Chart.antt =====
-- The accounts that the entries of a book are on.
use core_banking_system.Prelude.{
  ◌≡◌, refl, ap, ℕ, suc, ◌+◌, ◌≤◌, ◌<◌, true, false, some, is_some, List, [], ◌∷◌, ◌++◌, map, any,
  every, find, nat_eq, arith, All, if◌then◌else◌, Bool-cases, Option-cases, inl, inr,
}
use mathlib.Core.Bool.{and-eq-true_iff}
use core_banking_system.Backend.Book.{
  Account, Entry, Transaction, Book, new_book, account_of, create_ledger, create_subledger,
  create_account, fresh_account, append_audit,
}
use core_banking_system.Backend.Book.Methods.{
  numbered, last_id, flipped, mark_reversed, transaction_of, reversal_of_transaction,
  transaction_with, Command, new_ledger, new_subledger, new_account, post, reverse, run, refusal,
  post_transaction, reverse_transaction, is_reversed,
}
use core_banking_system.Backend.Book.Balanced.{All-append, All-find, Reach}
use core_banking_system.Backend.Book.Steps.{Passed-of_refusal}
use core_banking_system.Backend.Book.Totals.{eq_of_nat_eq, entries-mark}

-- How many accounts have an id.
abbrev pub count_id : ℕ → List Account → ℕ
count_id id [] = 0
count_id id (a ∷ cs) = (if nat_eq a.id id then 1 else 0) + count_id id cs

-- The entries are on accounts that occur once.
abbrev pub OnAccounts : List Account → List Entry → Type 0
OnAccounts cs es = All (λ e. count_id e.account_id cs ≡ 1) es

abbrev pub AllOnAccounts : List Account → List Transaction → Type 0
AllOnAccounts cs ts = All (λ t. OnAccounts cs t.entries) ts

-- Ids above the counter are free, no id is taken twice, and every entry is on an account.
pub record WellFormed (n : ℕ) (cs : List Account) (ts : List Transaction) : Type 0 where
  pub free : (id : ℕ) → n < id → count_id id cs ≡ 0
  pub single : (id : ℕ) → count_id id cs ≤ 1
  pub on_accounts : AllOnAccounts cs ts

WellFormed-counter :
    {n m : ℕ} {cs : List Account} {ts : List Transaction}
    → n ≤ m
    → WellFormed n cs ts
    → WellFormed m cs ts
WellFormed-counter h w = record {
  free = λ id k. w.free id (omega arith);
  single = w.single;
  on_accounts = w.on_accounts;
}

-- An account with a free id does not touch the other ids.
count-fresh :
    (a : Account) (cs : List Account) (id k : ℕ)
    → count_id a.id cs ≡ 0
    → count_id id cs ≡ suc k
    → count_id id (a ∷ cs) ≡ suc k
count-fresh a cs id k z h = elim (Bool-cases (nat_eq a.id id)) [
  | inl e ↦ let same = ap (λ i. count_id i cs) (eq_of_nat_eq a.id id e) in absurd (omega arith)
  | inr e ↦ rw e (omega arith)
]

count-single :
    (a : Account) (cs : List Account) (id : ℕ)
    → count_id a.id cs ≡ 0
    → count_id id cs ≤ 1
    → count_id id (a ∷ cs) ≤ 1
count-single a cs id z h = elim (Bool-cases (nat_eq a.id id)) [
  | inl e ↦ let same = ap (λ i. count_id i cs) (eq_of_nat_eq a.id id e) in rw e (omega arith)
  | inr e ↦ rw e (omega arith)
]

-- A new account: its id is free, so no entry is on it yet.
OnAccounts-cons :
    (n : ℕ) (a : Account) (cs : List Account) (es : List Entry)
    → ((id : ℕ) → n < id → count_id id cs ≡ 0)
    → n < a.id
    → OnAccounts cs es
    → OnAccounts (a ∷ cs) es
OnAccounts-cons n a cs [] f k h = tt
OnAccounts-cons n a cs (e ∷ es) f k h =
    (count-fresh a cs e.account_id 0 (f a.id k) h.0, OnAccounts-cons n a cs es f k h.1)

AllOnAccounts-cons :
    (n : ℕ) (a : Account) (cs : List Account) (ts : List Transaction)
    → ((id : ℕ) → n < id → count_id id cs ≡ 0)
    → n < a.id
    → AllOnAccounts cs ts
    → AllOnAccounts (a ∷ cs) ts
AllOnAccounts-cons n a cs [] f k h = tt
AllOnAccounts-cons n a cs (t ∷ ts) f k h =
    (OnAccounts-cons n a cs t.entries f k h.0, AllOnAccounts-cons n a cs ts f k h.1)

WellFormed-account :
    {n m : ℕ} {a : Account} {cs : List Account} {ts : List Transaction}
    → n < a.id
    → a.id ≤ m
    → WellFormed n cs ts
    → WellFormed m (a ∷ cs) ts
WellFormed-account {n} {m} {a} {cs} {ts} h k w = record {
  free = λ id l. let z = w.free id (omega arith) in ground arith;
  single = λ id. count-single a cs id (w.free a.id h) (w.single id);
  on_accounts = AllOnAccounts-cons n a cs ts w.free h w.on_accounts;
}

-- A known account occurs once.
count-find :
    (id : ℕ) (cs : List Account)
    → is_some (find (λ a. nat_eq a.id id) cs) ≡ true
    → 1 ≤ count_id id cs
count-find id [] h = absurd cc
count-find id (a ∷ cs) h =
    elim (nat_eq a.id id)
        as (λ b.
          is_some (if b then some a else find (λ x. nat_eq x.id id) cs) ≡ true
          → 1 ≤ (if b then 1 else 0) + count_id id cs) [
            | true ↦ λ k. omega arith
            | false ↦ λ k. let i = count-find id cs k in omega arith
          ]
      h

count-account_of :
    (b : Book) (id : ℕ)
    → ((i : ℕ) → count_id i b.accounts ≤ 1)
    → is_some (account_of b id) ≡ true
    → count_id id b.accounts ≡ 1
unfolding account_of
count-account_of b id s h = let k = count-find id b.accounts h in let l = s id in omega arith

OnAccounts-known :
    (b : Book) (es : List Entry)
    → ((i : ℕ) → count_id i b.accounts ≤ 1)
    → every (λ e. is_some (account_of b e.account_id)) es ≡ true
    → OnAccounts b.accounts es
OnAccounts-known b [] s h = tt
OnAccounts-known b (e ∷ es) s h =
    let (p, q) =
      (and-eq-true_iff (is_some (account_of b e.account_id))
          (every (λ x. is_some (account_of b x.account_id)) es)).0
        h in
    (count-account_of b e.account_id s p, OnAccounts-known b es s q)

OnAccounts-numbered :
    (cs : List Account) (n : ℕ) (es : List Entry) → OnAccounts cs es → OnAccounts cs (numbered n es)
unfolding numbered
OnAccounts-numbered cs n [] h = tt
OnAccounts-numbered cs n (e ∷ es) h = (h.0, OnAccounts-numbered cs (suc n) es h.1)

OnAccounts-flipped :
    (cs : List Account) (es : List Entry) → OnAccounts cs es → OnAccounts cs (map flipped es)
OnAccounts-flipped cs [] h = tt
OnAccounts-flipped cs (e ∷ es) h = (h.0, OnAccounts-flipped cs es h.1)

AllOnAccounts-mark_reversed :
    (cs : List Account) (id : ℕ) (ts : List Transaction)
    → AllOnAccounts cs ts
    → AllOnAccounts cs (mark_reversed id ts)
unfolding mark_reversed
AllOnAccounts-mark_reversed cs id [] h = tt
AllOnAccounts-mark_reversed cs id (t ∷ ts) h =
    (rw (entries-mark id t) h.0, AllOnAccounts-mark_reversed cs id ts h.1)

last_id_le : (n : ℕ) (es : List Entry) → n ≤ last_id n es
unfolding last_id
last_id_le n [] = omega arith
last_id_le n (e ∷ es) = let i = last_id_le (suc n) es in omega arith

le_two : {m n : ℕ} → m ≤ n → m ≤ suc (suc n)
le_two h = omega arith

abbrev pub WellFormedBook : Book → Type 0
WellFormedBook b = WellFormed b.id_counter b.accounts b.transactions

WellFormed-append :
    (n m : ℕ) (cs : List Account) (ts us : List Transaction) (t : Transaction)
    → n ≤ m
    → WellFormed n cs ts
    → AllOnAccounts cs us
    → OnAccounts cs t.entries
    → WellFormed m cs (us ++ (t ∷ []))
WellFormed-append n m cs ts us t h w u k = record {
  free = λ id l. w.free id (omega arith);
  single = w.single;
  on_accounts = All-append (λ x. OnAccounts cs x.entries) us t u k;
}

pub WellFormed-run :
    (now : ℕ) (c : Command) (b : Book) → WellFormedBook b → WellFormedBook (run now c b)
unfolding run create_ledger create_subledger create_account post_transaction reverse_transaction
    append_audit fresh_account transaction_of reversal_of_transaction last_id transaction_with
WellFormed-run now (new_ledger name) b w = WellFormed-counter (omega arith) w
WellFormed-run now (new_subledger l name) b w =
    elim (Bool-cases (any (λ x. nat_eq x.0 l) b.ledgers)) [
      | inl e ↦ rw (e, create_subledger) (WellFormed-counter (omega arith) w)
      | inr e ↦ rw (e, create_subledger) w
    ]
WellFormed-run now (new_account s name t) b w =
    elim (Bool-cases (any (λ x. nat_eq x.0 s) b.subledgers)) [
      | inl e ↦ rw (e, create_account) (WellFormed-account (omega arith) (omega arith) w)
      | inr e ↦ rw (e, create_account) w
    ]
WellFormed-run now (post r) b w = elim (Option-cases (refusal r.idempotency_key r.entries b)) [
  | inl e ↦
      rw (e, post_transaction)
        (WellFormed-append b.id_counter _ b.accounts b.transactions b.transactions
          (transaction_of now r b.id_counter) (le_two (last_id_le b.id_counter r.entries)) w
          w.on_accounts
          (OnAccounts-numbered b.accounts b.id_counter r.entries (
            OnAccounts-known b r.entries w.single
              (Passed-of_refusal r.idempotency_key r.entries b e).known)))
  | inr (x, e) ↦ rw (e, post_transaction) w
]
WellFormed-run now (reverse id description) b w = elim (Option-cases (transaction_with id b)) [
  | inl e ↦ rw (e, reverse_transaction) w
  | inr (t, e) ↦ elim (Bool-cases (is_reversed t.status)) [
    | inl k ↦ rw (e, k, reverse_transaction) w
    | inr k ↦
        rw (e, k, reverse_transaction)
          (WellFormed-append b.id_counter _ b.accounts b.transactions
            (mark_reversed id b.transactions)
            (reversal_of_transaction now description t b.id_counter)
            (le_two (last_id_le b.id_counter t.entries)) w
            (AllOnAccounts-mark_reversed b.accounts id b.transactions w.on_accounts)
            (OnAccounts-numbered b.accounts b.id_counter (map flipped t.entries) (
              OnAccounts-flipped b.accounts t.entries (
                All-find (λ x. OnAccounts b.accounts x.entries) (λ x. nat_eq x.id id) b.transactions
                  t w.on_accounts e))))
  ]
]

pub WellFormed-Reach : (b : Book) → Reach b → WellFormedBook b
unfolding new_book
WellFormed-Reach _ Reach.start = record {
  free = λ id l. refl;
  single = λ id. omega arith;
  on_accounts = tt;
}
WellFormed-Reach _ (Reach.step {b} now c r) = WellFormed-run now c b (WellFormed-Reach b r)
