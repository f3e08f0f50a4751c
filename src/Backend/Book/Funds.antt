-- ===== src/Backend/Book/Funds.antt =====
-- What `checkSufficientBalance` of service.go guards.
use mathlib.Core.Bool.{and-eq-true_iff}
use core_banking_system.Prelude.{
  ◌≡◌, refl, ap, sym, ◌∙◌, ℕ, ◌+◌, ◌%◌, ◌^◌, ◌<◌, Bool, true, false, not, ◌||◌, none, some, List,
  [], ◌∷◌, ◌++◌, arith, every, nat_eq, Bool-cases, Option-cases, inl, inr, ◌⊎◌,
}
use core_banking_system.Enums.{AccountType, Direction}
use core_banking_system.Backend.Book.{
  Account, Entry, Transaction, Book, error, ok, range, add, is_negative, normal_direction,
  replay_entry, replay, replay_all, compute_book_balance, account_of, is_checked, is_sufficient,
  passes, has_sufficient_balance, append_audit,
}
use core_banking_system.Backend.Book.Methods.{
  PostRequest, refusal, post_transaction, transaction_of, after,
}
use core_banking_system.Backend.Book.Totals.{eq_of_nat_eq}
use core_banking_system.Backend.Book.Steps.{Passed-of_refusal}
use core_banking_system.Backend.Book.Balances.{
  replay_lt, replay-total, replay_all_lt, replay_all-append, replay-numbered,
}

-- The net impact of entries on an account.
abbrev pub impact : Account → List Entry → ℕ
impact a es = replay a.id (normal_direction a.account_type) es 0

-- A balance after entries is the balance and the impact, as int64.
replay-impact :
    (id : ℕ) (n : Direction) (es : List Entry) (x : ℕ)
    → x < range
    → replay id n es x ≡ (x + replay id n es 0) % range
replay-impact id n es x h =
    let a = replay-total id n es x in
    let b = replay-total id n es 0 in let c = replay_lt id n es x h in omega arith

sufficient_of_passes :
    (b : Book) (a : Account) (all : List Entry) (e : Entry)
    → account_of b a.id ≡ some a
    → nat_eq e.account_id a.id ≡ true
    → passes b all e ≡ true
    → is_sufficient b all a ≡ true
unfolding passes
sufficient_of_passes b a all e h t p =
    let q : account_of b e.account_id ≡ some a =
      ap (account_of b) (eq_of_nat_eq e.account_id a.id t) ∙ h in
    sym (ap (λ o. elim o as (λ _. Bool) [ none ↦ true | some c ↦ is_sufficient b all c ]) q) ∙ p

-- An account that passes the check, or that no entry is on.
sufficient_or_absent :
    (b : Book) (a : Account) (all es : List Entry)
    → account_of b a.id ≡ some a
    → every (passes b all) es ≡ true
    → (is_sufficient b all a ≡ true) ⊎ (replay a.id (normal_direction a.account_type) es 0 ≡ 0)
unfolding replay
sufficient_or_absent b a all [] h k = inr refl
sufficient_or_absent b a all (e ∷ es) h k =
    let (p, q) = (and-eq-true_iff (passes b all e) (every (passes b all) es)).0 k in
    elim (Bool-cases (nat_eq e.account_id a.id)) [
      | inl t ↦ inl (sufficient_of_passes b a all e h t p)
      | inr f ↦ rw (f, replay_entry) (sufficient_or_absent b a all es h q)
    ]

-- The check in numbers: a sum that is no overflow, or that has been tested, is not negative.
kept :
    (c : Bool) (x d : ℕ)
    → c ≡ true
    → x < 2 ^ 63
    → (is_negative d ≡ false → x + d < 2 ^ 63)
    → (not c || not (is_negative d) || not (is_negative (add x d))) ≡ true
    → (x + d) % range < 2 ^ 63
unfolding add
kept c x d t h f s = ground arith

pub transactions-post :
    (now : ℕ) (r : PostRequest) (b : Book)
    → refusal r.idempotency_key r.entries b ≡ none
    → (after (post_transaction now r b) b).transactions
      ≡ b.transactions ++ (transaction_of now r b.id_counter ∷ [])
unfolding post_transaction append_audit
transactions-post now r b e = rw (e, post_transaction) refl

pub refusal-post_transaction :
    (now : ℕ) (q : PostRequest) (b c : Book) (t : Transaction)
    → post_transaction now q b ≡ ok t c
    → refusal q.idempotency_key q.entries b ≡ none
unfolding post_transaction
refusal-post_transaction now q b c t h =
    elim (Option-cases (refusal q.idempotency_key q.entries b)) [
      | inl e ↦ e
      | inr (x, e) ↦ absurd (let g : error x ≡ ok t c = rw (e, post_transaction) at h in cc)
    ]

pub accounts-post_transaction :
    (now : ℕ) (q : PostRequest) (b c : Book) (t : Transaction)
    → post_transaction now q b ≡ ok t c
    → c.accounts ≡ b.accounts
unfolding post_transaction append_audit
accounts-post_transaction now q b c t h =
    ap (λ z. (after z b).accounts) (sym h)
    ∙ rw (refusal-post_transaction now q b c t h, post_transaction) refl

-- A posting that is accepted, on the balance of an account.
pub compute_book_balance-post_transaction :
    (now id : ℕ) (ty : AccountType) (q : PostRequest) (b c : Book) (t : Transaction)
    → post_transaction now q b ≡ ok t c
    → compute_book_balance c id ty
      ≡ replay id (normal_direction ty) q.entries (compute_book_balance b id ty)
unfolding compute_book_balance transaction_of replay_all
compute_book_balance-post_transaction now id ty q b c t h =
    let n = normal_direction ty in
    let e : c.transactions ≡ _ =
      ap (λ z. (after z b).transactions) (sym h)
      ∙ transactions-post now q b (refusal-post_transaction now q b c t h) in
    rw (e, replay_all-append id n b.transactions (transaction_of now q b.id_counter ∷ []) 0)
      (replay-numbered id n b.id_counter q.entries (replay_all id n b.transactions 0))

-- A posting that is accepted leaves an asset or expense account that was not negative not negative, if the
-- balance does not grow out of the range of int64.
pub compute_book_balance-post :
    (now : ℕ) (r : PostRequest) (b : Book) (a : Account)
    → refusal r.idempotency_key r.entries b ≡ none
    → account_of b a.id ≡ some a
    → is_checked a.account_type ≡ true
    → compute_book_balance b a.id a.account_type < 2 ^ 63
    → (is_negative (impact a r.entries) ≡ false
        → compute_book_balance b a.id a.account_type + impact a r.entries < 2 ^ 63)
    → compute_book_balance (after (post_transaction now r b) b) a.id a.account_type < 2 ^ 63
unfolding compute_book_balance transaction_of replay_all is_sufficient has_sufficient_balance
compute_book_balance-post now r b a e h t low fits =
    let n = normal_direction a.account_type in
    let x = replay_all a.id n b.transactions 0 in
    let s = Passed-of_refusal r.idempotency_key r.entries b e in
    rw
      (
        transactions-post now r b e,
        replay_all-append a.id n b.transactions (transaction_of now r b.id_counter ∷ []) 0,
        replay-numbered a.id n b.id_counter r.entries x,
        replay-impact a.id n r.entries x (replay_all_lt a.id n b.transactions 0 (omega arith)),
      )
      (elim (sufficient_or_absent b a r.entries r.entries h s.sufficient) [
        | inl k ↦ kept (is_checked a.account_type) x (impact a r.entries) t low fits k
        | inr z ↦ rw z (omega arith)
      ])
