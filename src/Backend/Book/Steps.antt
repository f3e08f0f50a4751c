-- ===== src/Backend/Book/Steps.antt =====
-- What a call of service.go does to the transactions, by cases.
use core_banking_system.Prelude.{
  ◌≡◌, refl, ℕ, String, Bool, true, false, not, Option, none, some, List, [], ◌∷◌, ◌++◌, every,
  is_some, any, nat_eq, if◌then◌else◌, Option-cases, Bool-cases, inl, inr,
}
use core_banking_system.Backend.Book.{
  Book, Entry, invalid_amount, account_not_found, duplicate_idempotency_key, unbalanced_transaction,
  insufficient_balance, Transaction, is_positive, account_of, is_balanced, has_sufficient_balance,
  create_ledger, create_subledger, create_account, append_audit,
}
use core_banking_system.Backend.Book.Methods.{
  PostRequest, refusal, is_used, transaction_of, post_transaction, reversal_of_transaction,
  mark_reversed, transaction_with, reverse_transaction, is_reversed, Command, new_ledger,
  new_subledger, new_account, post, reverse, run,
}

-- What a posting that is not refused satisfies.
pub record Passed (key : String) (es : List Entry) (b : Book) : Type 0 where
  pub positive : every (λ e. is_positive e.amount) es ≡ true
  pub known : every (λ e. is_some (account_of b e.account_id)) es ≡ true
  pub unused : is_used key b ≡ false
  pub balanced : is_balanced es 0 0 ≡ true
  pub sufficient : has_sufficient_balance b es ≡ true

unless :
    {A : Type 0} (t : Bool) (e : A) {rest : Option A}
    → (if not t then some e else rest) ≡ none
    → (t ≡ true) × (rest ≡ none)
unless true e h = (refl, h)
unless false e h = absurd cc

when :
    {A : Type 0} (t : Bool) (e : A) {rest : Option A}
    → (if t then some e else rest) ≡ none
    → (t ≡ false) × (rest ≡ none)
when false e h = (refl, h)
when true e h = absurd cc

pub Passed-of_refusal :
    (key : String) (es : List Entry) (b : Book) → refusal key es b ≡ none → Passed key es b
unfolding refusal
Passed-of_refusal key [] b h = absurd cc
Passed-of_refusal key (e ∷ es) b h =
    let (p, h1) = unless (every (λ x. is_positive x.amount) (e ∷ es)) invalid_amount h in
    let (k, h2) =
      unless (every (λ x. is_some (account_of b x.account_id)) (e ∷ es)) account_not_found h1 in
    let (u, h3) = when (is_used key b) duplicate_idempotency_key h2 in
    let (v, h4) = unless (is_balanced (e ∷ es) 0 0) unbalanced_transaction h3 in
    let (s, h5) = unless (has_sufficient_balance b (e ∷ es)) insufficient_balance h4 in
    record { positive = p; known = k; unused = u; balanced = v; sufficient = s }

-- The transactions after a call: as they were, with a posting, or with a reversal.
pub data Change (now : ℕ) (b : Book) : List Transaction → Type 0 where
  same : Change now b b.transactions
  posting :
      (r : PostRequest)
      → Passed r.idempotency_key r.entries b
      → Change now b (b.transactions ++ (transaction_of now r b.id_counter ∷ []))
  reversing :
      (id : ℕ) (description : String) (t : Transaction)
      → transaction_with id b ≡ some t
      → is_reversed t.status ≡ false
      → Change now b (
          mark_reversed id b.transactions
          ++ (reversal_of_transaction now description t b.id_counter ∷ []))

pub Change-run : (now : ℕ) (c : Command) (b : Book) → Change now b (run now c b).transactions
unfolding run create_ledger create_subledger create_account post_transaction reverse_transaction
    append_audit
Change-run now (new_ledger name) b = same
Change-run now (new_subledger l name) b = elim (Bool-cases (any (λ x. nat_eq x.0 l) b.ledgers)) [
  | inl e ↦ rw (e, create_subledger) same
  | inr e ↦ rw (e, create_subledger) same
]
Change-run now (new_account s name t) b = elim (Bool-cases (any (λ x. nat_eq x.0 s) b.subledgers)) [
  | inl e ↦ rw (e, create_account) same
  | inr e ↦ rw (e, create_account) same
]
Change-run now (post r) b = elim (Option-cases (refusal r.idempotency_key r.entries b)) [
  | inl e ↦ rw (e, post_transaction) (posting r (Passed-of_refusal r.idempotency_key r.entries b e))
  | inr (x, e) ↦ rw (e, post_transaction) same
]
Change-run now (reverse id description) b = elim (Option-cases (transaction_with id b)) [
  | inl e ↦ rw (e, reverse_transaction) same
  | inr (t, e) ↦ elim (Bool-cases (is_reversed t.status)) [
    | inl k ↦ rw (e, k, reverse_transaction) same
    | inr k ↦ rw (e, k, reverse_transaction) (reversing id description t e k)
  ]
]
