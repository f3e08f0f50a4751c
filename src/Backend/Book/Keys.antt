-- ===== src/Backend/Book/Keys.antt =====
-- The idempotency keys of service.go.
use Prim.Native.String
use package.text.Mathlib.Text.{is_eq}
use package.text.Mathlib.TextEquality.{eq_iff}
use core_banking_system.Prelude.{
  ◌≡◌, refl, ap, sym, ◌∙◌, ℕ, ◌+◌, ◌≤◌, String, Bool, true, false, ◌&&◌, ◌||◌, List, [], ◌∷◌, ◌++◌,
  any, nat_eq, ◌=?◌, truthy, arith, if◌then◌else◌, Bool-cases, Option-cases, inl, inr,
}
use core_banking_system.Enums.{reversed}
use core_banking_system.Backend.Book.{
  Transaction, Book, new_book, create_ledger, create_subledger, create_account, append_audit,
}
use core_banking_system.Backend.Book.Methods.{
  is_used, refusal, transaction_of, post_transaction, mark, mark_reversed, reversal_of_transaction,
  transaction_with, is_reversed, reverse_transaction, Command, new_ledger, new_subledger,
  new_account, post, reverse, run,
}
use core_banking_system.Backend.Book.Steps.{Passed-of_refusal}
use core_banking_system.Backend.Book.Balanced.{Reach}

-- How many transactions carry a key.
abbrev pub uses : String → List Transaction → ℕ
uses k [] = 0
uses k (t ∷ ts) = (if t.idempotency_key =? k then 1 else 0) + uses k ts

uses-append :
    (k : String) (ts : List Transaction) (t : Transaction)
    → uses k (ts ++ (t ∷ [])) ≡ uses k ts + (if t.idempotency_key =? k then 1 else 0)
uses-append k [] t = omega arith
uses-append k (u ∷ ts) t = let i = uses-append k ts t in omega arith

idempotency_key-mark : (id : ℕ) (t : Transaction) → (mark id t).idempotency_key ≡ t.idempotency_key
unfolding mark
idempotency_key-mark id t =
    elim (nat_eq t.id id)
      as (λ b.
        (if b then record t { status = reversed } else t).idempotency_key ≡ t.idempotency_key) [
          | true ↦ refl
          | false ↦ refl
        ]

uses-mark_reversed :
    (k : String) (id : ℕ) (ts : List Transaction) → uses k (mark_reversed id ts) ≡ uses k ts
unfolding mark_reversed
uses-mark_reversed k id [] = refl
uses-mark_reversed k id (t ∷ ts) = rw (idempotency_key-mark id t, uses-mark_reversed k id ts) refl

-- A key that is in the index.
abbrev pub indexed : String → Book → Bool
indexed k b = any (λ p. p.0 =? k) b.idempotency_index

-- A key is carried once if it is in the index, and never otherwise.
abbrev KeysOnce : Book → Type 0
KeysOnce b = (k : String) → truthy k ≡ true → uses k b.transactions ≤ (if indexed k b then 1 else 0)

no_key : (k : String) → truthy k ≡ true → ("" =? k) ≡ false
unfolding truthy
no_key String.[] h = absurd cc
no_key (String.◌∷◌ c s) h = ap is_eq (String.compare.nil-cons c s)

-- One more transaction: with a key that was not there, which is then in the index, or with another.
KeysOnce-post :
    (u i truth : Bool) (n : ℕ)
    → n ≤ (if i then 1 else 0)
    → (u ≡ true → (truth && i ≡ false) × (truth ≡ true))
    → n + (if u then 1 else 0) ≤ (if (if truth then u || i else i) then 1 else 0)
KeysOnce-post true true true n h f = let e = (f refl).0 in absurd cc
KeysOnce-post true true false n h f = let e = (f refl).1 in absurd cc
KeysOnce-post true false true n h f = omega arith
KeysOnce-post true false false n h f = let e = (f refl).1 in absurd cc
KeysOnce-post false true true n h f = omega arith
KeysOnce-post false true false n h f = omega arith
KeysOnce-post false false true n h f = omega arith
KeysOnce-post false false false n h f = omega arith

any_if :
    (truth : Bool) (k key : String) (id : ℕ) (l : List (String × ℕ))
    → any (λ p. p.0 =? k) (if truth then (key, id) ∷ l else l)
      ≡ (if truth then (key =? k) || any (λ p. p.0 =? k) l else any (λ p. p.0 =? k) l)
any_if true k key id l = refl
any_if false k key id l = refl

-- The key of a posting that passes, if it is the key in question, was not there.
unused :
    (key k : String) (b : Book)
    → truthy k ≡ true
    → is_used key b ≡ false
    → (key =? k) ≡ true
    → (truthy key && indexed k b ≡ false) × (truthy key ≡ true)
unfolding is_used
unused key k b h u e =
    let same = (eq_iff key k).0 e in
    (sym (ap (λ x. truthy key && indexed x b) same) ∙ u, ap truthy same ∙ h)

KeysOnce-run : (now : ℕ) (c : Command) (b : Book) → KeysOnce b → KeysOnce (run now c b)
unfolding run create_ledger create_subledger create_account post_transaction reverse_transaction
    append_audit transaction_of reversal_of_transaction
KeysOnce-run now (new_ledger name) b h = h
KeysOnce-run now (new_subledger l name) b h =
    elim (Bool-cases (any (λ x. nat_eq x.0 l) b.ledgers)) [
      | inl e ↦ rw (e, create_subledger) h
      | inr e ↦ rw (e, create_subledger) h
    ]
KeysOnce-run now (new_account s name t) b h =
    elim (Bool-cases (any (λ x. nat_eq x.0 s) b.subledgers)) [
      | inl e ↦ rw (e, create_account) h
      | inr e ↦ rw (e, create_account) h
    ]
KeysOnce-run now (post r) b h = elim (Option-cases (refusal r.idempotency_key r.entries b)) [
  | inl e ↦
      rw (e, post_transaction)
        (λ k t.
          rw
            (
              uses-append k b.transactions (transaction_of now r b.id_counter),
              any_if (truthy r.idempotency_key) k r.idempotency_key _ b.idempotency_index,
            )
            (KeysOnce-post (r.idempotency_key =? k) (indexed k b) (truthy r.idempotency_key)
              (uses k b.transactions) (h k t)
              (unused r.idempotency_key k b t
                (Passed-of_refusal r.idempotency_key r.entries b e).unused)))
  | inr (x, e) ↦ rw (e, post_transaction) h
]
KeysOnce-run now (reverse id description) b h = elim (Option-cases (transaction_with id b)) [
  | inl e ↦ rw (e, reverse_transaction) h
  | inr (t, e) ↦ elim (Bool-cases (is_reversed t.status)) [
    | inl k ↦ rw (e, k, reverse_transaction) h
    | inr k ↦
        rw (e, k, reverse_transaction)
          (λ key used.
            rw
              (
                uses-append key (mark_reversed id b.transactions)
                    (reversal_of_transaction now description t b.id_counter),
                uses-mark_reversed key id b.transactions,
                no_key key used,
              )
              (let i = h key used in omega arith))
  ]
]

KeysOnce-Reach : (b : Book) → Reach b → KeysOnce b
unfolding new_book
KeysOnce-Reach _ Reach.start = λ k h. omega arith
KeysOnce-Reach _ (Reach.step {b} now c r) = KeysOnce-run now c b (KeysOnce-Reach b r)

-- In every book that calls can make, a key that is not empty is carried by one transaction at most, and by
-- none if it is not in the index.
pub uses-Reach :
    (b : Book) (k : String)
    → Reach b
    → truthy k ≡ true
    → uses k b.transactions ≤ (if indexed k b then 1 else 0)
uses-Reach b k r h = KeysOnce-Reach b r k h
