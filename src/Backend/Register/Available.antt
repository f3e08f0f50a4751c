-- ===== src/Backend/Register/Available.antt =====
-- The balances of deposit/register.go over its calls on holds.
use core_banking_system.Prelude.{
  ◌≡◌, refl, ap, sym, ◌∙◌, ℕ, suc, true, false, none, some, arith, Bool-cases, Option-cases, inl,
  inr,
}
use core_banking_system.Backend.Book.{Amount, add, sub, is_negative, is_positive, book_balance}
use core_banking_system.Backend.Register.{
  Account, Hold, Balance, Register, RegisterError, refused, done, account_with, require_active,
  expired, counts, compute_active_holds, balance_of, account_balance, get_balance, append_audit,
}
use core_banking_system.Backend.Register.Methods.{
  HoldRequest, held, hold_refusal, add_hold, create_hold,
}
use core_banking_system.Backend.Register.Entries.{key-find}
use core_banking_system.Backend.Register.Sums.{sum_holds-append}

-- What an answered `GetBalance` and an accepted `CreateHold` went through.
pub record Answered (now id : ℕ) (r : Register) (b : Balance) : Type 0 where
  pub account : Account
  pub book : Amount
  pub found : account_with id r ≡ some account
  pub backed : book_balance r.book account.gl_account ≡ some book
  pub shown : b ≡ balance_of now account r book

pub Answered-get_balance :
    (now id : ℕ) (r s : Register) (b : Balance)
    → get_balance now id r ≡ done b s
    → Answered now id r b
unfolding get_balance account_balance
Answered-get_balance now id r s b h = elim (Option-cases (account_with id r)) [
  | inl k ↦ absurd (let g : refused _ ≡ done b s = rw (k, get_balance) at h in cc)
  | inr (a, k) ↦ elim (Option-cases (book_balance r.book a.gl_account)) [
    | inl z ↦ absurd (let g : refused _ ≡ done b s = rw (k, z, get_balance) at h in cc)
    | inr (x, z) ↦
        let g : done (balance_of now a r x) r ≡ done b s = rw (k, z, get_balance) at h in
        record { account = a; book = x; found = k; backed = z; shown = cc }
  ]
]

pub get_balance-found :
    (now id : ℕ) (r : Register) (a : Account) (x : Amount)
    → account_with id r ≡ some a
    → book_balance r.book a.gl_account ≡ some x
    → get_balance now id r ≡ done (balance_of now a r x) r
unfolding get_balance account_balance
get_balance-found now id r a x h k = rw (h, k, get_balance) refl

record Placed (now : ℕ) (q : HoldRequest) (r s : Register) (h : Hold) (a : Account) : Type 0 where
  passed : hold_refusal now q a r ≡ none
  hold : h ≡ held (suc r.id_counter) now q
  result : s ≡ add_hold now q r

Placed-create_hold :
    (now : ℕ) (q : HoldRequest) (r s : Register) (h : Hold) (a : Account)
    → account_with q.account_id r ≡ some a
    → create_hold now q r ≡ done h s
    → Placed now q r s h a
unfolding create_hold
Placed-create_hold now q r s h a k e = elim (Option-cases (hold_refusal now q a r)) [
  | inl z ↦
      let g : done (held (suc r.id_counter) now q) (add_hold now q r) ≡ done h s =
        rw (k, z, create_hold) at e in
      record { passed = z; hold = cc; result = cc }
  | inr (x, z) ↦ absurd (let g : refused x ≡ done h s = rw (k, z, create_hold) at e in cc)
]

covered-hold_refusal :
    (now : ℕ) (q : HoldRequest) (r : Register) (a : Account) (x : Amount)
    → book_balance r.book a.gl_account ≡ some x
    → hold_refusal now q a r ≡ none
    → is_negative (sub (balance_of now a r x).available q.amount) ≡ false
unfolding hold_refusal account_balance
covered-hold_refusal now q r a x k h = elim (Option-cases (require_active a.status)) [
  | inr (y, e) ↦ absurd (let g : some y ≡ none = rw (e, hold_refusal) at h in cc)
  | inl e ↦ elim (Bool-cases (is_positive q.amount)) [
    | inr p ↦
        absurd
          (let g : some RegisterError.invalid_amount ≡ none = rw (e, p, hold_refusal) at h in cc)
    | inl p ↦ elim (Bool-cases (is_negative (sub (balance_of now a r x).available q.amount))) [
      | inl n ↦ absurd (
          let g : some RegisterError.insufficient_available ≡ none =
            rw (e, p, k, n, hold_refusal) at h in
          cc)
      | inr n ↦ n
    ]
  ]
]

-- A hold that counts, added to the sum and taken off what is available.
less :
    (book total x limit : Amount)
    → add (sub book (add total x)) limit ≡ sub (add (sub book total) limit) x
unfolding add sub
less book total x limit = omega arith

Balance-add_hold :
    (now : ℕ) (q : HoldRequest) (r : Register) (a : Account) (x : Amount)
    → counts now a.id (held (suc r.id_counter) now q) ≡ true
    → let b = balance_of now a r x in
      balance_of now a (add_hold now q r) x
      ≡ record { book = b.book; holds = add b.holds q.amount; available = sub b.available q.amount }
unfolding balance_of compute_active_holds add_hold append_audit
Balance-add_hold now q r a x c =
    let e : compute_active_holds now a.id (add_hold now q r)
        ≡ add (compute_active_holds now a.id r) q.amount =
      sum_holds-append now a.id r.holds (held (suc r.id_counter) now q) 0 c in
    rw (e, less x (compute_active_holds now a.id r) q.amount a.overdraft_limit) refl

counts-held :
    (now id n : ℕ) (q : HoldRequest)
    → expired now (held n now q) ≡ false
    → q.account_id ≡ id
    → counts now id (held n now q) ≡ true
unfolding counts held
counts-held now id n q h e = rw (e, h) (ground arith)

-- An accepted hold that has not expired leaves the book balance as it was, moves its amount from what is
-- available to what is held, as int64, and what is then available is not negative.
pub create_hold-get_balance :
    (now : ℕ) (q : HoldRequest) (r s : Register) (h : Hold) (b : Balance)
    → create_hold now q r ≡ done h s
    → get_balance now q.account_id r ≡ done b r
    → expired now h ≡ false
    → (get_balance now q.account_id s
        ≡ done
            (record {
              book = b.book;
              holds = add b.holds q.amount;
              available = sub b.available q.amount;
            })
            s)
      × (is_negative (sub b.available q.amount) ≡ false)
unfolding held add_hold append_audit balance_of account_with
create_hold-get_balance now q r s h b e g live =
    let w = Answered-get_balance now q.account_id r r b g in
    let p = Placed-create_hold now q r s h w.account w.found e in
    let c =
      counts-held now w.account.id (suc r.id_counter) q (rw p.hold at live)
        (sym (key-find (λ (y : Account). y.id) q.account_id r.accounts w.account w.found)) in
    rw (w.shown, p.result)
      (
        get_balance-found now q.account_id (add_hold now q r) w.account w.book w.found w.backed
            ∙ ap (λ z. done z (add_hold now q r)) (Balance-add_hold now q r w.account w.book c),
        covered-hold_refusal now q r w.account w.book w.backed p.passed,
      )
