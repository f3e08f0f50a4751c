-- ===== src/Backend/Register/Captured.antt =====
-- The balances of deposit/register.go over the capture of a hold.
use core_banking_system.Prelude.{
  ◌≡◌, refl, ap, sym, ◌∙◌, ℕ, String, true, false, some, nat_eq, arith, Bool-cases, inl, inr,
}
use core_banking_system.Enums.{AccountType, HoldStatus, credit}
use core_banking_system.Backend.Book as Ledger
use core_banking_system.Backend.Book.{
  Amount, Book, add, sub, account_of, book_balance, compute_book_balance, replay, replay_entry,
  replay_all, normal_direction, same_direction,
}
use core_banking_system.Backend.Book.Methods.{post_transaction}
use core_banking_system.Backend.Book.Funds.{
  accounts-post_transaction, compute_book_balance-post_transaction,
}
use core_banking_system.Backend.Register.{
  Account, Hold, Balance, Register, RegisterError, EventType, refused, done, of_book, account_with,
  hold_with, is_active, expired, counts, compute_active_holds, balance_of, get_balance,
  append_audit,
}
use core_banking_system.Backend.Register.Methods.{
  capture_request, captured_amount, capture_hold, end_hold,
}
use core_banking_system.Backend.Register.Entries.{key-find}
use core_banking_system.Backend.Register.Changes.{Result-cases}
use core_banking_system.Backend.Register.Sums.{sum_holds-ended}
use core_banking_system.Backend.Register.Available.{Answered-get_balance, get_balance-found}

-- The two entries of a capture, on the liability account that is debited.
replay-capture_request :
    (gl counterparty : ℕ) (x y : Amount) (d : String)
    → nat_eq counterparty gl ≡ false
    → replay gl credit (capture_request gl counterparty x d).entries y ≡ sub y x
unfolding replay replay_entry capture_request same_direction
replay-capture_request gl counterparty x y d h =
    let k : nat_eq gl gl ≡ true = ground arith in rw (h, k) refl

book_balance-capture :
    (now gl counterparty : ℕ) (x y : Amount) (d : String) (b c : Book) (t : Ledger.Transaction)
    (g : Ledger.Account)
    → post_transaction now (capture_request gl counterparty x d) b ≡ Ledger.ok t c
    → account_of b gl ≡ some g
    → g.account_type ≡ AccountType.liability
    → nat_eq counterparty gl ≡ false
    → book_balance b gl ≡ some y
    → book_balance c gl ≡ some (sub y x)
unfolding book_balance normal_direction account_of capture_request
book_balance-capture now gl counterparty x y d b c t g h f l n k =
    let q = capture_request gl counterparty x d in
    let found : account_of c gl ≡ some g =
      rw (accounts-post_transaction now q b c t h, account_of) f in
    let y_eq : compute_book_balance b gl AccountType.liability ≡ y =
      (let e : some (compute_book_balance b gl AccountType.liability) ≡ some y =
          rw (f, book_balance, l) at k in
        cc) in
    rw
      (
        found,
        book_balance,
        l,
        compute_book_balance-post_transaction now gl AccountType.liability q b c t h,
        replay-capture_request gl counterparty x (compute_book_balance b gl AccountType.liability) d
            n,
        y_eq,
      )
      refl

-- What a done `CaptureHold` went through.
record Took (now id counterparty : ℕ) (y : Amount) (d : String) (r s : Register) (h : Hold)
    (a : Account) (t : Ledger.Transaction) : Type 0 where
  active : is_active h.status ≡ true
  book : Book
  accepted :
      post_transaction now
        (capture_request a.gl_account counterparty (captured_amount y h) d)
        r.book
      ≡ Ledger.ok t book
  result :
      s ≡ end_hold now HoldStatus.captured EventType.hold_captured id (record r { book = book })

Took-capture_hold :
    (now id counterparty : ℕ) (y : Amount) (d : String) (r s : Register) (h : Hold) (a : Account)
    (t : Ledger.Transaction)
    → hold_with id r ≡ some h
    → account_with h.account_id r ≡ some a
    → capture_hold now id counterparty y d r ≡ done t s
    → Took now id counterparty y d r s h a t
unfolding capture_hold hold_with
Took-capture_hold now id counterparty y d r s h a t k j e = elim (Bool-cases (is_active h.status)) [
  | inr u ↦ absurd (
      let g : refused RegisterError.hold_not_active ≡ done t s = rw (k, u, capture_hold) at e in cc)
  | inl u ↦
      elim (Result-cases (
        post_transaction now (capture_request a.gl_account counterparty (captured_amount y h) d)
          r.book)) [
            | inl (x, p) ↦
                absurd (
                  let g : refused (of_book x) ≡ done t s = rw (k, u, j, p, capture_hold) at e in cc)
            | inr (v, b, p) ↦
                let g : done v (
                      end_hold now HoldStatus.captured EventType.hold_captured id
                        (record r { book = b }))
                    ≡ done t s =
                  rw (k, u, j, p, capture_hold) at e in
                let same : v ≡ t = cc in
                record {
                  active = u;
                  book = b;
                  accepted = p ∙ ap (λ z. Ledger.ok z b) same;
                  result = cc;
                }
          ]
]

compute_active_holds-end :
    (now id account : ℕ) (r : Register) (b : Book) (h : Hold)
    → hold_with id r ≡ some h
    → counts now account h ≡ true
    → compute_active_holds now account
        (end_hold now HoldStatus.captured EventType.hold_captured id (record r { book = b }))
      ≡ sub (compute_active_holds now account r) h.amount
unfolding compute_active_holds end_hold append_audit hold_with
compute_active_holds-end now id account r b h k c =
    sum_holds-ended now account id HoldStatus.captured r.holds h refl k c

counts_of :
    (now id : ℕ) (h : Hold)
    → is_active h.status ≡ true
    → expired now h ≡ false
    → h.account_id ≡ id
    → counts now id h ≡ true
unfolding counts
counts_of now id h a e k = rw (e, a, k) (ground arith)

-- The balance less what was captured, with the hold given back.
rest :
    (book total x y limit : Amount)
    → add (sub (sub book y) (sub total x)) limit ≡ add (sub (add (sub book total) limit) y) x
unfolding add sub
rest book total x y limit = omega arith

-- A done capture of a hold that has not expired, of an account that a liability account of the ledger backs,
-- against another account: the book balance falls by what is captured, the hold is taken off what is held,
-- and what is available falls by what is captured and rises by the hold, as int64.
pub capture_hold-get_balance :
    (now id counterparty : ℕ) (y : Amount) (d : String) (r s : Register) (h : Hold) (a : Account)
    (g : Ledger.Account) (t : Ledger.Transaction) (b : Balance)
    → hold_with id r ≡ some h
    → account_with h.account_id r ≡ some a
    → account_of r.book a.gl_account ≡ some g
    → g.account_type ≡ AccountType.liability
    → nat_eq counterparty a.gl_account ≡ false
    → expired now h ≡ false
    → get_balance now h.account_id r ≡ done b r
    → capture_hold now id counterparty y d r ≡ done t s
    → get_balance now h.account_id s
      ≡ done
          (record {
            book = sub b.book (captured_amount y h);
            holds = sub b.holds h.amount;
            available = add (sub b.available (captured_amount y h)) h.amount;
          })
          s
unfolding balance_of end_hold append_audit account_with
capture_hold-get_balance now id counterparty y d r s h a g t b k j f l n live q e =
    let w = Answered-get_balance now h.account_id r r b q in
    let u = Took-capture_hold now id counterparty y d r s h a t k j e in
    let same : w.account ≡ a = (let z : some w.account ≡ some a = sym w.found ∙ j in cc) in
    let backed : book_balance r.book a.gl_account ≡ some w.book =
      ap (λ z. book_balance r.book z.gl_account) (sym same) ∙ w.backed in
    let x = captured_amount y h in
    let c =
      counts_of now a.id h u.active live
        (sym (key-find (λ (z : Account). z.id) h.account_id r.accounts a j)) in
    let after =
      book_balance-capture now a.gl_account counterparty x w.book d r.book u.book t g u.accepted f l
        n backed in
    let s' =
      end_hold now HoldStatus.captured EventType.hold_captured id (record r { book = u.book }) in
    let total = compute_active_holds now a.id r in
    rw (w.shown, same, u.result)
      (get_balance-found now h.account_id s' a (sub w.book x) j after
        ∙ rw
            (
              compute_active_holds-end now id a.id r u.book h k c,
              rest w.book total h.amount x a.overdraft_limit,
            )
            refl)
