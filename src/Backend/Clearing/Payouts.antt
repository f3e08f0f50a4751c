-- ===== src/Backend/Clearing/Payouts.antt =====
-- The creditor legs of a cycle's payments, of payment/system.go, in the payees' banks.
use mathlib.Core.Bool.{and-eq-true_iff}
use core_banking_system.Prelude.{
  ◌≡◌, refl, ap, sym, ◌∙◌, ℕ, String, Bool, true, false, not, some, List, [], ◌∷◌, find, every,
  nat_eq, arith, Option-cases, Bool-cases, inl, inr,
}
use core_banking_system.Enums.{credit, PaymentStatus}
use core_banking_system.Backend.Book as Ledger
use core_banking_system.Backend.Book.{
  Amount, Book, Entry, range, add, sub, is_positive, compute_book_balance, replay, replay_entry,
  normal_direction, same_direction,
}
use core_banking_system.Backend.Book.Totals.{eq_of_nat_eq}
use core_banking_system.Backend.Register as Reg
use core_banking_system.Backend.Register.{replace, account_with}
use core_banking_system.Backend.Register.Entries.{key-find, find-put}
use core_banking_system.Backend.Clearing.{
  Participant, Payment, Network, failed, done, NetworkError, account_not_in_participant,
  nil_pointer, and_then, payment_with, participant_with, put_payment, transition, may_move,
}
use core_banking_system.Backend.Clearing.Settling.{
  entry_on, post_in_bank, credit_request, pay_creditor, pay_creditors,
}
use core_banking_system.Backend.Clearing.Positions.{Outcome-cases}
use core_banking_system.Backend.Clearing.Banks.{
  Bank, suspense_balance, Posted-post_in_bank, paid_in, credited, Shifted, Own-Bank, Shifted-refl,
  Shifted-trans, credited-paid,
}

module _ (k s r : ℕ) (accounts : List Reg.Account) where
  module _ (text : String → ℕ → String) (now : ℕ) where
    every-find :
        {A : Type 0} (p q : A → Bool) (xs : List A) (a : A)
        → every p xs ≡ true
        → find q xs ≡ some a
        → p a ≡ true
    every-find p q [] a h e = absurd cc
    every-find p q (x ∷ xs) a h e =
        let (first, others) = (and-eq-true_iff (p x) (every p xs)).0 h in
        elim (Bool-cases (q x)) [
          | inl t ↦
              let eq : x ≡ a = (let z : some x ≡ some a = rw t at e in cc) in ap p (sym eq) ∙ first
          | inr t ↦ every-find p q xs a others (rw t at e)
        ]

    -- A payment that is put back with the same creditor and amount pays the same.
    paid_in-put_payment :
        (p q : Payment) (n : Network) (id : ℕ)
        → payment_with q.id n ≡ some p
        → paid_in k (some q) ≡ paid_in k (some p)
        → paid_in k (payment_with id (put_payment q n)) ≡ paid_in k (payment_with id n)
    unfolding payment_with put_payment
    paid_in-put_payment p q n id h e =
        let look = find-put (λ (x : Payment). x.id) id q p n.payments h in
        elim (Bool-cases (nat_eq q.id id)) [
          | inl t ↦
              let here : payment_with id n ≡ some p =
                ap (λ j. payment_with j n) (sym (eq_of_nat_eq q.id id t)) ∙ h in
              ap (paid_in k) (rw t at look) ∙ (e ∙ sym (ap (paid_in k) here))
          | inr t ↦ ap (paid_in k) (rw t at look)
        ]

    -- A change of a payment that leaves its id, creditor and amount.
    Shifted-put_payment :
        (p q : Payment) (n : Network)
        → Bank k s r accounts n
        → payment_with q.id n ≡ some p
        → paid_in k (some q) ≡ paid_in k (some p)
        → Shifted k s r accounts 0 0 n (put_payment q n)
    unfolding put_payment participant_with
    Shifted-put_payment p q n b h e = record {
      stays = record {
        bank = b.bank;
        found = b.found;
        suspense = b.suspense;
        reserve = b.reserve;
        customers = b.customers;
      };
      suspense = refl;
      paid = λ id. paid_in-put_payment p q n id h e;
    }

    Shifted-transition :
        (p : Payment) (to : PaymentStatus) (n m : Network) (u : Unit {0})
        → Bank k s r accounts n
        → payment_with p.id n ≡ some p
        → transition p to n ≡ done u m
        → Shifted k s r accounts 0 0 n m
    unfolding transition
    Shifted-transition p to n m u b h e = elim (Bool-cases (may_move p.status to)) [
      | inl t ↦
          let same : put_payment (record p { status = to }) n ≡ m =
            (let g : done tt (put_payment (record p { status = to }) n) ≡ done u m =
                rw (t, transition) at e in
              cc) in
          rw (← same) (Shifted-put_payment p (record p { status = to }) n b h refl)
      | inr t ↦ absurd (
          let g : failed NetworkError.invalid_state_transition n ≡ done u m =
            rw (t, transition) at e in
          cc)
    ]

    replay-credit_request :
        (p : Payment) (bank : Participant) (gl : ℕ) (y : Amount)
        → bank.suspense_account ≡ s
        → not (nat_eq gl s) ≡ true
        → replay s credit (credit_request text p bank gl).entries y ≡ sub y p.amount
    unfolding credit_request entry_on replay replay_entry same_direction
    replay-credit_request p bank gl y e d =
        let own : nat_eq s s ≡ true = ground arith in
        let other : nat_eq gl s ≡ false = ground arith in rw (e, own, other) refl

    payment_with-put_payment :
        (p q : Payment) (n : Network)
        → payment_with q.id n ≡ some p
        → payment_with q.id (put_payment q n) ≡ some q
    unfolding payment_with put_payment
    payment_with-put_payment p q n h =
        let own : nat_eq q.id q.id ≡ true = ground arith in
        rw own at (find-put (λ (x : Payment). x.id) q.id q p n.payments h)

    -- The creditor leg, in the payee's bank and in the others.
    Shifted-credit :
        (p : Payment) (bank : Participant) (a : Reg.Account) (t : Ledger.Transaction)
        (n o : Network)
        → Bank k s r accounts n
        → every (λ (x : Reg.Account). not (nat_eq x.gl_account s)) accounts ≡ true
        → participant_with p.creditor.participant n ≡ some bank
        → account_with p.creditor.account bank.deposit ≡ some a
        → post_in_bank now bank (credit_request text p bank a.gl_account) n ≡ done t o
        → Shifted k s r accounts 0 (paid_in k (some p)) n o
    unfolding payment_with account_with sub
    Shifted-credit p bank a t n o b d x y e =
        let q = credit_request text p bank a.gl_account in
        let w = Posted-post_in_bank now p.creditor.participant k s r accounts bank q t n o b x e in
        let paid =
          λ (id : ℕ). ap (λ l. paid_in k (find (λ (c : Payment). nat_eq c.id id) l)) w.payments in
        elim (Bool-cases (nat_eq p.creditor.participant k)) [
          | inl i ↦
              let own = Own-Bank k p.creditor.participant s r accounts bank n b x i in
              let gl =
                every-find (λ (z : Reg.Account). not (nat_eq z.gl_account s))
                  (λ z. nat_eq z.id p.creditor.account) bank.deposit.accounts a (rw own.customers d)
                  y in
              let f =
                w.own i
                ∙ replay-credit_request p bank a.gl_account (suspense_balance k s n) own.suspense
                    gl in
              rw i (record { stays = w.stays; suspense = omega arith; paid = paid })
          | inr i ↦
              let f = w.other i in
              rw i (record { stays = w.stays; suspense = omega arith; paid = paid })
        ]

    Shifted-pay_creditor :
        (p : Payment) (n m : Network) (u : Unit {0})
        → Bank k s r accounts n
        → every (λ (x : Reg.Account). not (nat_eq x.gl_account s)) accounts ≡ true
        → payment_with p.id n ≡ some p
        → pay_creditor text now p n ≡ done u m
        → Shifted k s r accounts 0 (paid_in k (some p)) n m
    unfolding pay_creditor and_then payment_with
    Shifted-pay_creditor p n m u b d h e =
        elim (Option-cases (participant_with p.creditor.participant n)) [
          | inl x ↦
              absurd (let g : failed nil_pointer n ≡ done u m = rw (x, pay_creditor) at e in cc)
          | inr (bank, x) ↦ elim (Option-cases (account_with p.creditor.account bank.deposit)) [
            | inl y ↦ absurd (
                let g : failed account_not_in_participant n ≡ done u m =
                  rw (x, y, pay_creditor) at e in
                cc)
            | inr (a, y) ↦
                elim (Outcome-cases
                  (post_in_bank now bank (credit_request text p bank a.gl_account) n)) [
                    | inl (f, o, z) ↦ absurd (
                        let g : failed f o ≡ done u m = rw (x, y, pay_creditor, z, and_then) at e in
                        cc)
                    | inr (t, o, z) ↦
                        let q = record p { creditor_leg_tx = some t.id } in
                        let g : transition q PaymentStatus.settled (put_payment q o) ≡ done u m =
                          rw (x, y, pay_creditor, z, and_then) at e in
                        let c = Shifted-credit p bank a t n o b d x y z in
                        let w =
                          Posted-post_in_bank now p.creditor.participant k s r accounts bank
                            (credit_request text p bank a.gl_account) t n o b x z in
                        let there : payment_with p.id o ≡ some p =
                          ap (λ j. find (λ (y : Payment). nat_eq y.id p.id) j) w.payments ∙ h in
                        let l = Shifted-put_payment p q o c.stays there refl in
                        let v =
                          Shifted-transition q PaymentStatus.settled (put_payment q o) m u l.stays
                            (payment_with-put_payment p q o there) g in
                        let all =
                          Shifted-trans k s r accounts 0 _ 0 0 n o m c
                            (Shifted-trans k s r accounts 0 0 0 0 o (put_payment q o) m l v) in
                        record {
                          stays = all.stays;
                          suspense = (let i = all.suspense in omega arith);
                          paid = all.paid;
                        }
                  ]
          ]
        ]

    key-payment :
        (id : ℕ) (p : Payment) (n : Network)
        → payment_with id n ≡ some p
        → payment_with p.id n ≡ some p
    unfolding payment_with
    key-payment id p n h =
        ap (λ j. payment_with j n) (key-find (λ (x : Payment). x.id) id n.payments p h) ∙ h

    pub Shifted-pay_creditors :
        (ids : List ℕ) (n m : Network) (u : Unit {0})
        → Bank k s r accounts n
        → every (λ (x : Reg.Account). not (nat_eq x.gl_account s)) accounts ≡ true
        → pay_creditors text now ids n ≡ done u m
        → Shifted k s r accounts 0 (credited k ids n) n m
    unfolding pay_creditors and_then
    Shifted-pay_creditors [] n m u b d e =
        let same : n ≡ m = cc in rw (← same) (Shifted-refl k s r accounts n b)
    Shifted-pay_creditors (id ∷ ids) n m u b d e = elim (Option-cases (payment_with id n)) [
      | inl x ↦ absurd (let g : failed nil_pointer n ≡ done u m = rw (x, pay_creditors) at e in cc)
      | inr (p, x) ↦ elim (Outcome-cases (pay_creditor text now p n)) [
        | inl (f, o, z) ↦
            absurd (let g : failed f o ≡ done u m = rw (x, pay_creditors, z, and_then) at e in cc)
        | inr (v, o, z) ↦
            let there : payment_with p.id n ≡ some p = key-payment id p n x in
            let c = Shifted-pay_creditor p n o v b d there z in
            let l =
              Shifted-pay_creditors ids o m u c.stays d (rw (x, pay_creditors, z, and_then) at e) in
            let all = Shifted-trans k s r accounts 0 _ 0 _ n o m c l in
            let same = credited-paid k ids n o c.paid in
            rw x (record {
              stays = all.stays;
              suspense = (let i = all.suspense in omega arith);
              paid = all.paid;
            })
      ]
    ]
