-- ===== src/Backend/Clearing/Same.antt =====
-- What the steps of a settlement of payment/system.go leave alone behind the central bank's posting.
use core_banking_system.Prelude.{
  ◌≡◌, refl, ap, sym, ◌∙◌, ℕ, String, true, false, Option, none, some, List, [], ◌∷◌, find, nat_eq,
  arith, Option-cases, Bool-cases, inl, inr,
}
use core_banking_system.Enums.{PaymentStatus}
use core_banking_system.Backend.Book.Methods.{PostRequest, post_transaction}
use core_banking_system.Backend.Register.{replace, account_with}
use core_banking_system.Backend.Register.Entries.{key-find}
use core_banking_system.Backend.Register.Changes.{Result-cases}
use core_banking_system.Backend.Clearing.{
  Participant, Payment, Network, Positions, Outcome, failed, done, and_then, payment_with,
  participant_with, put_participant, put_payment, transition, may_move,
}
use core_banking_system.Backend.Clearing.Settling.{
  post_in_bank, mirror_positions, mirror_request, credit_request, pay_creditor, pay_creditors,
}

abbrev pub settlement_account : Option Participant → Option ℕ
settlement_account none = none
settlement_account (some p) = some p.settlement_account

-- What the steps behind the central bank's posting do not change.
pub record Same (n m : Network) : Type 0 where
  pub cycles : m.cycles ≡ n.cycles
  pub central_bank : m.central_bank ≡ n.central_bank
  pub banks :
      (id : ℕ)
      → settlement_account (participant_with id m) ≡ settlement_account (participant_with id n)

abbrev pub network_of : {A : Type 0} → Outcome A → Network
network_of (failed e n) = n
network_of (done a n) = n

pub Same-refl : (n : Network) → Same n n
Same-refl n = record { cycles = refl; central_bank = refl; banks = λ id. refl }

pub Same-trans : (n m k : Network) → Same n m → Same m k → Same n k
Same-trans n m k a b = record {
  cycles = b.cycles ∙ a.cycles;
  central_bank = b.central_bank ∙ a.central_bank;
  banks = λ id. b.banks id ∙ a.banks id;
}

pub Same-and_then :
    {A B : Type 0} (n : Network) (x : Outcome A) (f : A → Network → Outcome B)
    → Same n (network_of x)
    → ((a : A) (m : Network) → Same m (network_of (f a m)))
    → Same n (network_of (and_then x f))
unfolding and_then
Same-and_then n (failed e m) f h k = h
Same-and_then n (done a m) f h k = Same-trans n m (network_of (f a m)) h (k a m)

-- A bank that is put back under its id with the same settlement account.
settlement_account-replace :
    (id : ℕ) (c : Participant) (xs : List Participant)
    → settlement_account (find (λ x. nat_eq x.id c.id) xs) ≡ some c.settlement_account
    → settlement_account (find (λ x. nat_eq x.id id) (replace (λ x. nat_eq x.id c.id) (λ x. c) xs))
      ≡ settlement_account (find (λ x. nat_eq x.id id) xs)
unfolding replace
settlement_account-replace id c [] h = refl
settlement_account-replace id c (x ∷ xs) h = elim (Bool-cases (nat_eq x.id c.id)) [
  | inl e ↦ elim (Bool-cases (nat_eq x.id id)) [
    | inl f ↦ let k : nat_eq c.id id ≡ true = ground arith in rw (e, k, f) (sym (rw e at h))
    | inr f ↦ let k : nat_eq c.id id ≡ false = ground arith in rw (e, k, f) refl
  ]
  | inr e ↦ elim (Bool-cases (nat_eq x.id id)) [
    | inl f ↦ rw (e, f) refl
    | inr f ↦ rw (e, f) (settlement_account-replace id c xs (rw e at h))
  ]
]

pub Same-post_in_bank :
    (now id : ℕ) (bank : Participant) (q : PostRequest) (n : Network)
    → participant_with id n ≡ some bank
    → Same n (network_of (post_in_bank now bank q n))
unfolding post_in_bank put_participant participant_with
Same-post_in_bank now id bank q n h =
    elim (Result-cases (post_transaction now q bank.deposit.book)) [
      | inl (e, k) ↦ rw (k, post_in_bank) (Same-refl n)
      | inr (t, b, k) ↦
          let same = key-find (λ (x : Participant). x.id) id n.participants bank h in
          let found : participant_with bank.id n ≡ some bank =
            ap (λ i. participant_with i n) same ∙ h in
          rw (k, post_in_bank)
            (record {
              cycles = refl;
              central_bank = refl;
              banks = λ i.
                  settlement_account-replace i
                    (record bank { deposit = record bank.deposit { book = b } }) n.participants
                    (ap settlement_account found);
            })
    ]

pub Same-transition :
    (p : Payment) (to : PaymentStatus) (n : Network) → Same n (network_of (transition p to n))
unfolding transition put_payment participant_with
Same-transition p to n = elim (Bool-cases (may_move p.status to)) [
  | inl e ↦ rw (e, transition) (record { cycles = refl; central_bank = refl; banks = λ i. refl })
  | inr e ↦ rw (e, transition) (Same-refl n)
]

module _ (text : String → ℕ → String) where
  pub Same-mirror_positions :
      (now cycle : ℕ) (ps : Positions) (n : Network)
      → Same n (network_of (mirror_positions text now cycle ps n))
  unfolding mirror_positions
  Same-mirror_positions now cycle [] n = Same-refl n
  Same-mirror_positions now cycle (p ∷ ps) n = elim (Bool-cases (nat_eq p.1 0)) [
    | inl z ↦ rw (z, mirror_positions) (Same-mirror_positions now cycle ps n)
    | inr z ↦ elim (Option-cases (participant_with p.0 n)) [
      | inl k ↦ rw (z, k, mirror_positions) (Same-refl n)
      | inr (bank, k) ↦
          rw (z, k, mirror_positions)
            (Same-and_then n (post_in_bank now bank (mirror_request text cycle p.0 bank p.1) n)
              (λ t m. mirror_positions text now cycle ps m)
              (Same-post_in_bank now p.0 bank (mirror_request text cycle p.0 bank p.1) n k)
              (λ t m. Same-mirror_positions now cycle ps m))
    ]
  ]

  Same-pay_creditor :
      (now : ℕ) (p : Payment) (n : Network) → Same n (network_of (pay_creditor text now p n))
  unfolding pay_creditor put_payment participant_with
  Same-pay_creditor now p n = elim (Option-cases (participant_with p.creditor.participant n)) [
    | inl k ↦ rw (k, pay_creditor) (Same-refl n)
    | inr (bank, k) ↦ elim (Option-cases (account_with p.creditor.account bank.deposit)) [
      | inl j ↦ rw (k, j, pay_creditor) (Same-refl n)
      | inr (a, j) ↦
          rw (k, j, pay_creditor)
            (Same-and_then n (post_in_bank now bank (credit_request text p bank a.gl_account) n)
              (λ t m.
                let q = record p { creditor_leg_tx = some t.id } in
                transition q PaymentStatus.settled (put_payment q m))
              (Same-post_in_bank now p.creditor.participant bank
                (credit_request text p bank a.gl_account) n k)
              (λ t m.
                let q = record p { creditor_leg_tx = some t.id } in
                Same-trans m (put_payment q m) _
                  (record { cycles = refl; central_bank = refl; banks = λ i. refl })
                  (Same-transition q PaymentStatus.settled (put_payment q m))))
    ]
  ]

  pub Same-pay_creditors :
      (now : ℕ) (ids : List ℕ) (n : Network) → Same n (network_of (pay_creditors text now ids n))
  unfolding pay_creditors
  Same-pay_creditors now [] n = Same-refl n
  Same-pay_creditors now (id ∷ ids) n = elim (Option-cases (payment_with id n)) [
    | inl k ↦ rw (k, pay_creditors) (Same-refl n)
    | inr (p, k) ↦
        rw (k, pay_creditors)
          (Same-and_then n (pay_creditor text now p n) (λ u m. pay_creditors text now ids m)
            (Same-pay_creditor now p n) (λ u m. Same-pay_creditors now ids m))
  ]
