-- ===== src/Backend/Clearing/Suspense.antt =====
-- The clearing suspense of a bank over a settlement of payment/system.go.
use core_banking_system.Prelude.{
  ◌≡◌, refl, ap, sym, ℕ, ◌+◌, ◌%◌, String, true, false, not, Option, none, some, List, [], ◌∷◌,
  find, every, nat_eq, arith, Option-cases, Bool-cases, inl, inr,
}
use core_banking_system.Backend.Book.{Entry, range}
use core_banking_system.Backend.Book.Methods.{post_transaction}
use core_banking_system.Backend.Register as Reg
use core_banking_system.Backend.Register.{replace, account_with}
use core_banking_system.Backend.Register.Changes.{Result-cases}
use core_banking_system.Backend.Clearing.{
  Participant, Cycle, Network, Positions, Settlement, Outcome, failed, done, of_book, and_then,
  payment_with, participant_with, put_cycle,
}
use core_banking_system.Backend.Clearing.Settling.{
  mirror_positions, pay_creditors, settlement_entries, settle_positions, add_settlement,
  settlement_request,
}
use core_banking_system.Backend.Clearing.Positions.{IsAmounts, Outcome-cases}
use core_banking_system.Backend.Clearing.Same.{network_of}
use core_banking_system.Backend.Clearing.Banks.{
  Bank, balance_in, suspense_balance, position, credited, credited-paid,
}
use core_banking_system.Backend.Clearing.Mirrors.{Shifted-mirror_positions}
use core_banking_system.Backend.Clearing.Payouts.{Shifted-pay_creditors}

-- Where no entry is posted, every position is 0.
position-no_entries :
    (k : ℕ) (n : Network) (ps : Positions) → settlement_entries n ps ≡ some [] → position k ps ≡ 0
unfolding settlement_entries
position-no_entries k n [] h = refl
position-no_entries k n (p ∷ ps) h = elim (Bool-cases (nat_eq p.1 0)) [
  | inl z ↦
      let zero : p.1 ≡ 0 = ground arith in
      let i = position-no_entries k n ps (rw (z, settlement_entries) at h) in ground arith
  | inr z ↦ elim (Option-cases (participant_with p.0 n)) [
    | inl x ↦ absurd (let g : none ≡ some [] = rw (z, x, settlement_entries) at h in cc)
    | inr (b, x) ↦ elim (Option-cases (settlement_entries n ps)) [
      | inl y ↦ absurd (let g : none ≡ some [] = rw (z, x, y, settlement_entries) at h in cc)
      | inr (es, y) ↦
          absurd (let g : some (_ ∷ es) ≡ some [] = rw (z, x, y, settlement_entries) at h in cc)
    ]
  ]
]

module _ (text : String → ℕ → String) (now k : ℕ) (bank : Participant)
    (apart : nat_eq bank.reserve_account bank.suspense_account ≡ false)
    (customers : every
        (λ (x : Reg.Account). not (nat_eq x.gl_account bank.suspense_account))
        bank.deposit.accounts
      ≡ true) where
  abbrev s : ℕ
  s = bank.suspense_account

  bank-found :
      (n : Network)
      → participant_with k n ≡ some bank
      → Bank k s bank.reserve_account bank.deposit.accounts n
  bank-found n h = record {
    bank = bank;
    found = h;
    suspense = refl;
    reserve = refl;
    customers = refl;
  }

  -- The payees' legs and the record of the settlement, after the positions.
  suspense-pay :
      (c : Cycle) (tx : Option ℕ) (n m : Network) (st : Settlement)
      → Bank k s bank.reserve_account bank.deposit.accounts n
      → and_then (pay_creditors text now c.payment_ids n) (λ u o. add_settlement text now c tx o)
        ≡ done st m
      → (suspense_balance k s m + credited k c.payment_ids n) % range
        ≡ suspense_balance k s n % range
  unfolding and_then add_settlement put_cycle participant_with
  suspense-pay c tx n m st b h = elim (Outcome-cases (pay_creditors text now c.payment_ids n)) [
    | inl (e, o, z) ↦ absurd (let g : failed e o ≡ done st m = rw (z, and_then) at h in cc)
    | inr (u, o, z) ↦
        let all =
          Shifted-pay_creditors k s bank.reserve_account bank.deposit.accounts text now
            c.payment_ids n o u b customers z in
        let g : add_settlement text now c tx o ≡ done st m = rw (z, and_then) at h in
        let same : m.participants ≡ o.participants =
          ap (λ (x : Outcome Settlement). (network_of x).participants) (sym g) in
        let kept : suspense_balance k s m ≡ suspense_balance k s o =
          ap (λ l. balance_in s (find (λ (x : Participant). nat_eq x.id k) l)) same in
        let i = all.suspense in omega arith
  ]

  pub suspense-positions :
      (c : Cycle) (es : List Entry) (n m : Network) (st : Settlement)
      → participant_with k n ≡ some bank
      → IsAmounts c.net_positions
      → settlement_entries n c.net_positions ≡ some es
      → and_then (settle_positions text now c es n) (λ tx o.
        and_then (pay_creditors text now c.payment_ids o) (λ u w. add_settlement text now c tx w))
        ≡ done st m
      → (suspense_balance k s m + credited k c.payment_ids n) % range
        ≡ (suspense_balance k s n + position k c.net_positions) % range
  unfolding and_then settle_positions participant_with payment_with
  suspense-positions c [] n m st h a e g =
      let i = suspense-pay c none n m st (bank-found n h) g in
      let z = position-no_entries k n c.net_positions e in omega arith
  suspense-positions c (x ∷ es) n m st h a e g =
      let q = settlement_request text c.id (x ∷ es) in
      elim (Result-cases (post_transaction now q n.central_bank)) [
        | inl (y, p) ↦
            absurd (let f : failed (of_book y) n ≡ done st m = rw (p, settle_positions) at g in cc)
        | inr (t, b, p) ↦
            let n1 = record n { central_bank = b } in
            let f : and_then
                  (and_then (mirror_positions text now c.id c.net_positions n1)
                    (λ v o. done (some t.id) o))
                  (λ tx o.
                    and_then (pay_creditors text now c.payment_ids o)
                      (λ v w. add_settlement text now c tx w))
                ≡ done st m =
              rw (p, settle_positions) at g in
            elim (Outcome-cases (mirror_positions text now c.id c.net_positions n1)) [
              | inl (y, o, z) ↦
                  absurd (let w : failed y o ≡ done st m = rw (z, and_then) at f in cc)
              | inr (v, o, z) ↦
                  let w =
                    Shifted-mirror_positions k s bank.reserve_account bank.deposit.accounts apart
                      text now c.id c.net_positions n1 o v (bank-found n1 h) a z in
                  let i = suspense-pay c (some t.id) o m st w.stays (rw (z, and_then) at f) in
                  let same = credited-paid k c.payment_ids n o w.paid in
                  let j = w.suspense in omega arith
            ]
      ]
