-- ===== src/Backend/Clearing/Cycles.antt =====
-- A clearing cycle of payment/system.go, closed and settled.
use core_banking_system.Prelude.{
  ◌≡◌, ap, sym, ◌∙◌, ℕ, ◌+◌, ◌%◌, String, List, [], true, false, if◌then◌else◌, not, some, find,
  every, nat_eq, arith, Option-cases, Bool-cases, inl, inr,
}
use core_banking_system.Backend.Book.{range}
use core_banking_system.Backend.Lifecycle.{may_close_cycle, may_settle_cycle}
use core_banking_system.Backend.Register as Reg
use core_banking_system.Backend.Register.{replace}
use core_banking_system.Backend.Clearing.Same.{network_of}
use core_banking_system.Backend.Register.Entries.{key-find, find-put}
use core_banking_system.Backend.Clearing.{
  Participant, Cycle, Payment, Network, Positions, failed, done, Settlement, cycle_not_found,
  cycle_not_open, cycle_not_closed, nil_pointer, and_then, cycle_with, participant_with,
  payment_with, put_cycle, clear_payments, closed_cycle, close_cycle,
}
use core_banking_system.Backend.Clearing.Settling.{settlement_entries, settle_cycle}
use core_banking_system.Backend.Clearing.Positions.{Outcome-cases, IsAmounts, clear_payments-sum}
use core_banking_system.Backend.Clearing.Banks.{
  suspense_balance, balance_in, position, paid_in, credited, credited-paid,
}
use core_banking_system.Backend.Clearing.Suspense.{suspense-positions}
use core_banking_system.Backend.Clearing.Netting.{debited, Netted-clear_payments}

-- A cycle that is closed, and the network after it.
record Closed (k id : ℕ) (n m : Network) (c : Cycle) : Type 0 where
  found : cycle_with id m ≡ some c
  amounts : IsAmounts c.net_positions
  participants : m.participants ≡ n.participants
  net :
      (position k c.net_positions + debited k c.payment_ids n) % range
      ≡ credited k c.payment_ids n % range
  paid : (j : ℕ) → paid_in k (payment_with j m) ≡ paid_in k (payment_with j n)

cycle_with-put_cycle :
    (id now : ℕ) (ps : Positions) (o : Cycle) (n v m : Network)
    → cycle_with id n ≡ some o
    → v.cycles ≡ n.cycles
    → m.cycles ≡ (put_cycle (closed_cycle now ps o) v).cycles
    → cycle_with id m ≡ some (closed_cycle now ps o)
unfolding cycle_with put_cycle closed_cycle
cycle_with-put_cycle id now ps o n v m h same put =
    let d = closed_cycle now ps o in
    let place = key-find (λ (x : Cycle). x.id) id n.cycles o h in
    let here : find (λ x. nat_eq x.id d.id) n.cycles ≡ some o =
      ap (λ i. find (λ (x : Cycle). nat_eq x.id i) n.cycles) place ∙ h in
    let look = find-put (λ (x : Cycle). x.id) o.id d o n.cycles here in
    let listed : m.cycles ≡ replace (λ (x : Cycle). nat_eq x.id o.id) (λ x. d) n.cycles =
      put ∙ ap (λ l. replace (λ (x : Cycle). nat_eq x.id o.id) (λ x. d) l) same in
    ap (λ l. find (λ (x : Cycle). nat_eq x.id id) l) listed
    ∙ (ap
          (λ i.
            find (λ (x : Cycle). nat_eq x.id i)
              (replace (λ (x : Cycle). nat_eq x.id o.id) (λ x. d) n.cycles))
          (sym place)
        ∙ (look
            ∙ ap (λ b. if b then some d else find (λ x. nat_eq x.id o.id) n.cycles)
                (let r : nat_eq o.id o.id ≡ true = ground arith in r)))

Closed-close_cycle :
    (now k id : ℕ) (n m : Network) (c : Cycle) → close_cycle now id n ≡ done c m → Closed k id n m c
unfolding close_cycle and_then payment_with
Closed-close_cycle now k id n m c h = elim (Option-cases (cycle_with id n)) [
  | inl x ↦ absurd (let g : failed cycle_not_found n ≡ done c m = rw (x, close_cycle) at h in cc)
  | inr (o, x) ↦ elim (Bool-cases (may_close_cycle o.status)) [
    | inr t ↦
        absurd (let g : failed cycle_not_open n ≡ done c m = rw (x, t, close_cycle) at h in cc)
    | inl t ↦ elim (Outcome-cases (clear_payments o.payment_ids [] n)) [
      | inl (e, v, y) ↦
          absurd (let g : failed e v ≡ done c m = rw (x, t, y, close_cycle, and_then) at h in cc)
      | inr (ps, v, y) ↦
          let g = rw (x, t, y, close_cycle, and_then) at h in
          let is : closed_cycle now ps o ≡ c = cc in
          let after = λ (B : Type 0) (f : Network → B). ap (λ x. f (network_of x)) (sym g) in
          let w = Netted-clear_payments k o.payment_ids [] ps n v y in
          let (i, a) = clear_payments-sum o.payment_ids [] ps n v tt y in
          rw (← is) (record {
            found =
                cycle_with-put_cycle id now ps o n v m x w.elsewhere.cycles
                  (after (List Cycle) (λ z. z.cycles));
            amounts = a;
            participants =
                after (List Participant) (λ z. z.participants) ∙ w.elsewhere.participants;
            net = (let j = w.net in omega arith);
            paid = λ j.
                ap (λ l. paid_in k (find (λ (p : Payment). nat_eq p.id j) l))
                  (after (List Payment) (λ z. z.payments))
                ∙ w.paid j;
          })
    ]
  ]
]

-- The balance of a bank's clearing suspense falls, as int64, by the sum of the amounts that the
-- bank's customers pay in a cycle, over the cycle's close and its settlement, whatever the times,
-- where both succeed, the bank's reserve and suspense accounts differ and no deposit account of
-- the bank stands on the suspense account.
pub suspense-settle_cycle :
    (text : String → ℕ → String) (now later k id : ℕ) (bank : Participant) (n m o : Network)
    (c : Cycle) (st : Settlement)
    → nat_eq bank.reserve_account bank.suspense_account ≡ false
    → every
        (λ (x : Reg.Account). not (nat_eq x.gl_account bank.suspense_account))
        bank.deposit.accounts
      ≡ true
    → participant_with k n ≡ some bank
    → close_cycle now id n ≡ done c m
    → settle_cycle text later id m ≡ done st o
    → (suspense_balance k bank.suspense_account o + debited k c.payment_ids n) % range
      ≡ suspense_balance k bank.suspense_account n % range
unfolding settle_cycle participant_with
suspense-settle_cycle text now later k id bank n m o c st apart customers h e g =
    let w = Closed-close_cycle now k id n m c e in
    let there : participant_with k m ≡ some bank =
      ap (λ l. find (λ (x : Participant). nat_eq x.id k) l) w.participants ∙ h in
    let kept : suspense_balance k bank.suspense_account m
        ≡ suspense_balance k bank.suspense_account n =
      ap (λ l. balance_in bank.suspense_account (find (λ (x : Participant). nat_eq x.id k) l))
        w.participants in
    let paid = credited-paid k c.payment_ids n m w.paid in
    elim (Bool-cases (may_settle_cycle c.status)) [
      | inr t ↦
          absurd (
            let f : failed cycle_not_closed m ≡ done st o = rw (w.found, t, settle_cycle) at g in
            cc)
      | inl t ↦ elim (Option-cases (settlement_entries m c.net_positions)) [
        | inl s ↦
            absurd (
              let f : failed nil_pointer m ≡ done st o = rw (w.found, t, s, settle_cycle) at g in
              cc)
        | inr (es, s) ↦
            let i =
              suspense-positions text later k bank apart customers c es m o st there w.amounts s
                (rw (w.found, t, s, settle_cycle) at g) in
            let j = w.net in omega arith
      ]
    ]
