-- ===== src/Backend/Clearing/Positions.antt =====
-- The net positions of payment/system.go, and the central bank's posting that settles them.
use core_banking_system.Prelude.{
  ◌≡◌, refl, ap, ◌∙◌, ℕ, ◌+◌, ◌%◌, ◌<◌, true, none, some, List, [], ◌∷◌, nat_eq, arith,
  Option-cases, Bool-cases, inl, inr, ◌⊎◌,
}
use core_banking_system.Enums.{PaymentStatus, debit, credit}
use core_banking_system.Backend.Book.{Amount, Entry, range, add, sub, is_positive, is_balanced}
use core_banking_system.Backend.Lifecycle.{may_close_cycle}
use core_banking_system.Backend.Clearing.{
  Payment, Cycle, Network, Positions, Outcome, failed, done, NetworkError, cycle_not_found,
  cycle_not_open, nil_pointer, and_then, cycle_with, payment_with, participant_with, transition,
  adjust, net_of, clear_payments, close_cycle, closed_cycle,
}
use core_banking_system.Backend.Clearing.Settling.{settlement_entries, entry_on}

-- The positions' exact sum.
abbrev pub sum : Positions → ℕ
sum [] = 0
sum (p ∷ ps) = p.1 + sum ps

abbrev pub IsAmounts : Positions → Type 0
IsAmounts [] = Unit
IsAmounts (p ∷ ps) = (p.1 < range) × IsAmounts ps

sum-adjust-add :
    (id : ℕ) (x : Amount) (ps : Positions)
    → sum (adjust id (λ y. add y x) ps) % range ≡ (sum ps + x) % range
unfolding adjust add
sum-adjust-add id x [] = omega arith
sum-adjust-add id x (p ∷ ps) = elim (Bool-cases (nat_eq p.0 id)) [
  | inl e ↦ rw (e, adjust) (omega arith)
  | inr e ↦ rw (e, adjust) (let i = sum-adjust-add id x ps in omega arith)
]

sum-adjust-sub :
    (id : ℕ) (x : Amount) (ps : Positions)
    → (sum (adjust id (λ y. sub y x) ps) + x) % range ≡ sum ps % range
unfolding adjust sub
sum-adjust-sub id x [] = omega arith
sum-adjust-sub id x (p ∷ ps) = elim (Bool-cases (nat_eq p.0 id)) [
  | inl e ↦ rw (e, adjust) (omega arith)
  | inr e ↦ rw (e, adjust) (let i = sum-adjust-sub id x ps in omega arith)
]

sum-net_of : (p : Payment) (ps : Positions) → sum (net_of p ps) % range ≡ sum ps % range
unfolding net_of
sum-net_of p ps =
    let less = adjust p.debtor.participant (λ y. sub y p.amount) ps in
    let a = sum-adjust-add p.creditor.participant p.amount less in
    let b = sum-adjust-sub p.debtor.participant p.amount ps in omega arith

-- The positions of the loop are amounts.
IsAmounts-adjust :
    (id : ℕ) (f : Amount → Amount) (ps : Positions)
    → ((y : Amount) → f y < range)
    → IsAmounts ps
    → IsAmounts (adjust id f ps)
unfolding adjust
IsAmounts-adjust id f [] k h = (k 0, tt)
IsAmounts-adjust id f (p ∷ ps) k (q, h) = elim (Bool-cases (nat_eq p.0 id)) [
  | inl e ↦ rw (e, adjust) (k p.1, h)
  | inr e ↦ rw (e, adjust) (q, IsAmounts-adjust id f ps k h)
]

pub IsAmounts-net_of : (p : Payment) (ps : Positions) → IsAmounts ps → IsAmounts (net_of p ps)
unfolding net_of add sub
IsAmounts-net_of p ps h =
    IsAmounts-adjust p.creditor.participant (λ y. add y p.amount) _ (λ y. omega arith)
      (IsAmounts-adjust p.debtor.participant (λ y. sub y p.amount) ps (λ y. omega arith) h)

pub Outcome-cases :
    {A : Type 0} (x : Outcome A)
    → ((e : NetworkError) × (n : Network) × (x ≡ failed e n))
      ⊎ ((a : A) × (n : Network) × (x ≡ done a n))
Outcome-cases (failed e n) = inl (e, n, refl)
Outcome-cases (done a n) = inr (a, n, refl)

-- The positions of the loop's end: amounts whose sum is the one of its start.
pub clear_payments-sum :
    (ids : List ℕ) (ps qs : Positions) (n m : Network)
    → IsAmounts ps
    → clear_payments ids ps n ≡ done qs m
    → (sum qs % range ≡ sum ps % range) × IsAmounts qs
unfolding clear_payments and_then
clear_payments-sum [] ps qs n m a h = let e : ps ≡ qs = cc in rw (← e) (refl, a)
clear_payments-sum (id ∷ ids) ps qs n m a h = elim (Option-cases (payment_with id n)) [
  | inl k ↦ absurd (let g : failed nil_pointer n ≡ done qs m = rw (k, clear_payments) at h in cc)
  | inr (p, k) ↦ elim (Outcome-cases (transition p PaymentStatus.cleared n)) [
    | inl (e, o, t) ↦
        absurd (let g : failed e o ≡ done qs m = rw (k, t, clear_payments, and_then) at h in cc)
    | inr (u, o, t) ↦
        let g : clear_payments ids (net_of p ps) o ≡ done qs m =
          rw (k, t, clear_payments, and_then) at h in
        let (i, j) = clear_payments-sum ids (net_of p ps) qs o m (IsAmounts-net_of p ps a) g in
        (i ∙ sum-net_of p ps, j)
  ]
]

is_balanced-equal :
    (d c : Amount) → d < range → c < range → c % range ≡ d % range → is_balanced [] d c ≡ true
unfolding is_balanced
is_balanced-equal d c h k e = ground arith

is_balanced-settlement_entries :
    (n : Network) (ps : Positions) (es : List Entry) (d c : Amount)
    → IsAmounts ps
    → d < range
    → c < range
    → (c + sum ps) % range ≡ d % range
    → settlement_entries n ps ≡ some es
    → is_balanced es d c ≡ true
unfolding settlement_entries entry_on is_balanced add sub
is_balanced-settlement_entries n [] es d c a low high s h =
    let e : [] ≡ es = cc in rw (← e) (is_balanced-equal d c low high (omega arith))
is_balanced-settlement_entries n (p ∷ ps) es d c (q, a) low high s h =
    elim (Bool-cases (nat_eq p.1 0)) [
      | inl z ↦
          let zero : p.1 ≡ 0 = ground arith in
          is_balanced-settlement_entries n ps es d c a low high (omega arith)
            (rw (z, settlement_entries) at h)
      | inr z ↦ elim (Option-cases (participant_with p.0 n)) [
        | inl k ↦ absurd (let g : none ≡ some es = rw (z, k, settlement_entries) at h in cc)
        | inr (bank, k) ↦ elim (Option-cases (settlement_entries n ps)) [
          | inl r ↦ absurd (let g : none ≡ some es = rw (z, k, r, settlement_entries) at h in cc)
          | inr (rest, r) ↦ elim (Bool-cases (is_positive p.1)) [
            | inl t ↦
                let g : some (entry_on bank.settlement_account p.1 credit ∷ rest) ≡ some es =
                  rw (z, k, r, t, settlement_entries) at h in
                let e : entry_on bank.settlement_account p.1 credit ∷ rest ≡ es = cc in
                rw (← e) (
                  is_balanced-settlement_entries n ps rest d (add c p.1) a low (omega arith)
                    (omega arith) r)
            | inr t ↦
                let g : some (entry_on bank.settlement_account (sub 0 p.1) debit ∷ rest) ≡ some es =
                  rw (z, k, r, t, settlement_entries) at h in
                let e : entry_on bank.settlement_account (sub 0 p.1) debit ∷ rest ≡ es = cc in
                rw (← e) (
                  is_balanced-settlement_entries n ps rest (add d (sub 0 p.1)) c a (omega arith)
                    high (omega arith) r)
          ]
        ]
      ]
    ]

-- The positions of a cycle that is closed sum to zero as int64, and the entries that settle them at the
-- central bank, in whatever state the network then is, pass the ledger's balance check.
pub is_balanced-close_cycle :
    (now id : ℕ) (n m k : Network) (c : Cycle) (es : List Entry)
    → close_cycle now id n ≡ done c m
    → settlement_entries k c.net_positions ≡ some es
    → (sum c.net_positions % range ≡ 0) × (is_balanced es 0 0 ≡ true)
unfolding close_cycle and_then closed_cycle
is_balanced-close_cycle now id n m k c es h s = elim (Option-cases (cycle_with id n)) [
  | inl x ↦ absurd (let g : failed cycle_not_found n ≡ done c m = rw (x, close_cycle) at h in cc)
  | inr (o, x) ↦ elim (Bool-cases (may_close_cycle o.status)) [
    | inr t ↦
        absurd (let g : failed cycle_not_open n ≡ done c m = rw (x, t, close_cycle) at h in cc)
    | inl t ↦ elim (Outcome-cases (clear_payments o.payment_ids [] n)) [
      | inl (e, v, y) ↦
          absurd (let g : failed e v ≡ done c m = rw (x, t, y, close_cycle, and_then) at h in cc)
      | inr (ps, v, y) ↦
          let g : done (closed_cycle now ps o) _ ≡ done c m =
            rw (x, t, y, close_cycle, and_then) at h in
          let d : closed_cycle now ps o ≡ c = cc in
          let net : ps ≡ c.net_positions = ap (λ z. z.net_positions) d in
          let (i, a) = clear_payments-sum o.payment_ids [] ps n v tt y in
          (
            rw (← net) (i ∙ refl),
            is_balanced-settlement_entries k ps es 0 0 a (omega arith) (omega arith) (omega arith)
                (rw (← net) at s),
          )
    ]
  ]
]
