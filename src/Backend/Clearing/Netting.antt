-- ===== src/Backend/Clearing/Netting.antt =====
-- The net positions of payment/system.go, against the payments of the cycle.
use core_banking_system.Prelude.{
  ◌≡◌, refl, ap, sym, ◌∙◌, ℕ, ◌+◌, ◌%◌, Option, some, List, [], ◌∷◌, nat_eq, arith, Option-cases,
  Bool-cases, inl, inr, if◌then◌else◌,
}
use core_banking_system.Enums.{PaymentStatus}
use core_banking_system.Backend.Book.{Amount, range, add, sub}
use core_banking_system.Backend.Book.Totals.{eq_of_nat_eq}
use core_banking_system.Backend.Register.Entries.{key-find, find-put}
use core_banking_system.Backend.Clearing.{
  Payment, Network, NetworkError, Positions, failed, done, nil_pointer, and_then, payment_with,
  put_payment, transition, may_move, adjust, net_of, clear_payments,
}
use core_banking_system.Backend.Clearing.Positions.{Outcome-cases}
use core_banking_system.Backend.Clearing.Banks.{
  credited-paid, position, amount_if, paid_in, credited,
}

-- A payment's part in what a bank's customers pay, and what the payments of a cycle take from them.
abbrev pub owed_in : ℕ → Option Payment → ℕ
owed_in k o = amount_if (λ p. if nat_eq p.debtor.participant k then p.amount else 0) o

abbrev pub debited : ℕ → List ℕ → Network → ℕ
debited k [] n = 0
debited k (id ∷ ids) n = owed_in k (payment_with id n) + debited k ids n

position-adjust-add :
    (k id : ℕ) (x : Amount) (ps : Positions)
    → position k (adjust id (λ y. add y x) ps) % range
      ≡ (position k ps + (if nat_eq id k then x else 0)) % range
unfolding adjust add
position-adjust-add k id x [] = ground arith
position-adjust-add k id x (p ∷ ps) = elim (Bool-cases (nat_eq p.0 id)) [
  | inl e ↦ rw (e, adjust) (let s = eq_of_nat_eq p.0 id e in rw s (ground arith))
  | inr e ↦ rw (e, adjust) (let i = position-adjust-add k id x ps in omega arith)
]

position-adjust-sub :
    (k id : ℕ) (x : Amount) (ps : Positions)
    → (position k (adjust id (λ y. sub y x) ps) + (if nat_eq id k then x else 0)) % range
      ≡ position k ps % range
unfolding adjust sub
position-adjust-sub k id x [] = ground arith
position-adjust-sub k id x (p ∷ ps) = elim (Bool-cases (nat_eq p.0 id)) [
  | inl e ↦ rw (e, adjust) (let s = eq_of_nat_eq p.0 id e in rw s (ground arith))
  | inr e ↦ rw (e, adjust) (let i = position-adjust-sub k id x ps in omega arith)
]

position-net_of :
    (k : ℕ) (p : Payment) (ps : Positions)
    → (position k (net_of p ps) + owed_in k (some p)) % range
      ≡ (position k ps + paid_in k (some p)) % range
unfolding net_of
position-net_of k p ps =
    let less = adjust p.debtor.participant (λ y. sub y p.amount) ps in
    let a = position-adjust-add k p.creditor.participant p.amount less in
    let b = position-adjust-sub k p.debtor.participant p.amount ps in omega arith

-- What does not depend on a payment's status is kept by a transition.
amount_if-transition :
    (f : Payment → ℕ) (p : Payment) (to : PaymentStatus) (n m : Network) (u : Unit {0}) (id : ℕ)
    → ((q : Payment) (s : PaymentStatus) → f (record q { status = s }) ≡ f q)
    → payment_with p.id n ≡ some p
    → transition p to n ≡ done u m
    → amount_if f (payment_with id m) ≡ amount_if f (payment_with id n)
unfolding transition payment_with put_payment
amount_if-transition f p to n m u id k h e = elim (Bool-cases (may_move p.status to)) [
  | inr t ↦ absurd (
      let g : failed NetworkError.invalid_state_transition n ≡ done u m = rw (t, transition) at e in
      cc)
  | inl t ↦
      let q = record p { status = to } in
      let same : put_payment q n ≡ m =
        (let g : done tt (put_payment q n) ≡ done u m = rw (t, transition) at e in cc) in
      let look = find-put (λ (x : Payment). x.id) id q p n.payments h in
      elim (Bool-cases (nat_eq p.id id)) [
        | inl i ↦
            let here : payment_with id n ≡ some p =
              ap (λ j. payment_with j n) (sym (eq_of_nat_eq p.id id i)) ∙ h in
            rw (← same) (ap (amount_if f) (rw i at look) ∙ (k p to ∙ sym (ap (amount_if f) here)))
        | inr i ↦ rw (← same) (ap (amount_if f) (rw i at look))
      ]
]

-- A transition changes the payments only.
pub record Elsewhere (n m : Network) : Type 0 where
  pub participants : m.participants ≡ n.participants
  pub cycles : m.cycles ≡ n.cycles

Elsewhere-transition :
    (p : Payment) (to : PaymentStatus) (n m : Network) (u : Unit {0})
    → transition p to n ≡ done u m
    → Elsewhere n m
unfolding transition put_payment
Elsewhere-transition p to n m u e = elim (Bool-cases (may_move p.status to)) [
  | inr t ↦ absurd (
      let g : failed NetworkError.invalid_state_transition n ≡ done u m = rw (t, transition) at e in
      cc)
  | inl t ↦
      let q = record p { status = to } in
      let same : put_payment q n ≡ m =
        (let g : done tt (put_payment q n) ≡ done u m = rw (t, transition) at e in cc) in
      rw (← same) (record { participants = refl; cycles = refl })
]

-- What the loop of `CloseCycle` does, seen from a bank.
pub record Netted (k : ℕ) (ids : List ℕ) (ps qs : Positions) (n m : Network) : Type 0 where
  pub net : (position k qs + debited k ids n) % range ≡ (position k ps + credited k ids n) % range
  pub paid : (id : ℕ) → paid_in k (payment_with id m) ≡ paid_in k (payment_with id n)
  pub elsewhere : Elsewhere n m

payment_with-id :
    (id : ℕ) (p : Payment) (n : Network) → payment_with id n ≡ some p → payment_with p.id n ≡ some p
unfolding payment_with
payment_with-id id p n h =
    ap (λ j. payment_with j n) (key-find (λ (x : Payment). x.id) id n.payments p h) ∙ h

module _ (k : ℕ) where
  debited-owed :
      (ids : List ℕ) (n m : Network)
      → ((id : ℕ) → owed_in k (payment_with id m) ≡ owed_in k (payment_with id n))
      → debited k ids m ≡ debited k ids n
  debited-owed [] n m h = refl
  debited-owed (id ∷ ids) n m h = let i = debited-owed ids n m h in let j = h id in omega arith

  pub Netted-clear_payments :
      (ids : List ℕ) (ps qs : Positions) (n m : Network)
      → clear_payments ids ps n ≡ done qs m
      → Netted k ids ps qs n m
  unfolding clear_payments and_then
  Netted-clear_payments [] ps qs n m e =
      let q : ps ≡ qs = cc in
      let o : n ≡ m = cc in
      rw (← q, ← o)
        (record {
          net = refl;
          paid = λ id. refl;
          elsewhere = record { participants = refl; cycles = refl };
        })
  Netted-clear_payments (id ∷ ids) ps qs n m e = elim (Option-cases (payment_with id n)) [
    | inl x ↦ absurd (let g : failed nil_pointer n ≡ done qs m = rw (x, clear_payments) at e in cc)
    | inr (p, x) ↦ elim (Outcome-cases (transition p PaymentStatus.cleared n)) [
      | inl (f, o, z) ↦
          absurd (let g : failed f o ≡ done qs m = rw (x, z, clear_payments, and_then) at e in cc)
      | inr (u, o, z) ↦
          let i =
            Netted-clear_payments ids (net_of p ps) qs o m
              (rw (x, z, clear_payments, and_then) at e) in
          let there = payment_with-id id p n x in
          let paid = λ (j : ℕ).
            amount_if-transition (λ q. if nat_eq q.creditor.participant k then q.amount else 0) p
              PaymentStatus.cleared n o u j (λ q s. refl) there z in
          let owed = λ (j : ℕ).
            amount_if-transition (λ q. if nat_eq q.debtor.participant k then q.amount else 0) p
              PaymentStatus.cleared n o u j (λ q s. refl) there z in
          let a = debited-owed ids n o owed in
          let b = credited-paid k ids n o paid in
          let step = position-net_of k p ps in
          let w = Elsewhere-transition p PaymentStatus.cleared n o u z in
          record {
            net = rw x (let j = i.net in omega arith);
            paid = λ j. i.paid j ∙ paid j;
            elsewhere = record {
              participants = i.elsewhere.participants ∙ w.participants;
              cycles = i.elsewhere.cycles ∙ w.cycles;
            };
          }
    ]
  ]
