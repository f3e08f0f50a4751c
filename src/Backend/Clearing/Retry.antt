-- ===== src/Backend/Clearing/Retry.antt =====
-- What a failed settlement of payment/system.go leaves behind.
use core_banking_system.Prelude.{
  ◌≡◌, refl, ap, sym, ◌∙◌, ℕ, String, true, false, Option, none, some, List, [], ◌∷◌, ◌+s◌, every,
  is_some, find, nat_eq, Option-cases, Bool-cases, inl, inr,
}
use core_banking_system.Backend.Book as Ledger
use core_banking_system.Backend.Book.{Entry, Book, account_of, is_positive}
use core_banking_system.Backend.Book.Methods.{is_used, refusal, post_transaction}
use core_banking_system.Backend.Book.Steps.{Passed-of_refusal}
use core_banking_system.Backend.Book.Funds.{refusal-post_transaction, accounts-post_transaction}
use core_banking_system.Backend.Lifecycle.{may_settle_cycle}
use core_banking_system.Backend.Register.Entries.{key-find}
use core_banking_system.Backend.Register.Changes.{Result-cases}
use core_banking_system.Backend.Clearing.{
  Cycle, Network, Positions, Settlement, Outcome, failed, done, NetworkError, of_book,
  cycle_not_found, cycle_not_closed, nil_pointer, and_then, cycle_with, participant_with,
}
use core_banking_system.Backend.Clearing.Settling.{
  mirror_positions, pay_creditors, settlement_entries, plain_request, settlement_request,
  settle_positions, add_settlement, settle_cycle,
}
use core_banking_system.Backend.Clearing.Positions.{Outcome-cases}
use core_banking_system.Backend.Clearing.Same.{
  settlement_account, Same, network_of, Same-trans, Same-mirror_positions, Same-pay_creditors,
}

-- The entries of a settlement are read off the banks' settlement accounts.
settlement_entries-banks :
    (n m : Network) (ps : Positions)
    → ((id : ℕ)
        → settlement_account (participant_with id m) ≡ settlement_account (participant_with id n))
    → settlement_entries m ps ≡ settlement_entries n ps
unfolding settlement_entries
settlement_entries-banks n m [] h = refl
settlement_entries-banks n m (p ∷ ps) h =
    let i = settlement_entries-banks n m ps h in
    elim (Bool-cases (nat_eq p.1 0)) [
      | inl z ↦ rw (z, settlement_entries) i
      | inr z ↦ elim (Option-cases (participant_with p.0 n)) [
        | inl j ↦ elim (Option-cases (participant_with p.0 m)) [
          | inl k ↦ rw (z, j, k, settlement_entries) refl
          | inr (c, k) ↦
              absurd (let e : some c.settlement_account ≡ none = rw (j, k) at (h p.0) in cc)
        ]
        | inr (b, j) ↦ elim (Option-cases (participant_with p.0 m)) [
          | inl k ↦ absurd (let e : none ≡ some b.settlement_account = rw (j, k) at (h p.0) in cc)
          | inr (c, k) ↦
              let e : some c.settlement_account ≡ some b.settlement_account =
                rw (j, k) at (h p.0) in
              let f : c.settlement_account ≡ b.settlement_account = cc in
              elim (Option-cases (settlement_entries n ps)) [
                | inl r ↦ rw (z, j, k, settlement_entries, i, r) refl
                | inr (es, r) ↦ rw (z, j, k, settlement_entries, i, r, f) refl
              ]
        ]
      ]
    ]

-- A posting that was accepted is refused, with the same key in use and the same accounts, as a duplicate.
refusal-again :
    (key : String) (es : List Entry) (b c : Book)
    → refusal key es b ≡ none
    → c.accounts ≡ b.accounts
    → is_used key c ≡ true
    → refusal key es c ≡ some Ledger.duplicate_idempotency_key
unfolding refusal account_of
refusal-again key [] b c h a u = absurd cc
refusal-again key (e ∷ es) b c h a u =
    let p = Passed-of_refusal key (e ∷ es) b h in
    let known : every (λ (x : Entry). is_some (account_of c x.account_id)) (e ∷ es) ≡ true =
      ap
        (λ (l : List Ledger.Account).
          every (λ (x : Entry). is_some (find (λ y. nat_eq y.id x.account_id) l)) (e ∷ es))
        a
      ∙ p.known in
    rw (p.positive, known, u, refusal) refl

-- Where a failed settlement stands: its posting at the central bank was not made, or was made, and then the
-- cycle, the banks' settlement accounts and the central bank are as after the posting.
data Stands (text : String → ℕ → String) (id : ℕ) (n m : Network) : Type 0 where
  not_posted : m.central_bank ≡ n.central_bank → Stands text id n m
  posted :
      (c : Cycle) (e : Entry) (es : List Entry) (b : Book)
      → cycle_with id n ≡ some c
      → may_settle_cycle c.status ≡ true
      → settlement_entries n c.net_positions ≡ some (e ∷ es)
      → refusal (text "cyc" c.id +s ":settle") (e ∷ es) n.central_bank ≡ none
      → b.accounts ≡ n.central_bank.accounts
      → Same (record n { central_bank = b }) m
      → Stands text id n m

network_of_failed :
    {A : Type 0} (x : Outcome A) (e : NetworkError) (m : Network)
    → x ≡ failed e m
    → network_of x ≡ m
network_of_failed x e m h = ap network_of h

module _ (text : String → ℕ → String) (now : ℕ) where
  -- The steps after the central bank's posting.
  Same-pay :
      (c : Cycle) (tx : Option ℕ) (n m : Network) (e : NetworkError)
      → and_then (pay_creditors text now c.payment_ids n) (λ u k. add_settlement text now c tx k)
        ≡ failed e m
      → Same n m
  unfolding and_then add_settlement
  Same-pay c tx n m e h = elim (Outcome-cases (pay_creditors text now c.payment_ids n)) [
    | inl (x, k, p) ↦
        let same : k ≡ m = (let g : failed x k ≡ failed e m = rw (p, and_then) at h in cc) in
        rw (← same) (rw (ap network_of p) at (Same-pay_creditors text now c.payment_ids n))
    | inr (u, k, p) ↦ absurd (let g : done _ _ ≡ failed e m = rw (p, and_then) at h in cc)
  ]

  Stands-pay :
      (id : ℕ) (c : Cycle) (es : List Entry) (n m : Network) (e : NetworkError)
      → cycle_with id n ≡ some c
      → may_settle_cycle c.status ≡ true
      → settlement_entries n c.net_positions ≡ some es
      → and_then (settle_positions text now c es n) (λ tx k.
        and_then (pay_creditors text now c.payment_ids k) (λ u o. add_settlement text now c tx o))
        ≡ failed e m
      → Stands text id n m
  unfolding and_then settle_positions settlement_request plain_request
  Stands-pay id c [] n m e k s t h = Stands.not_posted (Same-pay c none n m e h).central_bank
  Stands-pay id c (x ∷ es) n m e k s t h =
      let q = settlement_request text c.id (x ∷ es) in
      elim (Result-cases (post_transaction now q n.central_bank)) [
        | inl (y, p) ↦
            let same : n ≡ m =
              (let g : failed (of_book y) n ≡ failed e m = rw (p, settle_positions) at h in cc) in
            Stands.not_posted (ap (λ z. z.central_bank) (sym same))
        | inr (u, b, p) ↦
            let n1 = record n { central_bank = b } in
            let mirror = mirror_positions text now c.id c.net_positions n1 in
            let kept = Same-mirror_positions text now c.id c.net_positions n1 in
            let g : and_then (and_then mirror (λ v o. done (some u.id) o)) (λ tx o.
              and_then (pay_creditors text now c.payment_ids o)
                (λ v w. add_settlement text now c tx w))
                ≡ failed e m =
              rw (p, settle_positions) at h in
            let made : Same n1 m → Stands text id n m =
              Stands.posted c x es b k s t (refusal-post_transaction now q n.central_bank b u p)
                (accounts-post_transaction now q n.central_bank b u p) in
            elim (Outcome-cases mirror) [
              | inl (y, o, z) ↦
                  let same : o ≡ m =
                    (let d : failed y o ≡ failed e m = rw (z, and_then) at g in cc) in
                  made (rw (← same) (rw (ap network_of z) at kept))
              | inr (v, o, z) ↦ made (
                  Same-trans n1 o m (rw (ap network_of z) at kept)
                    (Same-pay c (some u.id) o m e (rw (z, and_then) at g)))
            ]
      ]

  Stands-failed :
      (id : ℕ) (n m : Network) (e x : NetworkError)
      → ◌≡◌ {A = Outcome Settlement} (failed x n) (failed e m)
      → Stands text id n m
  Stands-failed id n m e x g =
      let same : n ≡ m = cc in Stands.not_posted (ap (λ z. z.central_bank) (sym same))

  Stands-settle_cycle :
      (id : ℕ) (n m : Network) (e : NetworkError)
      → settle_cycle text now id n ≡ failed e m
      → Stands text id n m
  unfolding settle_cycle
  Stands-settle_cycle id n m e h =
      let stays = Stands-failed id n m e in
      elim (Option-cases (cycle_with id n)) [
        | inl k ↦ stays cycle_not_found (rw (k, settle_cycle) at h)
        | inr (c, k) ↦ elim (Bool-cases (may_settle_cycle c.status)) [
          | inr s ↦ stays cycle_not_closed (rw (k, s, settle_cycle) at h)
          | inl s ↦ elim (Option-cases (settlement_entries n c.net_positions)) [
            | inl t ↦ stays nil_pointer (rw (k, s, t, settle_cycle) at h)
            | inr (es, t) ↦ Stands-pay id c es n m e k s t (rw (k, s, t, settle_cycle) at h)
          ]
        ]
      ]

failed-settle_positions :
    (text : String → ℕ → String) (now : ℕ) (c : Cycle) (x : Entry) (es : List Entry) (n : Network)
    (e : Ledger.BookError)
    → refusal (text "cyc" c.id +s ":settle") (x ∷ es) n.central_bank ≡ some e
    → settle_positions text now c (x ∷ es) n ≡ failed (of_book e) n
unfolding settle_positions post_transaction settlement_request plain_request
failed-settle_positions text now c x es n e h = rw (h, settle_positions, post_transaction) refl

-- A settlement that fails after its posting at the central bank, so that the key of that posting, which was
-- not in use before, is in use after, is refused as a duplicate when it is tried again, at any time, and
-- changes nothing then.
pub settle_cycle-again :
    (text : String → ℕ → String) (now later id : ℕ) (n m : Network) (e : NetworkError)
    → settle_cycle text now id n ≡ failed e m
    → is_used (text "cyc" id +s ":settle") n.central_bank ≡ false
    → is_used (text "cyc" id +s ":settle") m.central_bank ≡ true
    → settle_cycle text later id m ≡ failed (of_book Ledger.duplicate_idempotency_key) m
unfolding settle_cycle and_then cycle_with participant_with
settle_cycle-again text now later id n m e h fresh used =
    elim (Stands-settle_cycle text now id n m e h) [
      | Stands.not_posted same ↦ absurd (
          let g : is_used (text "cyc" id +s ":settle") n.central_bank ≡ true = rw same at used in
          cc)
      | Stands.posted c x es b k s t p a w ↦
          let key = key-find (λ (y : Cycle). y.id) id n.cycles c k in
          let found : cycle_with id m ≡ some c = rw (w.cycles, cycle_with) k in
          let entries : settlement_entries m c.net_positions ≡ some (x ∷ es) =
            settlement_entries-banks n m c.net_positions w.banks ∙ t in
          let again : refusal (text "cyc" c.id +s ":settle") (x ∷ es) m.central_bank
              ≡ some Ledger.duplicate_idempotency_key =
            refusal-again _ (x ∷ es) n.central_bank m.central_bank p
              (ap (λ (y : Book). y.accounts) w.central_bank ∙ a)
              (ap (λ i. is_used (text "cyc" i +s ":settle") m.central_bank) key ∙ used) in
          rw
            (
              found,
              s,
              entries,
              settle_cycle,
              failed-settle_positions text later c x es m _ again,
              and_then,
            )
            refl
    ]
