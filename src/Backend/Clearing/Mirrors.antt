-- ===== src/Backend/Clearing/Mirrors.antt =====
-- The mirror of a net position in the bank's own ledger, of payment/system.go.
use core_banking_system.Prelude.{
  ◌≡◌, ap, ◌∙◌, ℕ, ◌+◌, ◌%◌, ◌<◌, String, true, false, some, List, [], ◌∷◌, find, nat_eq, arith,
  Option-cases, Bool-cases, inl, inr, if◌then◌else◌,
}
use core_banking_system.Enums.{credit}
use core_banking_system.Backend.Book as Ledger
use core_banking_system.Backend.Book.{
  Amount, Book, Entry, range, add, sub, is_positive, compute_book_balance, replay, replay_entry,
  normal_direction, same_direction,
}
use core_banking_system.Backend.Register as Reg
use core_banking_system.Backend.Register.{replace, account_with}
use core_banking_system.Backend.Clearing.{
  Participant, Payment, Network, Positions, failed, done, nil_pointer, and_then, payment_with,
  participant_with,
}
use core_banking_system.Backend.Clearing.Settling.{
  entry_on, post_in_bank, mirror_entries, mirror_request, mirror_positions, plain_request,
}
use core_banking_system.Backend.Clearing.Positions.{IsAmounts, Outcome-cases}
use core_banking_system.Backend.Clearing.Banks.{
  Bank, suspense_balance, Posted-post_in_bank, position, paid_in, Shifted, Own-Bank, Shifted-refl,
  Shifted-trans,
}

replay-mirror_entries :
    (s r : ℕ) (bank : Participant) (x y : Amount)
    → bank.suspense_account ≡ s
    → bank.reserve_account ≡ r
    → nat_eq r s ≡ false
    → nat_eq x 0 ≡ false
    → x < range
    → replay s credit (mirror_entries bank x) y ≡ (y + x) % range
unfolding mirror_entries entry_on replay replay_entry same_direction add sub
replay-mirror_entries s r bank x y e f d z h =
    let own : nat_eq s s ≡ true = ground arith in
    elim (Bool-cases (is_positive x)) [
      | inl t ↦ rw (t, e, f, d, own) (omega arith)
      | inr t ↦ rw (t, e, f, d, own) (omega arith)
    ]

module _ (k s r : ℕ) (accounts : List Reg.Account) (apart : nat_eq r s ≡ false) where
  module _ (text : String → ℕ → String) (now : ℕ) where
    Shifted-mirror :
        (cycle : ℕ) (p : ℕ × Amount) (bank : Participant) (t : Ledger.Transaction) (n o : Network)
        → Bank k s r accounts n
        → participant_with p.0 n ≡ some bank
        → nat_eq p.1 0 ≡ false
        → p.1 < range
        → post_in_bank now bank (mirror_request text cycle p.0 bank p.1) n ≡ done t o
        → Shifted k s r accounts (if nat_eq p.0 k then p.1 else 0) 0 n o
    unfolding mirror_request plain_request payment_with
    Shifted-mirror cycle p bank t n o b x z q y =
        let w =
          Posted-post_in_bank now p.0 k s r accounts bank (mirror_request text cycle p.0 bank p.1) t
            n o b x y in
        let paid =
          λ (id : ℕ). ap (λ l. paid_in k (find (λ (c : Payment). nat_eq c.id id) l)) w.payments in
        elim (Bool-cases (nat_eq p.0 k)) [
          | inl i ↦
              let a = Own-Bank k p.0 s r accounts bank n b x i in
              let e =
                w.own i
                ∙ replay-mirror_entries s r bank p.1 (suspense_balance k s n) a.suspense a.reserve
                    apart z q in
              rw i (record { stays = w.stays; suspense = omega arith; paid = paid })
          | inr i ↦
              let e = w.other i in
              rw i (record { stays = w.stays; suspense = omega arith; paid = paid })
        ]

    pub Shifted-mirror_positions :
        (cycle : ℕ) (ps : Positions) (n m : Network) (u : Unit {0})
        → Bank k s r accounts n
        → IsAmounts ps
        → mirror_positions text now cycle ps n ≡ done u m
        → Shifted k s r accounts (position k ps) 0 n m
    unfolding mirror_positions and_then mirror_request plain_request payment_with
    Shifted-mirror_positions cycle [] n m u b a h =
        let e : n ≡ m = cc in rw (← e) (Shifted-refl k s r accounts n b)
    Shifted-mirror_positions cycle (p ∷ ps) n m u b (q, a) h = elim (Bool-cases (nat_eq p.1 0)) [
      | inl z ↦
          let zero : p.1 ≡ 0 = ground arith in
          let i = Shifted-mirror_positions cycle ps n m u b a (rw (z, mirror_positions) at h) in
          record { stays = i.stays; suspense = (let e = i.suspense in ground arith); paid = i.paid }
      | inr z ↦ elim (Option-cases (participant_with p.0 n)) [
        | inl x ↦
            absurd
              (let g : failed nil_pointer n ≡ done u m = rw (z, x, mirror_positions) at h in cc)
        | inr (bank, x) ↦
            elim (Outcome-cases
              (post_in_bank now bank (mirror_request text cycle p.0 bank p.1) n)) [
                | inl (e, o, y) ↦ absurd (
                    let g : failed e o ≡ done u m = rw (z, x, mirror_positions, y, and_then) at h in
                    cc)
                | inr (t, o, y) ↦
                    let w =
                      Posted-post_in_bank now p.0 k s r accounts bank
                        (mirror_request text cycle p.0 bank p.1) t n o b x y in
                    let i =
                      Shifted-mirror_positions cycle ps o m u w.stays a
                        (rw (z, x, mirror_positions, y, and_then) at h) in
                    Shifted-trans k s r accounts _ 0 (position k ps) 0 n o m
                      (Shifted-mirror cycle p bank t n o b x z q y) i
              ]
      ]
    ]
