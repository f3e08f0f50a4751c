-- ===== src/Backend/Book/Totals.antt =====
-- The exact totals of entries, against which the wrapped sums of service.go are measured.
use core_banking_system.Prelude.{
  ◌≡◌, refl, ℕ, suc, ◌+◌, ◌%◌, true, false, List, [], ◌∷◌, ◌++◌, map, nat_eq, arith, if◌then◌else◌,
}
use core_banking_system.Enums.{Direction, debit, credit, reversed}
use core_banking_system.Backend.Book.{Entry, Transaction, range, add, sub, opposite, is_balanced}
use core_banking_system.Backend.Book.Methods.{numbered, flipped, mark, mark_reversed}

-- What an entry adds to a total of one direction.
abbrev pub part : Direction → Entry → ℕ
part debit e = elim e.direction [ debit ↦ e.amount | credit ↦ 0 ]
part credit e = elim e.direction [ debit ↦ 0 | credit ↦ e.amount ]

-- The total of a part over entries, and over the entries of transactions.
abbrev pub total : (Entry → ℕ) → List Entry → ℕ
total p [] = 0
total p (e ∷ es) = p e + total p es

abbrev pub total_all : (Entry → ℕ) → List Transaction → ℕ
total_all p [] = 0
total_all p (t ∷ ts) = total p t.entries + total_all p ts

pub eq_of_nat_eq : (m n : ℕ) → nat_eq m n ≡ true → m ≡ n
eq_of_nat_eq m n h = ground arith

pub total_all-append :
    (p : Entry → ℕ) (ts us : List Transaction)
    → total_all p (ts ++ us) ≡ total_all p ts + total_all p us
total_all-append p [] us = omega arith
total_all-append p (t ∷ ts) us = let e = total_all-append p ts us in omega arith

pub add_left : (a b c : ℕ) → (add a b + c) % range ≡ (a + (b + c)) % range
unfolding add
add_left a b c = omega arith

pub sub_left : (a b c d : ℕ) → ((sub a b + c) + b) % range ≡ (a + c) % range
unfolding sub
sub_left a b c d = omega arith

-- `validateBalance` accepts where the totals agree.
pub totals_of_is_balanced :
    (es : List Entry) (d c : ℕ)
    → is_balanced es d c ≡ true
    → (d + total (part debit) es) % range ≡ (c + total (part credit) es) % range
unfolding is_balanced
totals_of_is_balanced [] d c h = ground arith
totals_of_is_balanced (e ∷ es) d c h =
    elim e.direction
        as (λ r.
          elim r [
            | debit ↦ is_balanced es (add d e.amount) c
            | credit ↦ is_balanced es d (add c e.amount)
          ]
            ≡ true
          → (d + (elim r [ debit ↦ e.amount | credit ↦ 0 ] + total (part debit) es)) % range
            ≡ (c + (elim r [ debit ↦ 0 | credit ↦ e.amount ] + total (part credit) es)) % range) [
              | debit ↦ λ k.
                  let i = totals_of_is_balanced es (add d e.amount) c k in
                  let l = add_left d e.amount (total (part debit) es) in omega arith
              | credit ↦ λ k.
                  let i = totals_of_is_balanced es d (add c e.amount) k in
                  let l = add_left c e.amount (total (part credit) es) in omega arith
            ]
      h

-- Numbering and reversing.
pub total-numbered :
    (dir : Direction) (n : ℕ) (es : List Entry)
    → total (part dir) (numbered n es) ≡ total (part dir) es
unfolding numbered
total-numbered dir n [] = refl
total-numbered debit n (e ∷ es) = rw (total-numbered debit (suc n) es) refl
total-numbered credit n (e ∷ es) = rw (total-numbered credit (suc n) es) refl

pub part-flipped : (dir : Direction) (e : Entry) → part dir (flipped e) ≡ part (opposite dir) e
unfolding opposite
part-flipped debit e =
    elim e.direction
      as (λ r.
        elim (opposite r) as (λ _. ℕ) [ debit ↦ e.amount | credit ↦ 0 ]
        ≡ elim r [ debit ↦ 0 | credit ↦ e.amount ]) [ debit ↦ refl | credit ↦ refl ]
part-flipped credit e =
    elim e.direction
      as (λ r.
        elim (opposite r) as (λ _. ℕ) [ debit ↦ 0 | credit ↦ e.amount ]
        ≡ elim r [ debit ↦ e.amount | credit ↦ 0 ]) [ debit ↦ refl | credit ↦ refl ]

pub total-flipped :
    (dir : Direction) (es : List Entry)
    → total (part dir) (map flipped es) ≡ total (part (opposite dir)) es
unfolding opposite
total-flipped dir [] = refl
total-flipped dir (e ∷ es) = rw (total-flipped dir es, part-flipped dir e) refl

pub entries-mark : (id : ℕ) (t : Transaction) → (mark id t).entries ≡ t.entries
unfolding mark
entries-mark id t =
    elim (nat_eq t.id id)
      as (λ b. (if b then record t { status = reversed } else t).entries ≡ t.entries) [
        | true ↦ refl
        | false ↦ refl
      ]

pub total_all-mark_reversed :
    (dir : Direction) (id : ℕ) (ts : List Transaction)
    → total_all (part dir) (mark_reversed id ts) ≡ total_all (part dir) ts
unfolding mark_reversed
total_all-mark_reversed dir id [] = refl
total_all-mark_reversed dir id (t ∷ ts) =
    rw (entries-mark id t, total_all-mark_reversed dir id ts) refl
