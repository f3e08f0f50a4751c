-- ===== src/Backend/Register/Sums.antt =====
-- The sum of the active holds of deposit/register.go over the changes of its holds, as an int64.
use core_banking_system.Prelude.{
  ◌≡◌, refl, ap, sym, ◌∙◌, ℕ, ◌<◌, true, false, some, List, [], ◌∷◌, ◌++◌, find, nat_eq, arith,
  Bool-cases, inl, inr,
}
use core_banking_system.Enums.{HoldStatus}
use core_banking_system.Backend.Book.{Amount, range, add, sub}
use core_banking_system.Backend.Register.{Hold, replace, is_active, expired, counts, sum_holds}
use core_banking_system.Backend.Register.Methods.{with_hold_status}

module _ (now id : ℕ) where
  sum_holds-add :
      (hs : List Hold) (t x : Amount)
      → sum_holds now id hs (add t x) ≡ add (sum_holds now id hs t) x
  unfolding sum_holds add
  sum_holds-add [] t x = refl
  sum_holds-add (h ∷ hs) t x = elim (Bool-cases (counts now id h)) [
    | inl c ↦
        let swap : add (add t x) h.amount ≡ add (add t h.amount) x = omega arith in
        rw (c, swap) (sum_holds-add hs (add t h.amount) x)
    | inr c ↦ rw c (sum_holds-add hs t x)
  ]

  sum_holds_lt : (hs : List Hold) (t : Amount) → t < range → sum_holds now id hs t < range
  unfolding sum_holds add
  sum_holds_lt [] t h = h
  sum_holds_lt (k ∷ hs) t h = elim (Bool-cases (counts now id k)) [
    | inl c ↦ rw c (sum_holds_lt hs (add t k.amount) (omega arith))
    | inr c ↦ rw c (sum_holds_lt hs t h)
  ]

  pub sum_holds-append :
      (hs : List Hold) (h : Hold) (t : Amount)
      → counts now id h ≡ true
      → sum_holds now id (hs ++ (h ∷ [])) t ≡ add (sum_holds now id hs t) h.amount
  unfolding sum_holds
  sum_holds-append [] h t c = rw c refl
  sum_holds-append (k ∷ hs) h t c = sum_holds-append hs h _ c

  counts-with_hold_status :
      (s : HoldStatus) (h : Hold)
      → is_active s ≡ false
      → counts now id (with_hold_status s h) ≡ false
  unfolding counts expired
  counts-with_hold_status s h e = rw e (ground arith)

  sum_holds-end :
      (other : ℕ) (s : HoldStatus) (hs : List Hold) (h : Hold) (t : Amount)
      → is_active s ≡ false
      → find (λ x. nat_eq x.id other) hs ≡ some h
      → counts now id h ≡ true
      → add (sum_holds now id (replace (λ x. nat_eq x.id other) (with_hold_status s) hs) t) h.amount
        ≡ sum_holds now id hs t
  unfolding sum_holds replace
  sum_holds-end other s [] h t e f c = absurd cc
  sum_holds-end other s (k ∷ hs) h t e f c = elim (Bool-cases (nat_eq k.id other)) [
    | inl u ↦
        let eq : k ≡ h = (let g : some k ≡ some h = rw u at f in cc) in
        let d : counts now id k ≡ true = ap (counts now id) eq ∙ c in
        rw (u, sum_holds, counts-with_hold_status s k e, d, sym eq)
          (sym (sum_holds-add hs t k.amount))
    | inr u ↦ rw u (sum_holds-end other s hs h _ e (rw u at f) c)
  ]

  -- A hold that counted and has ended is taken off the sum.
  pub sum_holds-ended :
      (other : ℕ) (s : HoldStatus) (hs : List Hold) (h : Hold)
      → is_active s ≡ false
      → find (λ x. nat_eq x.id other) hs ≡ some h
      → counts now id h ≡ true
      → sum_holds now id (replace (λ x. nat_eq x.id other) (with_hold_status s) hs) 0
        ≡ sub (sum_holds now id hs 0) h.amount
  unfolding add sub
  sum_holds-ended other s hs h e f c =
      let ended = replace (λ (x : Hold). nat_eq x.id other) (with_hold_status s) hs in
      let back = sum_holds-end other s hs h 0 e f c in
      let low = sum_holds_lt ended 0 (omega arith) in omega arith
