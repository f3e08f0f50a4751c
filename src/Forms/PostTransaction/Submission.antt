-- ===== src/Forms/PostTransaction/Submission.antt =====
-- What web/src/components/forms/post-transaction-form.tsx submits, against the checks of the backend.
use mathlib.Core.Path.{subst}
use mathlib.Core.Bool.{and-eq-true_iff}
use core_banking_system.Prelude.{
  ℕ, ◌≤◌, ◌+◌, ◌^◌, sym, Bool, ◌⊎◌, ◌≡◌, refl, ap, ◌∙◌, true, false, ◌&&◌, none, some, List, [],
  ◌∷◌, map, arith, if◌then◌else◌, Bool-cases, inl, inr, filter, every, truthy, trim, String,
}
use core_banking_system.Prelude.Int.{ℤ, pos, pos_part, eq_of_parts, ◌+ℤ◌, ltb_ℤ, eqb_ℤ}
use core_banking_system.Types.Requests.{EntryInput, PostTransactionRequest}
use core_banking_system.Types.Ledger.{Transaction}
use core_banking_system.Enums.{Direction, debit, credit}
use core_banking_system.Client.Errors.{Thrown}
use core_banking_system.Forms.Reply.{succeeded, failed}
use core_banking_system.Backend.Posting.{
  add_int64, validate_balance, validate_entries, is_positive, invalid_amount,
  unbalanced_transaction,
}
use core_banking_system.Forms.PostTransaction.{
  Leg, State, empty_legs, is_debit, is_credit, amount_of, sum_from, debits, credits, balanced,
  leg_ready, ready, entry_of, request_of, submit, step, settled,
}

-- The exact sum of the amounts of some legs, where each is positive.
abbrev total_if : (Leg → Bool) → List Leg → ℕ
total_if f [] = 0
total_if f (l ∷ ls) = (if f l then pos_part (amount_of l) else 0) + total_if f ls

abbrev pub total : List Leg → ℕ
total legs = total_if (λ _. true) legs

total_if-total : (f : Leg → Bool) (ls : List Leg) → total_if f ls ≤ total ls
total_if-total f [] = omega arith
total_if-total f (l ∷ ls) = let i = total_if-total f ls in ground arith

leg_ready-pos : (l : Leg) → leg_ready l ≡ true → amount_of l ≡ pos (pos_part (amount_of l))
leg_ready-pos l h =
    let (_, p) = (and-eq-true_iff (truthy (trim l.account_id)) (ltb_ℤ (pos 0) (amount_of l))).0 h in
    eq_of_parts (amount_of l) (pos (pos_part (amount_of l))) (ground arith)

add-pos : (a b : ℕ) → pos a +ℤ pos b ≡ pos (a + b)
unfolding ◌+ℤ◌
add-pos a b = ground arith

add_int64-pos : (a b : ℕ) → a + b ≤ 2 ^ 53 → add_int64 (pos a) (pos b) ≡ pos (a + b)
unfolding add_int64
add_int64-pos a b h = rw (add-pos a b) (ground arith)

Direction-cases : (d : Direction) → (d ≡ debit) ⊎ (d ≡ credit)
Direction-cases debit = inl refl
Direction-cases credit = inr refl

-- The verdict on two totals.
verdict-equal :
    {a b c d : ℕ}
    → a ≡ c
    → b ≡ d
    → validate_balance (pos a) (pos b) [] ≡ validate_balance (pos c) (pos d) []
verdict-equal p q = rw (p, q) refl

-- The backend's pass over the entries has the exact sums, as long as they are small.
validate_balance-entries :
    (d c : ℕ) (legs : List Leg)
    → every leg_ready legs ≡ true
    → d + total legs ≤ 2 ^ 53
    → c + total legs ≤ 2 ^ 53
    → validate_balance (pos d) (pos c) (map entry_of legs)
      ≡ validate_balance (pos (d + total_if is_debit legs)) (pos (c + total_if is_credit legs)) []
unfolding validate_balance
validate_balance-entries d c [] h a b = verdict-equal (omega arith) (omega arith)
validate_balance-entries d c (l ∷ ls) h a b =
    let (p, q) = (and-eq-true_iff (leg_ready l) (every leg_ready ls)).0 h in
    let x = pos_part (amount_of l) in
    let e = leg_ready-pos l p in
    elim (Direction-cases l.direction) [
      | inl k ↦
          let sum : add_int64 (pos d) (amount_of l) ≡ pos (d + x) =
            ap (add_int64 (pos d)) e ∙ add_int64-pos d x (omega arith) in
          rw (k, sum)
            (validate_balance-entries (d + x) (c) ls q (omega arith) (omega arith)
              ∙ verdict-equal (omega arith) (omega arith))
      | inr k ↦
          let sum : add_int64 (pos c) (amount_of l) ≡ pos (c + x) =
            ap (add_int64 (pos c)) e ∙ add_int64-pos c x (omega arith) in
          rw (k, sum)
            (validate_balance-entries (d) (c + x) ls q (omega arith) (omega arith)
              ∙ verdict-equal (omega arith) (omega arith))
    ]

module _ (round : ℤ → ℤ) (exact : (n : ℕ) → n ≤ 2 ^ 53 → round (pos n) ≡ pos n) where
  -- And so has the form.
  sum_from-total :
      (f : Leg → Bool) (s : ℕ) (ls : List Leg)
      → every leg_ready ls ≡ true
      → s + total ls ≤ 2 ^ 53
      → sum_from round (pos s) (filter f ls) ≡ pos (s + total_if f ls)
  unfolding sum_from
  sum_from-total f s [] h a = ap pos (omega arith)
  sum_from-total f s (l ∷ ls) h a =
      let (p, q) = (and-eq-true_iff (leg_ready l) (every leg_ready ls)).0 h in
      let e = leg_ready-pos l p in
      elim (Bool-cases (f l)) [
        | inl k ↦
            let sum : round (pos s +ℤ amount_of l) ≡ pos (s + pos_part (amount_of l)) =
              ap (λ y. round (pos s +ℤ y)) e
              ∙ (ap round (add-pos s (pos_part (amount_of l))) ∙ exact _ (omega arith)) in
            rw k (
              ap (λ y. sum_from round y (filter f ls)) sum
              ∙ (sum_from-total f (s + pos_part (amount_of l)) ls q (omega arith)
                  ∙ ap pos (omega arith)))
        | inr k ↦ rw k (sum_from-total f s ls q (omega arith) ∙ ap pos (omega arith))
      ]

every-is_positive :
    (legs : List Leg) → every leg_ready legs ≡ true → every is_positive (map entry_of legs) ≡ true
every-is_positive [] h = refl
every-is_positive (l ∷ ls) h =
    let (p, q) = (and-eq-true_iff (leg_ready l) (every leg_ready ls)).0 h in
    let (_, r) = (and-eq-true_iff (truthy (trim l.account_id)) (ltb_ℤ (pos 0) (amount_of l))).0 p in
    (and-eq-true_iff _ _).1 (r, every-is_positive ls q)

every-accounts :
    (legs : List Leg)
    → every leg_ready legs ≡ true
    → every (λ e. truthy e.account_id) (map entry_of legs) ≡ true
every-accounts [] h = refl
every-accounts (l ∷ ls) h =
    let (p, q) = (and-eq-true_iff (leg_ready l) (every leg_ready ls)).0 h in
    let (r, _) = (and-eq-true_iff (truthy (trim l.account_id)) (ltb_ℤ (pos 0) (amount_of l))).0 p in
    (and-eq-true_iff _ _).1 (r, every-accounts ls q)

validate_entries-cons :
    (e : EntryInput) (es : List EntryInput)
    → every is_positive (e ∷ es) ≡ true
    → validate_entries (e ∷ es) ≡ validate_balance (pos 0) (pos 0) (e ∷ es)
unfolding validate_entries
validate_entries-cons e es h =
    ap (λ b. if b then validate_balance (pos 0) (pos 0) (e ∷ es) else some invalid_amount) h

equal_totals : (d c : ℤ) → eqb_ℤ d c ≡ true → validate_balance d c [] ≡ none
unfolding validate_balance
equal_totals d c h = ap (λ b. if b then none else some unbalanced_transaction) h

module _ (round : ℤ → ℤ) (exact : (n : ℕ) → n ≤ 2 ^ 53 → round (pos n) ≡ pos n) where
  -- With no leg the debits are not positive, so a ready form has legs.
  ready-entries :
      (legs : List Leg)
      → total legs ≤ 2 ^ 53
      → ready round legs ≡ true
      → validate_entries (map entry_of legs) ≡ none
  unfolding ready debits credits
  ready-entries [] a h = cc
  ready-entries (l ∷ ls) a h =
      let (b, e) = (and-eq-true_iff (balanced round (l ∷ ls)) (every leg_ready (l ∷ ls))).0 h in
      let (same, _) =
        (and-eq-true_iff (eqb_ℤ (debits round (l ∷ ls)) (credits round (l ∷ ls)))
            (ltb_ℤ (pos 0) (debits round (l ∷ ls)))).0
          b in
      let d = sum_from-total round exact is_debit 0 (l ∷ ls) e (omega arith) in
      let c = sum_from-total round exact is_credit 0 (l ∷ ls) e (omega arith) in
      validate_entries-cons (entry_of l) (map entry_of ls) (every-is_positive (l ∷ ls) e)
      ∙ (validate_balance-entries 0 0 (l ∷ ls) e (omega arith) (omega arith)
          ∙ equal_totals _ _ (
              ap (eqb_ℤ (pos (0 + total_if is_debit (l ∷ ls)))) (sym c)
              ∙ (ap (λ x. eqb_ℤ x (credits round (l ∷ ls))) (sym d) ∙ same)))

  -- A request that the form submits passes every check of the backend that depends on its entries alone,
  -- as int64, where its amounts are finite, add up to 2 ^ 53 cents at most, and JavaScript adds exactly
  -- up to there: it has entries, their amounts are positive, and its debits equal its credits. The
  -- accounts that it names are not blank.
  pub submit-validate_entries :
      (s : State) {r : PostTransactionRequest}
      → total s.legs ≤ 2 ^ 53
      → submit round s ≡ some r
      → (validate_entries r.entries ≡ none) × (every (λ e. truthy e.account_id) r.entries ≡ true)
  unfolding submit
  submit-validate_entries s {r} a h = elim (Bool-cases (ready round s.legs)) [
    | inl yes_ready ↦
        let e : request_of s ≡ r = ground arith in
        let (b, every_leg) =
          (and-eq-true_iff (balanced round s.legs) (every leg_ready s.legs)).0 yes_ready in
        subst
          (λ (x : PostTransactionRequest).
            (validate_entries x.entries ≡ none)
            × (every (λ y. truthy y.account_id) x.entries ≡ true))
          e (ready-entries s.legs a yes_ready, every-accounts s.legs every_leg)
    | inr not_ready ↦ absurd (ground arith)
  ]

and_false : (b : Bool) → (b && false) ≡ false
and_false true = refl
and_false false = refl

module _ (round : ℤ → ℤ) where
  ready-empty : ready round empty_legs ≡ false
  unfolding ready trim truthy
  ready-empty = and_false (balanced round empty_legs)

  -- A posting that has succeeded leaves a form that submits nothing until it is filled again. One that has
  -- failed leaves the same request, with the same idempotency key, to be submitted again.
  pub submit-settled :
      (tx : Transaction) (e : Thrown) (key : String) (s : State)
      → (submit round (step (settled (succeeded tx) key) s) ≡ none)
        × (submit round (step (settled (failed e) key) s) ≡ submit round s)
  unfolding submit step ◌+ℤ◌
  submit-settled tx e key s = (
    ap (λ b. if b then some (request_of (step (settled (succeeded tx) key) s)) else none)
        ready-empty,
    refl,
  )
