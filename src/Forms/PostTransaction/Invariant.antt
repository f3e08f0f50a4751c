-- ===== src/Forms/PostTransaction/Invariant.antt =====
-- The states that web/src/components/forms/post-transaction-form.tsx can reach.
use core_banking_system.Prelude.{
  ◌≡◌, refl, ◌∙◌, ℕ, zero, suc, ◌≤◌, String, Bool, true, false, List, [], ◌∷◌, ◌++◌, arith, length,
  update_at, remove_at, every, if◌then◌else◌,
}
use mathlib.Core.Bool.{and-eq-true_iff}
use core_banking_system.Forms.Reply.{succeeded, failed}
use core_banking_system.Forms.PostTransaction.{
  Leg, State, empty_legs, new_leg, Event, open_change, update_leg, add_leg, remove_leg,
  regenerate_key, set_description, set_booking_date, set_value_date, settled, step, removed,
  patched,
}

pub length-update_at {ℓ} :
    {A : Type ℓ} (k : ℕ) (f : A → A) (xs : List A) → length (update_at k f xs) ≡ length xs
length-update_at k f [] = refl
length-update_at zero f (x ∷ xs) = refl
length-update_at (suc k) f (x ∷ xs) = omega (arith, length-update_at k f xs)

length-remove_at {ℓ} :
    {A : Type ℓ} (k : ℕ) (xs : List A) → length xs ≤ suc (length (remove_at k xs))
length-remove_at k [] = omega arith
length-remove_at zero (x ∷ xs) = omega arith
length-remove_at (suc k) (x ∷ xs) = omega (arith, length-remove_at k xs)

pub length-append_one {ℓ} :
    {A : Type ℓ} (xs : List A) (a : A) → length (xs ++ a ∷ []) ≡ suc (length xs)
length-append_one [] a = refl
length-append_one (x ∷ xs) a = omega (arith, length-append_one xs a)

removed_two : (i : ℕ) (legs : List Leg) → 2 ≤ length legs → 2 ≤ length (removed i legs)
unfolding removed
removed_two i legs h = ground (arith, length-remove_at i legs)

-- The form starts closed, with two empty legs and some key.
pub data Reach : State → Type 0 where
  start :
      (key : String)
      → Reach (record {
        is_open = false;
        legs = empty_legs;
        idempotency_key = key;
        description = "";
        booking_date = "";
        value_date = "";
      })
  next : {s : State} (e : Event) → Reach s → Reach (step e s)

step_two : (e : Event) (s : State) → 2 ≤ length s.legs → 2 ≤ length (step e s).legs
unfolding step
step_two (open_change true key) s h = omega arith
step_two (open_change false key) s h = h
step_two (update_leg i p) s h = omega (arith, length-update_at i (patched p) s.legs)
step_two add_leg s h = omega (arith, length-append_one s.legs new_leg)
step_two (remove_leg i) s h = removed_two i s.legs h
step_two (regenerate_key key) s h = h
step_two (set_description d) s h = h
step_two (set_booking_date d) s h = h
step_two (set_value_date d) s h = h
step_two (settled (succeeded tx) key) s h = omega arith
step_two (settled (failed e) key) s h = h

-- Whatever the user does and however requests settle, the form keeps at least two legs.
pub Reach-two_legs : {s : State} → Reach s → 2 ≤ length s.legs
Reach-two_legs (start key) = omega arith
Reach-two_legs (next {s} e r) = step_two e s (Reach-two_legs r)

unfoldable pub run : List Event → State → State
run [] s = s
run (e ∷ es) s = run es (step e s)

-- The events that are neither a new start nor a request for a new key.
unfoldable pub keeps_key : Event → Bool
keeps_key (open_change o key) = if o then false else true
keeps_key (regenerate_key key) = false
keeps_key (settled (succeeded tx) key) = false
keeps_key _ = true

step_key :
    (e : Event) (s : State) → keeps_key e ≡ true → (step e s).idempotency_key ≡ s.idempotency_key
unfolding step keeps_key
step_key (open_change true key) s h = cc
step_key (open_change false key) s h = refl
step_key (regenerate_key key) s h = cc
step_key (settled (succeeded tx) key) s h = cc
step_key (settled (failed e) key) s h = refl
step_key _ s h = refl

-- The key of a request that failed is kept for the next attempt: edits of the form, a closed dialog and
-- failed requests leave it as it is, so that a retry carries the same key.
pub run_key :
    (es : List Event) (s : State)
    → every keeps_key es ≡ true
    → (run es s).idempotency_key ≡ s.idempotency_key
unfolding run
run_key [] s h = refl
run_key (e ∷ es) s h =
    let (p, q) = (and-eq-true_iff (keeps_key e) (every keeps_key es)).0 h in
    run_key es (step e s) q ∙ step_key e s p
