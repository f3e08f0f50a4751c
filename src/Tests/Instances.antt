-- ===== src/Tests/Instances.antt =====
-- Concrete functions for the parameters of the models of web/src/lib/money.ts and of
-- web/src/components/forms/post-transaction-form.tsx, and what the models compute with them.
use core_banking_system.Prelude.{
  ◌≡◌, refl, ℕ, zero, suc, ◌≤◌, ◌<◌, String, List, [], ◌∷◌, arith, length, get_elem?, ◌=?◌, ◌||◌,
  not, if◌then◌else◌,
}
use core_banking_system.Prelude.Int.{pos}
use core_banking_system.Money.{Float}
use core_banking_system.Forms.PostTransaction.Display.{KeyedByIndex}

-- Numbers of one or two digits that end in 5: enough for the tests.
abbrev pub few_numbers : Float
few_numbers = record {
  Value = String;
  number = λ text. text;
  is_nan = λ text. not ((text =? "5") || ((text =? "15") || (text =? "25")));
  round_cents =
      λ text. if text =? "5" then pos 500 else if text =? "15" then pos 1500 else pos 2500;
}

unfoldable pub rerender_by_index : List String → List String → List String
rerender_by_index [] old = []
rerender_by_index (i ∷ is) [] = i ∷ is
rerender_by_index (i ∷ is) (o ∷ os) = o ∷ rerender_by_index is os

pub length-rerender_by_index :
    (initial old : List String) → length (rerender_by_index initial old) ≡ length initial
unfolding rerender_by_index
length-rerender_by_index [] old = refl
length-rerender_by_index (i ∷ is) [] = refl
length-rerender_by_index (i ∷ is) (o ∷ os) = omega (arith, length-rerender_by_index is os)

pub rerender_by_index-kept :
    (initial old : List String) (i : ℕ)
    → i < length initial
    → i < length old
    → get_elem? (rerender_by_index initial old) i ≡ get_elem? old i
unfolding rerender_by_index
rerender_by_index-kept [] old i h k = elim h [ ]
rerender_by_index-kept (x ∷ xs) [] i h k = elim k [ ]
rerender_by_index-kept (x ∷ xs) (o ∷ os) zero h k = refl
rerender_by_index-kept (x ∷ xs) (o ∷ os) (suc i) h k =
    rerender_by_index-kept xs os i (omega arith) (omega arith)

pub rerender_by_index-fresh :
    (initial old : List String) (i : ℕ)
    → i < length initial
    → length old ≤ i
    → get_elem? (rerender_by_index initial old) i ≡ get_elem? initial i
unfolding rerender_by_index
rerender_by_index-fresh [] old i h k = refl
rerender_by_index-fresh (x ∷ xs) [] i h k = refl
rerender_by_index-fresh (x ∷ xs) (o ∷ os) zero h k = elim k [ ]
rerender_by_index-fresh (x ∷ xs) (o ∷ os) (suc i) h k =
    rerender_by_index-fresh xs os i (omega arith) (omega arith)

abbrev pub by_index : KeyedByIndex
unfolding rerender_by_index
by_index = record {
  rerender = rerender_by_index;
  rerender_length = length-rerender_by_index;
  kept = rerender_by_index-kept;
  fresh = rerender_by_index-fresh;
}
