-- ===== src/Pages/NetPositions.antt =====
-- web/src/components/net-positions-table.tsx: the rows of the table. `sort` is the stable sort of
-- ECMAScript, here by insertion.
use mathlib.Core.List.{Permᴰ}
use mathlib.Core.List.Permᴰ
use core_banking_system.Prelude.{
  refl, String, Bool, Option, none, some, List, [], ◌∷◌, map, All, arith, if◌then◌else◌, Bool-cases,
  inl, inr,
}
use core_banking_system.Prelude.Int.{ℤ, ◌≤ℤ◌, ltb_ℤ}

pub record NetPosition : Type 0 where
  pub participant : String
  pub amount : ℤ

-- `b.amount - a.amount` is positive: `b` goes in front of `a`.
abbrev pub precedes : NetPosition → NetPosition → Bool
precedes b a = ltb_ℤ a.amount b.amount

-- A row goes in front of the first one that is not larger, so that equal rows keep their order.
unfoldable pub insert : NetPosition → List NetPosition → List NetPosition
insert x [] = x ∷ []
insert x (y ∷ ys) = let rest = insert x ys in if precedes y x then y ∷ rest else x ∷ y ∷ ys

unfoldable pub sort : List NetPosition → List NetPosition
unfolding insert
sort [] = []
sort (x ∷ xs) = insert x (sort xs)

abbrev pub entry : String × ℤ → NetPosition
entry (p, a) = record { participant = p; amount = a }

unfoldable pub rows : Option (List (String × ℤ)) → List NetPosition
unfolding sort
rows none = []
rows (some positions) = sort (map entry positions)

-- Nothing behind a row is larger.
abbrev pub Descending : List NetPosition → Type 0
Descending [] = Unit
Descending (x ∷ xs) = All (λ y. y.amount ≤ℤ x.amount) xs × Descending xs

All-insert :
    (b x : NetPosition) (ys : List NetPosition)
    → x.amount ≤ℤ b.amount
    → All (λ y. y.amount ≤ℤ b.amount) ys
    → All (λ y. y.amount ≤ℤ b.amount) (insert x ys)
unfolding insert
All-insert b x [] h k = (h, tt)
All-insert b x (y ∷ ys) h (p, q) = elim (Bool-cases (precedes y x)) [
  | inl before ↦ rw before (p, All-insert b x ys h q)
  | inr behind ↦ rw behind (h, (p, q))
]

All-weaken :
    (a b : NetPosition) (ys : List NetPosition)
    → a.amount ≤ℤ b.amount
    → All (λ y. y.amount ≤ℤ a.amount) ys
    → All (λ y. y.amount ≤ℤ b.amount) ys
All-weaken a b [] h k = tt
All-weaken a b (y ∷ ys) h (p, q) = (omega arith, All-weaken a b ys h q)

insert-Descending :
    (x : NetPosition) (ys : List NetPosition) → Descending ys → Descending (insert x ys)
unfolding insert
insert-Descending x [] h = (tt, tt)
insert-Descending x (y ∷ ys) (p, q) = elim (Bool-cases (precedes y x)) [
  | inl before ↦ rw before (All-insert y x ys (ground arith) p, insert-Descending x ys q)
  | inr behind ↦
      let le : y.amount ≤ℤ x.amount = ground arith in
      rw behind ((le, All-weaken y x ys le p), (p, q))
]

insert-Perm : (x : NetPosition) (ys : List NetPosition) → Permᴰ (x ∷ ys) (insert x ys)
unfolding insert
insert-Perm x [] = Permᴰ.refl _
insert-Perm x (y ∷ ys) = elim (Bool-cases (precedes y x)) [
  | inl before ↦ rw before (Permᴰ.trans (Permᴰ.swap refl refl) (Permᴰ.cons refl (insert-Perm x ys)))
  | inr behind ↦ rw behind (Permᴰ.refl _)
]

sort-Descending : (xs : List NetPosition) → Descending (sort xs)
unfolding sort
sort-Descending [] = tt
sort-Descending (x ∷ xs) = insert-Descending x (sort xs) (sort-Descending xs)

sort-Perm : (xs : List NetPosition) → Permᴰ xs (sort xs)
unfolding sort
sort-Perm [] = Permᴰ.refl _
sort-Perm (x ∷ xs) = Permᴰ.trans (Permᴰ.cons refl (sort-Perm xs)) (insert-Perm x (sort xs))

-- The rows are the net positions, each once, from the largest receiver to the largest payer.
pub rows-Descending :
    (positions : List (String × ℤ))
    → Descending (rows (some positions)) × Permᴰ (map entry positions) (rows (some positions))
unfolding rows
rows-Descending positions = (sort-Descending (map entry positions), sort-Perm (map entry positions))
