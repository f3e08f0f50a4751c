-- ===== src/Backend/Register/Entries.antt =====
-- The maps of deposit/register.go: what a changed entry and a new one do to a look-up.
use core_banking_system.Prelude.{
  ◌≡◌, refl, ap, sym, ◌∙◌, ℕ, ◌≤◌, ◌<◌, true, false, some, List, [], ◌∷◌, ◌++◌, All, find, nat_eq,
  arith, if◌then◌else◌, Bool-cases, inl, inr,
}
use core_banking_system.Backend.Book.Totals.{eq_of_nat_eq}
use core_banking_system.Backend.Register.{replace}

nat_eq-sym : (m n : ℕ) → nat_eq m n ≡ false → nat_eq n m ≡ false
nat_eq-sym m n h = ground arith

module _ {A : Type 0} (key : A → ℕ) where
  -- Every key is at most a bound.
  abbrev pub Issued : ℕ → List A → Type 0
  Issued n xs = All (λ x. key x ≤ n) xs

  pub Issued-mono : (m n : ℕ) (xs : List A) → m ≤ n → Issued m xs → Issued n xs
  Issued-mono m n [] h k = tt
  Issued-mono m n (x ∷ xs) h (p, q) = (omega arith, Issued-mono m n xs h q)

  pub Issued-append :
      (n : ℕ) (xs : List A) (x : A) → Issued n xs → key x ≤ n → Issued n (xs ++ (x ∷ []))
  Issued-append n [] x h k = (k, tt)
  Issued-append n (y ∷ xs) x (p, q) k = (p, Issued-append n xs x q k)

  pub Issued-find :
      (n id : ℕ) (xs : List A) (a : A)
      → Issued n xs
      → find (λ x. nat_eq (key x) id) xs ≡ some a
      → id ≤ n
  Issued-find n id [] a h e = absurd cc
  Issued-find n id (x ∷ xs) a (p, q) e = elim (Bool-cases (nat_eq (key x) id)) [
    | inl t ↦ let s = eq_of_nat_eq (key x) id t in omega arith
    | inr f ↦ Issued-find n id xs a q (rw f at e)
  ]

  -- A change of the entry with a key keeps the keys: it is found where it was, and the others are as they were.
  pub Issued-replace :
      (n id : ℕ) (f : A → A) (xs : List A)
      → ((x : A) → key (f x) ≡ key x)
      → Issued n xs
      → Issued n (replace (λ x. nat_eq (key x) id) f xs)
  unfolding replace
  Issued-replace n id f [] k h = tt
  Issued-replace n id f (x ∷ xs) k (p, q) = elim (Bool-cases (nat_eq (key x) id)) [
    | inl t ↦ rw t (let s = k x in omega arith, q)
    | inr e ↦ rw e (p, Issued-replace n id f xs k q)
  ]

  pub find-replace :
      (id other : ℕ) (f : A → A) (xs : List A) (a : A)
      → ((x : A) → key (f x) ≡ key x)
      → find (λ x. nat_eq (key x) id) xs ≡ some a
      → find (λ x. nat_eq (key x) id) (replace (λ x. nat_eq (key x) other) f xs)
        ≡ some (if nat_eq id other then f a else a)
  unfolding replace
  find-replace id other f [] a k h = absurd cc
  find-replace id other f (x ∷ xs) a k h = elim (Bool-cases (nat_eq (key x) id)) [
    | inl t ↦
        let s = eq_of_nat_eq (key x) id t in
        let same : some x ≡ some a = rw t at h in
        elim (Bool-cases (nat_eq (key x) other)) [
          | inl u ↦
              let v : nat_eq id other ≡ true = ap (λ n. nat_eq n other) (sym s) ∙ u in
              rw (u, ap (λ n. nat_eq n id) (k x) ∙ t, v)
                (let eq : x ≡ a = cc in ap (λ y. some (f y)) eq)
          | inr u ↦
              let v : nat_eq id other ≡ false = ap (λ n. nat_eq n other) (sym s) ∙ u in
              rw (u, t, v) same
        ]
    | inr e ↦ elim (Bool-cases (nat_eq (key x) other)) [
      | inl u ↦
          let v = eq_of_nat_eq (key x) other u in
          let w : nat_eq id other ≡ false = ap (nat_eq id) (sym v) ∙ nat_eq-sym (key x) id e in
          rw (u, ap (λ n. nat_eq n id) (k x) ∙ e, w) (rw e at h)
      | inr u ↦ rw (u, e) (find-replace id other f xs a k (rw e at h))
    ]
  ]

  pub find-append :
      (id : ℕ) (xs ys : List A) (a : A)
      → find (λ x. nat_eq (key x) id) xs ≡ some a
      → find (λ x. nat_eq (key x) id) (xs ++ ys) ≡ some a
  find-append id [] ys a h = absurd cc
  find-append id (x ∷ xs) ys a h = elim (Bool-cases (nat_eq (key x) id)) [
    | inl t ↦ rw t (rw t at h)
    | inr e ↦ rw e (find-append id xs ys a (rw e at h))
  ]

  pub find-fresh :
      (n id : ℕ) (xs : List A) (x a : A)
      → Issued n xs
      → n < key x
      → find (λ y. nat_eq (key y) id) xs ≡ some a
      → find (λ y. nat_eq (key y) id) (x ∷ xs) ≡ some a
  find-fresh n id xs x a i k h =
      let low = Issued-find n id xs a i h in
      elim (Bool-cases (nat_eq (key x) id)) [
        | inl t ↦ let s = eq_of_nat_eq (key x) id t in absurd omega arith
        | inr e ↦ rw e h
      ]

  pub key-find :
      (id : ℕ) (xs : List A) (a : A) → find (λ x. nat_eq (key x) id) xs ≡ some a → key a ≡ id
  key-find id [] a h = absurd cc
  key-find id (x ∷ xs) a h = elim (Bool-cases (nat_eq (key x) id)) [
    | inl t ↦
        let eq : x ≡ a = (let same : some x ≡ some a = rw t at h in cc) in
        ap key (sym eq) ∙ eq_of_nat_eq (key x) id t
    | inr e ↦ key-find id xs a (rw e at h)
  ]

  -- `m[c.ID] = c` on a map that has an entry for the id.
  pub find-put :
      (k : ℕ) (c b : A) (xs : List A)
      → find (λ x. nat_eq (key x) (key c)) xs ≡ some b
      → find (λ x. nat_eq (key x) k) (replace (λ x. nat_eq (key x) (key c)) (λ x. c) xs)
        ≡ (if nat_eq (key c) k then some c else find (λ x. nat_eq (key x) k) xs)
  unfolding replace
  find-put k c b [] h = absurd cc
  find-put k c b (x ∷ xs) h = elim (Bool-cases (nat_eq (key x) (key c))) [
    | inl e ↦ elim (Bool-cases (nat_eq (key c) k)) [
      | inl f ↦ rw (e, f) refl
      | inr f ↦ let g : nat_eq (key x) k ≡ false = ground arith in rw (e, f, g) refl
    ]
    | inr e ↦ elim (Bool-cases (nat_eq (key x) k)) [
      | inl f ↦ let g : nat_eq (key c) k ≡ false = ground arith in rw (e, f, g) refl
      | inr f ↦ rw (e, f) (find-put k c b xs (rw e at h))
    ]
  ]
