-- ===== src/Forms/PostTransaction/Typing.antt =====
-- When the rows of web/src/components/forms/post-transaction-form.tsx show what they hold.
use core_banking_system.Prelude.{
  ◌≡◌, ◌≢◌, refl, sym, ap, ◌∙◌, ℕ, zero, suc, ◌<◌, String, false, none, some, List, [], ◌∷◌, ◌++◌,
  map, arith, length, get_elem?, update_at, remove_at, leb, trim,
}
use native.Mathlib.Decide.{ℕ_discrete, dec_lt}
use mathlib.Core.Path.{subst}
use core_banking_system.Forms.PostTransaction.Invariant.{length-update_at, length-append_one}
use core_banking_system.Money.{Float, initial_text, parse_dollars}
use core_banking_system.Forms.PostTransaction.{Leg, patched, set_cents, new_leg}
use core_banking_system.Forms.PostTransaction.Display.{
  KeyedByIndex, Rows, type_text, add_row, remove_row, InStep, first_text,
}

module _ {ℓ} {A : Type ℓ} where
  get_elem?-update_at_self :
      (i : ℕ) (f : A → A) (xs : List A) {x : A}
      → get_elem? xs i ≡ some x
      → get_elem? (update_at i f xs) i ≡ some (f x)
  get_elem?-update_at_self i f [] h = cc
  get_elem?-update_at_self zero f (x ∷ xs) h = cc
  get_elem?-update_at_self (suc i) f (x ∷ xs) h = get_elem?-update_at_self i f xs h

  get_elem?-update_at_ne :
      (i j : ℕ) (f : A → A) (xs : List A) → i ≢ j → get_elem? (update_at i f xs) j ≡ get_elem? xs j
  get_elem?-update_at_ne i j f [] h = refl
  get_elem?-update_at_ne zero zero f (x ∷ xs) h = absurd (h refl)
  get_elem?-update_at_ne zero (suc j) f (x ∷ xs) h = refl
  get_elem?-update_at_ne (suc i) zero f (x ∷ xs) h = refl
  get_elem?-update_at_ne (suc i) (suc j) f (x ∷ xs) h =
      get_elem?-update_at_ne i j f xs (λ e. h (ap suc e))

  -- Behind the removed place the elements move up by one.
  get_elem?-remove_at : (i : ℕ) (xs : List A) → get_elem? (remove_at i xs) i ≡ get_elem? xs (suc i)
  get_elem?-remove_at i [] = refl
  get_elem?-remove_at zero (x ∷ xs) = refl
  get_elem?-remove_at (suc i) (x ∷ xs) = get_elem?-remove_at i xs

  length-remove_at_lt :
      (i : ℕ) (xs : List A) → i < length xs → suc (length (remove_at i xs)) ≡ length xs
  length-remove_at_lt i [] h = elim h [ ]
  length-remove_at_lt zero (x ∷ xs) h = refl
  length-remove_at_lt (suc i) (x ∷ xs) h = omega (arith, length-remove_at_lt i xs)

length-map_nat {ℓ κ} :
    {A : Type ℓ} {B : Type κ} (f : A → B) (xs : List A) → length (map f xs) ≡ length xs
length-map_nat f [] = refl
length-map_nat f (x ∷ xs) = omega (arith, length-map_nat f xs)

get_elem?-append_left {ℓ} :
    {A : Type ℓ} (i : ℕ) (xs ys : List A) → i < length xs → get_elem? (xs ++ ys) i ≡ get_elem? xs i
get_elem?-append_left i [] ys h = elim h [ ]
get_elem?-append_left zero (x ∷ xs) ys h = refl
get_elem?-append_left (suc i) (x ∷ xs) ys h = get_elem?-append_left i xs ys (omega arith)

get_elem?-append_last {ℓ} :
    {A : Type ℓ} (xs : List A) (a : A) → get_elem? (xs ++ a ∷ []) (length xs) ≡ some a
get_elem?-append_last [] a = refl
get_elem?-append_last (x ∷ xs) a = get_elem?-append_last xs a

get_elem?-map {ℓ κ} :
    {A : Type ℓ} {B : Type κ} (f : A → B) (i : ℕ) (xs : List A) {a : A}
    → get_elem? xs i ≡ some a
    → get_elem? (map f xs) i ≡ some (f a)
get_elem?-map f i [] h = cc
get_elem?-map f zero (x ∷ xs) h = cc
get_elem?-map f (suc i) (x ∷ xs) h = get_elem?-map f i xs h

some_inj {ℓ} : {A : Type ℓ} {a b : A} → some a ≡ some b → a ≡ b
some_inj h = cc

module _ (fl : Float) (react : KeyedByIndex) where
  -- Removing a leg that is not the last of three or more leaves its text behind: the row that now shows
  -- the next leg still shows the text that was typed for the removed one.
  pub remove_row-shifts :
      (i : ℕ) (r : Rows)
      → 2 < length r.legs
      → length r.texts ≡ length r.legs
      → suc i < length r.legs
      → (get_elem? (remove_row fl react i r).legs i ≡ get_elem? r.legs (suc i))
        × (get_elem? (remove_row fl react i r).texts i ≡ get_elem? r.texts i)
  unfolding remove_row
  remove_row-shifts i r many same inner =
      let e : leb (length r.legs) 2 ≡ false = ground arith in
      rw e (
        get_elem?-remove_at i r.legs,
        react.kept _ r.texts i
            (omega (
              arith,
              length-map_nat (first_text fl react) (remove_at i r.legs),
              length-remove_at_lt i r.legs,
            ))
            (omega arith),
      )

  -- So a row in step falls out of step where the next leg's amount differs.
  pub remove_row-OutOfStep :
      (i : ℕ) (r : Rows) {l m : Leg}
      → 2 < length r.legs
      → length r.texts ≡ length r.legs
      → suc i < length r.legs
      → get_elem? r.legs i ≡ some l
      → get_elem? r.legs (suc i) ≡ some m
      → l.cents ≢ m.cents
      → InStep fl react r i
      → ¬ InStep fl react (remove_row fl react i r) i
  remove_row-OutOfStep i r many same inner el em differ (l1, t1, e1, f1, p1) (l2, t2, e2, f2, p2) =
      let (legs_shift, texts_stay) = remove_row-shifts i r many same inner in
      differ (ground (arith, ap (parse_dollars fl) (some_inj (sym f1 ∙ (sym texts_stay ∙ f2)))))

  type_text_self :
      (i : ℕ) (text : String) (r : Rows) {l : Leg} {t : String}
      → get_elem? r.legs i ≡ some l
      → get_elem? r.texts i ≡ some t
      → InStep fl react (type_text fl react i text r) i
  unfolding type_text
  type_text_self i text r {l} el et = (
    patched (set_cents (parse_dollars fl text)) l,
    text,
    get_elem?-update_at_self i _ r.legs el,
    get_elem?-update_at_self i _ r.texts et,
    refl,
  )

  type_text-InStep :
      (i j : ℕ) (text : String) (r : Rows)
      → InStep fl react r j
      → InStep fl react (type_text fl react i text r) j
  unfolding type_text
  type_text-InStep i j text r (l, t, el, et, p) = elim (ℕ_discrete i j) [
    | yes same ↦
        subst (λ (k : ℕ). InStep fl react (type_text fl react k text r) j) (sym same)
          (type_text_self j text r el et)
    | no other ↦ (
      l,
      t,
      get_elem?-update_at_ne i j _ r.legs other ∙ el,
      get_elem?-update_at_ne i j _ r.texts other ∙ et,
      p,
    )
  ]

  -- Every row is there, and in step.
  pub record AllInStep (r : Rows) : Type 0 where
    pub same_length : length r.texts ≡ length r.legs
    pub each : (i : ℕ) → i < length r.legs → InStep fl react r i

  type_text-AllInStep :
      (i : ℕ) (text : String) (r : Rows) → AllInStep r → AllInStep (type_text fl react i text r)
  unfolding type_text
  type_text-AllInStep i text r h = record {
    same_length = omega (
      arith,
      h.same_length,
      length-update_at i (patched (set_cents (parse_dollars fl text))) r.legs,
      length-update_at i (λ (_ : String). text) r.texts,
    );
    each = λ j lt. type_text-InStep i j text r (
        h.each j
          (omega (arith, length-update_at i (patched (set_cents (parse_dollars fl text))) r.legs)));
  }

  parse_dollars-empty : parse_dollars fl "" ≡ none
  unfolding parse_dollars trim
  parse_dollars-empty = refl

  -- What shows on a new row stands for what it holds: nothing.
  add_row-AllInStep : (r : Rows) → AllInStep r → AllInStep (add_row fl react r)
  unfolding add_row initial_text
  add_row-AllInStep r h =
      let grown = length-append_one r.legs new_leg in
      let same = length-map_nat (first_text fl react) (r.legs ++ new_leg ∷ []) in
      record {
        same_length = react.rerender_length _ r.texts ∙ same;
        each = λ i lt. elim (dec_lt i (length r.legs)) [
          | yes old ↦
              let (l, t, el, et, p) = h.each i old in
              (
                l,
                t,
                get_elem?-append_left i r.legs _ old ∙ el,
                react.kept _ r.texts i (omega arith) (omega (arith, h.same_length)) ∙ et,
                p,
              )
          | no new ↦
              let last : i ≡ length r.legs = omega arith in
              let leg_is : get_elem? (r.legs ++ new_leg ∷ []) i ≡ some new_leg =
                ap (get_elem? (r.legs ++ new_leg ∷ [])) last
                ∙ get_elem?-append_last r.legs new_leg in
              (
                new_leg,
                "",
                leg_is,
                react.fresh _ r.texts i (omega arith) (omega (arith, h.same_length))
                    ∙ get_elem?-map (first_text fl react) i (r.legs ++ new_leg ∷ []) leg_is,
                parse_dollars-empty,
              )
        ];
      }

  -- Typing and adding legs, in any order.
  pub data Edit : Type 0 where
    typed : ℕ → String → Edit
    added : Edit

  unfoldable pub edits : List Edit → Rows → Rows
  edits [] r = r
  edits (typed i text ∷ rest) r = edits rest (type_text fl react i text r)
  edits (added ∷ rest) r = edits rest (add_row fl react r)

  -- Rows that are all in step stay in step under typing into any row and adding rows.
  pub edits-AllInStep : (es : List Edit) (r : Rows) → AllInStep r → AllInStep (edits es r)
  unfolding edits
  edits-AllInStep [] r h = h
  edits-AllInStep (typed i text ∷ rest) r h =
      edits-AllInStep rest _ (type_text-AllInStep i text r h)
  edits-AllInStep (added ∷ rest) r h = edits-AllInStep rest _ (add_row-AllInStep r h)
