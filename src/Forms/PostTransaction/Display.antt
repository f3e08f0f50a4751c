-- ===== src/Forms/PostTransaction/Display.antt =====
-- The rows that web/src/components/forms/post-transaction-form.tsx shows: a leg's amount is typed in a
-- `MoneyInput` (web/src/components/money.tsx), which keeps its own text. The rows are keyed by their
-- index, and React keeps the state of a child whose key is rendered again.
use core_banking_system.Prelude.{
  ◌≡◌, ℕ, ◌≤◌, ◌<◌, String, some, List, [], ◌∷◌, ◌++◌, map, length, get_elem?, update_at,
}
use core_banking_system.Money.{Float, initial_text, parse_dollars, handle_change}
use core_banking_system.Forms.PostTransaction.{Leg, patched, set_cents, new_leg, removed}

-- React's reconciliation of children keyed by their index: a child whose index was there before keeps
-- its state, and a new one takes its initial state.
pub record KeyedByIndex : Type 1 where
  pub rerender : List String → List String → List String
  pub rerender_length : (initial old : List String) → length (rerender initial old) ≡ length initial
  pub kept :
      (initial old : List String) (i : ℕ)
      → i < length initial
      → i < length old
      → get_elem? (rerender initial old) i ≡ get_elem? old i
  pub fresh :
      (initial old : List String) (i : ℕ)
      → i < length initial
      → length old ≤ i
      → get_elem? (rerender initial old) i ≡ get_elem? initial i

-- The legs, and the texts of their rows.
pub record Rows : Type 0 where
  pub legs : List Leg
  pub texts : List String

module _ (fl : Float) (react : KeyedByIndex) where
  abbrev pub first_text : Leg → String
  first_text l = initial_text fl l.cents

  -- Rendering after a change of the legs.
  unfoldable pub shown : List Leg → List String → Rows
  shown legs texts = record { legs = legs; texts = react.rerender (map first_text legs) texts }

  -- Typing into row `i`: the input keeps the text, and its leg gets the cents that it stands for.
  unfoldable pub type_text : ℕ → String → Rows → Rows
  unfolding handle_change
  type_text i text r =
      let (kept_text, cents) = handle_change fl text in
      record {
        legs = update_at i (patched (set_cents cents)) r.legs;
        texts = update_at i (λ _. kept_text) r.texts;
      }

  -- "Add leg", and the button that removes a leg.
  unfoldable pub add_row : Rows → Rows
  unfolding shown
  add_row r = shown (r.legs ++ new_leg ∷ []) r.texts

  unfoldable pub remove_row : ℕ → Rows → Rows
  unfolding shown removed
  remove_row i r = shown (removed i r.legs) r.texts

  -- A row is in step if its text stands for its leg's cents.
  abbrev pub InStep : Rows → ℕ → Type 0
  InStep r i =
      (l : Leg) × (t : String) × (get_elem? r.legs i ≡ some l)
      × (get_elem? r.texts i ≡ some t)
      × (parse_dollars fl t ≡ l.cents)
