-- ===== src/Money.antt =====
-- web/src/lib/money.ts and the state of `MoneyInput` (web/src/components/money.tsx). Amounts are integer
-- cents. `Number`, the test for NaN and `Math.round(value * 100)` work on floating-point numbers,
-- and are arguments, as is the currency format of `Intl`.
use core_banking_system.Prelude.{
  ℕ, zero, suc, ◌/◌, ◌%◌, String, Bool, Option, none, some, ◌+s◌, ◌=?◌, trim, if◌then◌else◌, nat_eq,
  List, [], ◌∷◌, get_elem?, or_else,
}
use core_banking_system.Prelude.Int.{ℤ, pos, negsuc}
use core_banking_system.Prelude.{◌≡◌, refl}

abbrev digits : List String
digits = "0" ∷ "1" ∷ "2" ∷ "3" ∷ "4" ∷ "5" ∷ "6" ∷ "7" ∷ "8" ∷ "9" ∷ []

unfoldable pub digit : ℕ → String
digit n = or_else (get_elem? digits n) ""

-- The decimal digits of a number; a number has fewer digits than its successor is large.
decimal_from : ℕ → ℕ → String
unfolding digit
decimal_from zero n = ""
decimal_from (suc fuel) n =
    let rest = decimal_from fuel (n / 10) in
    if nat_eq (n / 10) 0 then digit (n % 10) else rest +s digit (n % 10)

unfoldable pub decimal : ℕ → String
unfolding decimal_from
decimal n = decimal_from (suc n) n

-- A number of cents in major units, with two decimals.
unfoldable pub fixed : ℕ → String
unfolding decimal digit
fixed n = decimal (n / 100) +s ("." +s (digit (n % 100 / 10) +s digit (n % 10)))

-- `centsToInput`.
unfoldable pub cents_to_input : ℤ → String
unfolding fixed
cents_to_input (pos n) = fixed n
cents_to_input (negsuc n) = "-" +s fixed (suc n)

module _ (fmt : ℤ → String) where
  -- `formatCents`.
  unfoldable pub format_cents : ℤ → String
  format_cents cents = fmt cents

  -- `formatSigned`: the sign, and the absolute value.
  unfoldable pub format_signed : ℤ → String
  format_signed (pos zero) = "" +s fmt (pos 0)
  format_signed (pos (suc n)) = "+" +s fmt (pos (suc n))
  format_signed (negsuc n) = "-" +s fmt (pos (suc n))

-- Floating-point numbers, as `parseDollars` uses them: those that are finite, and NaN. The text Infinity is
-- left out.
pub record Float : Type 1 where
  pub Value : Type 0
  pub number : String → Value
  pub is_nan : Value → Bool
  pub round_cents : Value → ℤ

module _ (fl : Float) where
  -- `parseDollars`: null on a blank text and on one that is no number.
  unfoldable pub parse_dollars : String → Option ℤ
  parse_dollars input =
      let trimmed = trim input in
      let value = fl.number trimmed in
      if trimmed =? "" then none else if fl.is_nan value then none else some (fl.round_cents value)

  -- `MoneyInput`: the text that it holds, first shown for the amount that it is given.
  unfoldable pub initial_text : Option ℤ → String
  initial_text none = ""
  initial_text (some cents) = cents_to_input cents

  -- `handleChange`: the new text, and the cents that it emits.
  unfoldable pub handle_change : String → String × Option ℤ
  unfolding parse_dollars
  handle_change next = (next, parse_dollars next)

  -- On blur a valid text is shown with two decimals.
  unfoldable pub blur : String → String
  unfolding parse_dollars
  blur text = elim (parse_dollars text) [ none ↦ text | some cents ↦ cents_to_input cents ]

cents_to_input_test : cents_to_input (negsuc 1204) ≡ "-12.05"
unfolding cents_to_input
cents_to_input_test = refl
