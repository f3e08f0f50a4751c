-- ===== src/Forms/PostTransaction/View.antt =====
-- What web/src/components/forms/post-transaction-form.tsx shows in a state of the form.
use core_banking_system.Prelude.{
  ◌≡◌, String, Bool, false, some, List, [], ◌∷◌, map, length, leb, ◌||◌, not, is_some, arith,
  if◌then◌else◌,
}
use core_banking_system.Prelude.Int.{ℤ}
use core_banking_system.Enums.{direction_wire}
use core_banking_system.Endpoints.AllAccounts.{AccountWithContext}
use core_banking_system.Ui.Node.{Node, text, money, ◌▹◌}
use core_banking_system.Ui.Parts.{Answer}
use core_banking_system.Ui.Combobox.{gl_account_picker}
use core_banking_system.Forms.Field.{Control, input, date, menu, picker, Field, field}
use core_banking_system.Forms.PostTransaction.{Leg, State, debits, credits, balanced, ready, submit}

-- A leg's controls, and whether its button is disabled. The amount is in cents; its text is in Display.
pub record LegView : Type 0 where
  pub account : Control
  pub direction : Control
  pub cents : Control
  pub remove_disabled : Bool

pub record View : Type 0 where
  pub trigger : String
  pub title : String
  pub title_hint : String
  pub description : String
  pub legs_hint : String
  pub legs : List LegView
  pub balance : Node
  pub fields : List Field
  pub idempotency_key : String
  pub button : String
  pub disabled : Bool

unfoldable pub leg_view : Answer (List AccountWithContext) → String → List Leg → Leg → LegView
unfolding gl_account_picker direction_wire
leg_view accounts pid legs l = record {
  account = picker (gl_account_picker pid accounts) l.account_id;
  direction = menu "" (direction_wire l.direction) (("Debit", "Debit") ∷ ("Credit", "Credit") ∷ []);
  cents = Control.money l.cents;
  remove_disabled = leb (length legs) 2;
}

unfoldable pub metadata_fields : State → List Field
metadata_fields s =
    record {
      id = "tx-booking";
      label = "Booking date";
      hint = some "booking-date";
      required = false;
      control = date s.booking_date;
    }
    ∷ record {
      id = "tx-value";
      label = "Value date";
      hint = some "value-date";
      required = false;
      control = date s.value_date;
    }
    ∷ field "tx-desc" "Description" (input "optional" s.description)
    ∷ []

module _ (round : ℤ → ℤ) where
  -- The balance indicator.
  unfoldable pub balance_indicator : List Leg → Node
  unfolding debits credits balanced
  balance_indicator legs =
      text "Debits "
      ▹ money (debits round legs)
      ▹ text " · Credits "
      ▹ money (credits round legs)
      ▹ text (if balanced round legs then "Balanced ✓" else "Not balanced")

  unfoldable pub view : Bool → Answer (List AccountWithContext) → String → State → View
  unfolding leg_view balance_indicator metadata_fields ready
  view pending accounts pid s = record {
    trigger = "Post transaction";
    title = "Post transaction";
    title_hint = "double-entry";
    description =
        "Add legs until total debits equal total credits. Amounts are in euros; they’re stored as integer cents.";
    legs_hint = "amount-cents";
    legs = map (leg_view accounts pid s.legs) s.legs;
    balance = balance_indicator s.legs;
    fields = metadata_fields s;
    idempotency_key = s.idempotency_key;
    button = if pending then "Posting…" else "Post transaction";
    disabled = not (ready round s.legs) || pending;
  }

  -- The button is enabled exactly where submitting sends a posting that is not already being sent.
  view-submit :
      (accounts : Answer (List AccountWithContext)) (pid : String) (pending : Bool) (s : State)
      → (view pending accounts pid s).disabled ≡ (not (is_some (submit round s)) || pending)
  unfolding view submit
  view-submit accounts pid pending s = ground arith
