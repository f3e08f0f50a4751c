-- ===== src/Forms/Field.antt =====
-- What a form shows: its dialog's texts, its labelled fields with the controls in them, and its submit
-- button (web/src/components/field-label.tsx, money.tsx and ui/dialog.tsx as the forms use them).
use core_banking_system.Prelude.{
  String, Bool, true, false, Option, none, List, ◌&&◌, not, any, is_some, truthy, trim,
}
use core_banking_system.Prelude.Int.{ℤ}
use core_banking_system.Ui.Combobox.{Box}

-- A control with its value: a text box with its placeholder, a date, an amount in cents, a menu with its
-- placeholder and its options (value and text), and a picker.
pub data Control : Type 0 where
  input : String → String → Control
  date : String → Control
  money : Option ℤ → Control
  menu : String → String → List (String × String) → Control
  picker : Box → String → Control

pub record Field : Type 0 where
  pub id : String
  pub label : String
  pub hint : Option String
  pub required : Bool
  pub control : Control

pub record Dialog : Type 0 where
  pub trigger : String
  pub title : String
  pub description : Option String
  pub fields : List Field
  pub button : String
  pub disabled : Bool

abbrev pub field : String → String → Control → Field
field id label c = record { id = id; label = label; hint = none; required = false; control = c }

abbrev pub required_field : String → String → Option String → Control → Field
required_field id label hint c = record {
  id = id;
  label = label;
  hint = hint;
  required = true;
  control = c;
}

-- A control that nothing was put in.
unfoldable pub blank : Control → Bool
unfolding trim truthy
blank (input placeholder v) = not (truthy (trim v))
blank (date v) = not (truthy v)
blank (money v) = not (is_some v)
blank (menu placeholder v options) = not (truthy v)
blank (picker b v) = not (truthy (trim v))

-- Some field that is marked as required is blank.
unfoldable pub lacks : List Field → Bool
unfolding blank
lacks fs = any (λ f. f.required && blank f.control) fs
