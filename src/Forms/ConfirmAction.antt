-- ===== src/Forms/ConfirmAction.antt =====
-- web/src/components/forms/confirm-action.tsx: the dialog that confirms an action, with a text that may
-- be required.
use core_banking_system.Prelude.{
  ◌≡◌, arith, is_some, String, Bool, false, Option, none, some, ◌&&◌, ◌||◌, not, truthy, trim,
  or_else, if◌then◌else◌,
}
use core_banking_system.Forms.Reply.{Reply, succeeded, failed}

pub record State : Type 0 where
  pub is_open : Bool
  pub text : String

abbrev pub initial : State
initial = record { is_open = false; text = "" }

-- `blocked`: the button is disabled.
unfoldable pub blocked : Bool → Bool → State → Bool
blocked required pending s = (required && not (truthy (trim s.text))) || pending

-- `handle`: the text that goes to `onConfirm`.
unfoldable pub handle : Bool → State → Option String
handle required s = if required && not (truthy (trim s.text)) then none else some (trim s.text)

-- What follows when the promise of `onConfirm` has settled.
unfoldable pub settle {ℓ} : {A : Type ℓ} → Reply A → State → State
settle (succeeded answer) s = record { is_open = false; text = "" }
settle (failed e) s = s

-- What the dialog shows.
pub record Props : Type 0 where
  pub title : String
  pub description : Option String
  pub confirm_label : Option String
  pub is_destructive : Bool
  pub field : Option (String × String × Bool)

pub record Shown : Type 0 where
  pub title : String
  pub description : Option String
  pub field : Option (String × String × String)
  pub button : String
  pub is_destructive : Bool
  pub disabled : Bool

-- The field is its label, its placeholder and whether a text is required.
unfoldable pub is_required : Option (String × String × Bool) → Bool
is_required none = false
is_required (some (label, placeholder, required)) = required

unfoldable pub shown : Props → Bool → State → Shown
unfolding blocked is_required
shown p pending s = record {
  title = p.title;
  description = p.description;
  field = elim p.field [
    | none ↦ none
    | some (label, placeholder, required) ↦ some (label, placeholder, s.text)
  ];
  button = if pending then "Working…" else or_else p.confirm_label "Confirm";
  is_destructive = p.is_destructive;
  disabled = blocked (is_required p.field) pending s;
}

-- The button is enabled exactly where clicking it calls `onConfirm` and no action is running.
shown-handle :
    (p : Props) (pending : Bool) (s : State)
    → (shown p pending s).disabled ≡ (not (is_some (handle (is_required p.field) s)) || pending)
unfolding shown blocked handle
shown-handle p pending s = ground arith
