-- ===== src/Ui/Parts.antt =====
-- Small components: web/src/components/page-header.tsx, web/src/components/error-state.tsx,
-- web/src/components/hint.tsx, web/src/components/money.tsx, web/src/components/enum-badge.tsx and
-- web/src/components/copy-id.tsx; and the answer of a query hook, which they show.
use core_banking_system.Prelude.{
  String, Bool, true, false, Option, none, some, ◌+s◌, truthy, if◌then◌else◌,
}
use core_banking_system.Prelude.Int.{ℤ, pos, ltb_ℤ}
use core_banking_system.Enums.{AccountType, account_type_wire, Direction, direction_wire}
use core_banking_system.Enums.Tone.{enum_badge, account_type_tone, direction_badge}
use core_banking_system.Client.Errors.{Thrown, describe_error}
use core_banking_system.Forms.Reply.{Toast}
use core_banking_system.Ui.Node.{Node, nothing, text, badge, hint, problem, ◌▹◌}

-- What a query hook returns: `data`, `isLoading` and `error`.
pub record Answer (A : Type 0) : Type 0 where
  pub result : Option A
  pub is_loading : Bool
  pub failure : Option Thrown

-- `ErrorState`, with or without a retry.
unfoldable pub error_state : Thrown → Bool → Node
error_state e retry = problem (describe_error e) retry

unfoldable pub status_badge : String → Node
unfolding enum_badge
status_badge v = badge v (enum_badge v)

unfoldable pub account_type_badge : AccountType → Node
unfolding account_type_wire account_type_tone
account_type_badge t = badge (account_type_wire t) (account_type_tone t)

unfoldable pub direction_pill : Direction → Node
unfolding direction_wire direction_badge
direction_pill d = badge (direction_wire d) (direction_badge (direction_wire d))

-- An optional hint; an optional text, where an absent and an empty one show nothing.
abbrev pub hint_of : Option String → Node
hint_of none = nothing
hint_of (some id) = hint id

unfoldable pub when_text : Option String → (String → Node) → Node
when_text none show = nothing
when_text (some s) show = if truthy s then show s else nothing

-- `x || d` of a field `x?: string`.
unfoldable pub or_text : Option String → String → String
or_text none d = d
or_text (some s) d = if truthy s then s else d

unfoldable pub page_header : String → Option String → Option String → Node → Node
unfolding when_text
page_header title hint_id description actions =
    text title ▹ hint_of hint_id ▹ when_text description text ▹ actions

-- `Row` and `DetailRow`: a label with an optional hint, and a value.
unfoldable pub labelled : String → Option String → Node → Node
labelled label hint_id value = text label ▹ hint_of hint_id ▹ value

-- A page shows the error where there is one, whatever else there is.
unfoldable pub or_error : {A : Type 0} → Answer A → Bool → Node → Node
unfolding error_state
or_error a retry content = elim a.failure [ none ↦ content | some e ↦ error_state e retry ]

-- A detail page: the error, the skeleton while there is nothing, or the content.
unfoldable pub detail : {A : Type 0} → Answer A → Node → (A → Node) → Node
unfolding or_error
detail a waiting content =
    or_error a true
      (if a.is_loading then waiting else elim a.result [ none ↦ waiting | some x ↦ content x ])

-- The colour of an `AmountCell`.
pub data Colour : Type 0 where
  emerald red foreground : Colour

unfoldable pub amount_colour : ℤ → Colour
amount_colour cents =
    if ltb_ℤ (pos 0) cents
    then Colour.emerald
    else if ltb_ℤ cents (pos 0)
    then Colour.red
    else Colour.foreground

-- `CopyId`: the mark of a copied id, until the timer runs out, and the toast.
pub data CopyEvent : Type 0 where
  copied refused timed_out : CopyEvent

unfoldable pub copy_step : CopyEvent → Bool → Bool
copy_step CopyEvent.copied marked = true
copy_step CopyEvent.refused marked = marked
copy_step CopyEvent.timed_out marked = false

unfoldable pub copy_toast : CopyEvent → String → Option Toast
copy_toast CopyEvent.copied id = some (Toast.success ("Copied " +s id))
copy_toast CopyEvent.refused id = some (Toast.error "Couldn't copy to clipboard")
copy_toast CopyEvent.timed_out id = none
