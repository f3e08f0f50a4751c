-- ===== src/Ui/Dates.antt =====
-- web/src/lib/dates.ts: how a timestamp is shown. `Date` and its formatting for a locale are arguments: a
-- text that is no date has no rendering.
use core_banking_system.Prelude.{
  String, Bool, Option, none, some, ◌||◌, not, truthy, starts_with, if◌then◌else◌, or_else,
}

-- `new Date(iso).toLocaleString` and `toLocaleDateString` with the options of the source, for a valid date.
pub record Calendar : Type 0 where
  pub date_time : String → Option String
  pub day : String → Option String

-- The test in front of both functions: there is no text, or it is Go's zero time.
unfoldable pub is_blank_time : String → Bool
is_blank_time iso = not (truthy iso) || starts_with iso "0001-01-01"

-- A field `iso?: string`.
unfoldable pub shown_time : (String → Option String) → Option String → String
unfolding is_blank_time
shown_time show none = "—"
shown_time show (some iso) = if is_blank_time iso then "—" else or_else (show iso) "—"

unfoldable pub format_date_time : Calendar → Option String → String
unfolding shown_time
format_date_time c iso = shown_time c.date_time iso

unfoldable pub format_date : Calendar → Option String → String
unfolding shown_time
format_date c iso = shown_time c.day iso
