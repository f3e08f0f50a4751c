-- ===== src/Enums/Tone.antt =====
-- The badge tones: `STATUS_TONE` and `ACCOUNT_TYPE_TONE` of web/src/lib/enums.ts, and the badges of
-- web/src/components/enum-badge.tsx that look a value up in them.
use core_banking_system.Prelude.{
  String, Option, none, some, List, [], ◌∷◌, ◌=?◌, if◌then◌else◌, or_else,
}
use core_banking_system.Enums.{
  AccountType, asset, liability, equity, revenue, expense, TransactionStatus, DepositStatus,
  HoldStatus, PaymentStatus, MandateStatus, CycleStatus, transaction_status_wire,
  deposit_status_wire, hold_status_wire, payment_status_wire, mandate_status_wire,
  cycle_status_wire,
}

pub data Tone : Type 0 where
  neutral good warn bad info : Tone

-- `STATUS_TONE`, keyed by the wire value; the entries of the source, in its order.
abbrev pub status_tone : List (String × Tone)
status_tone =
    ("Posted", good)
    ∷ ("Reversed", warn)
    ∷ ("Active", good)
    ∷ ("Dormant", warn)
    ∷ ("Frozen", info)
    ∷ ("Closed", neutral)
    ∷ ("Released", neutral)
    ∷ ("Captured", good)
    ∷ ("Initiated", info)
    ∷ ("Accepted", info)
    ∷ ("Cleared", info)
    ∷ ("Settled", good)
    ∷ ("Rejected", bad)
    ∷ ("Returned", warn)
    ∷ ("Revoked", bad)
    ∷ ("Open", info)
    ∷ []

unfoldable pub tone_of : String → List (String × Tone) → Option Tone
tone_of v [] = none
tone_of v ((k, t) ∷ rest) = if k =? v then some t else tone_of v rest

-- `EnumBadge`: an unknown value falls back to neutral.
unfoldable pub enum_badge : String → Tone
unfolding tone_of
enum_badge v = or_else (tone_of v status_tone) neutral

-- `ACCOUNT_TYPE_TONE`, which `AccountTypeBadge` shows.
unfoldable pub account_type_tone : AccountType → Tone
account_type_tone asset = info
account_type_tone liability = warn
account_type_tone equity = good
account_type_tone revenue = good
account_type_tone expense = bad

-- `DirectionBadge`: any text that is not "Debit" is shown as a credit.
unfoldable pub direction_badge : String → Tone
direction_badge d = if d =? "Debit" then info else good

-- A status of any of the six unions that a badge shows.
pub data Status : Type 0 where
  of_transaction : TransactionStatus → Status
  of_deposit : DepositStatus → Status
  of_hold : HoldStatus → Status
  of_payment : PaymentStatus → Status
  of_mandate : MandateStatus → Status
  of_cycle : CycleStatus → Status

unfoldable pub status_wire : Status → String
unfolding transaction_status_wire deposit_status_wire hold_status_wire payment_status_wire
    mandate_status_wire cycle_status_wire
status_wire (of_transaction s) = transaction_status_wire s
status_wire (of_deposit s) = deposit_status_wire s
status_wire (of_hold s) = hold_status_wire s
status_wire (of_payment s) = payment_status_wire s
status_wire (of_mandate s) = mandate_status_wire s
status_wire (of_cycle s) = cycle_status_wire s
