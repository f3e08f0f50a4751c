-- ===== src/Forms/PostTransaction.antt =====
-- web/src/components/forms/post-transaction-form.tsx: the form that posts a ledger transaction.
-- Its events are the user's actions and the settling of the request. `newIdempotencyKey`
-- (web/src/lib/idempotency.ts) is a fresh key, which the event that asks for one carries.
pub mod Submission
pub mod Invariant
pub mod Display
pub mod Typing
pub mod View
use core_banking_system.Prelude.{
  ℕ, String, Bool, true, false, Option, none, some, List, [], ◌∷◌, ◌++◌, map, ◌&&◌, ◌+s◌, truthy,
  trim, if◌then◌else◌, or_else, length, filter, every, update_at, remove_at, leb,
}
use core_banking_system.Prelude.Int.{ℤ, pos, ◌+ℤ◌, ltb_ℤ, eqb_ℤ}
use core_banking_system.Enums.{Direction, debit, credit}
use core_banking_system.Client.Errors.{Thrown, describe_error}
use core_banking_system.Types.Ledger.{Transaction}
use core_banking_system.Types.Requests.{Optional, null, given, EntryInput, PostTransactionRequest}
use core_banking_system.Forms.Reply.{Reply, succeeded, failed, Toast}

pub record Leg : Type 0 where
  pub account_id : String
  pub direction : Direction
  pub cents : Option ℤ

abbrev pub empty_legs : List Leg
empty_legs =
    record { account_id = ""; direction = debit; cents = none }
    ∷ record { account_id = ""; direction = credit; cents = none }
    ∷ []

-- The day at midnight UTC; null for no date.
unfoldable pub date_to_rfc3339 : String → Optional String
date_to_rfc3339 date = if truthy date then given (date +s "T00:00:00.000Z") else null

pub record State : Type 0 where
  pub is_open : Bool
  pub legs : List Leg
  pub idempotency_key : String
  pub description : String
  pub booking_date : String
  pub value_date : String

abbrev pub is_debit : Leg → Bool
is_debit l = elim l.direction [ debit ↦ true | credit ↦ false ]

abbrev pub is_credit : Leg → Bool
is_credit l = elim l.direction [ debit ↦ false | credit ↦ true ]

abbrev pub amount_of : Leg → ℤ
amount_of l = or_else l.cents (pos 0)

abbrev pub leg_ready : Leg → Bool
leg_ready l = truthy (trim l.account_id) && ltb_ℤ (pos 0) (amount_of l)

abbrev pub entry_of : Leg → EntryInput
entry_of l = record {
  account_id = trim l.account_id;
  amount = amount_of l;
  direction = l.direction;
}

abbrev pub request_of : State → PostTransactionRequest
request_of s = record {
  idempotency_key = s.idempotency_key;
  entries = map entry_of s.legs;
  booking_date = date_to_rfc3339 s.booking_date;
  value_date = date_to_rfc3339 s.value_date;
  description = some (trim s.description);
  metadata = null;
}

-- Amounts are JavaScript numbers: a sum is rounded to one, which is an argument. Amounts are finite.
module _ (round : ℤ → ℤ) where
  -- The `reduce` of the two totals.
  unfoldable pub sum_from : ℤ → List Leg → ℤ
  sum_from s [] = s
  sum_from s (l ∷ ls) = sum_from (round (s +ℤ amount_of l)) ls

  unfoldable pub debits : List Leg → ℤ
  unfolding sum_from
  debits legs = sum_from (pos 0) (filter is_debit legs)

  unfoldable pub credits : List Leg → ℤ
  unfolding sum_from
  credits legs = sum_from (pos 0) (filter is_credit legs)

  unfoldable pub balanced : List Leg → Bool
  unfolding debits credits
  balanced legs = eqb_ℤ (debits legs) (credits legs) && ltb_ℤ (pos 0) (debits legs)

  unfoldable pub ready : List Leg → Bool
  unfolding balanced
  ready legs = balanced legs && every leg_ready legs

  -- `submit`: the request that is sent, if the form is ready.
  unfoldable pub submit : State → Option PostTransactionRequest
  unfolding ready
  submit s = if ready s.legs then some (request_of s) else none

-- `reset`, with the new key.
unfoldable pub reset : String → State → State
reset key s = record {
  is_open = s.is_open;
  legs = empty_legs;
  idempotency_key = key;
  description = "";
  booking_date = "";
  value_date = "";
}

-- A change of one leg.
pub data Patch : Type 0 where
  set_account : String → Patch
  set_direction : Direction → Patch
  set_cents : Option ℤ → Patch

abbrev pub patched : Patch → Leg → Leg
patched (set_account a) l = record l { account_id = a }
patched (set_direction d) l = record l { direction = d }
patched (set_cents c) l = record l { cents = c }

pub data Event : Type 0 where
  open_change : Bool → String → Event
  update_leg : ℕ → Patch → Event
  add_leg : Event
  remove_leg : ℕ → Event
  regenerate_key : String → Event
  set_description set_booking_date set_value_date : String → Event
  settled : Reply Transaction → String → Event

-- The leg that "Add leg" appends.
abbrev pub new_leg : Leg
new_leg = record { account_id = ""; direction = credit; cents = none }

-- The button that removes a leg is disabled while there are two legs or fewer.
unfoldable pub removed : ℕ → List Leg → List Leg
removed i legs = if leb (length legs) 2 then legs else remove_at i legs

unfoldable pub step : Event → State → State
unfolding reset removed
step (open_change o key) s =
    if o then reset key (record s { is_open = o }) else record s { is_open = o }
step (update_leg i p) s = record s { legs = update_at i (patched p) s.legs }
step add_leg s = record s { legs = s.legs ++ new_leg ∷ [] }
step (remove_leg i) s = record s { legs = removed i s.legs }
step (regenerate_key key) s = record s { idempotency_key = key }
step (set_description d) s = record s { description = d }
step (set_booking_date d) s = record s { booking_date = d }
step (set_value_date d) s = record s { value_date = d }
step (settled (succeeded tx) key) s = record (reset key s) { is_open = false }
step (settled (failed e) key) s = s

-- The toast of a settled request.
unfoldable pub toast : Reply Transaction → Toast
toast (succeeded tx) = Toast.success ("Posted transaction " +s tx.id)
toast (failed e) = Toast.error (describe_error e)
