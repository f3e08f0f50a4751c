-- ===== src/Tests/Forms.antt =====
-- The form that posts a transaction at concrete inputs.
use core_banking_system.Prelude.{
  ◌≡◌, ◌≢◌, ℕ, zero, suc, Option, refl, ◌≤◌, ◌<◌, true, false, none, some, [], ◌∷◌, arith, length,
  every, truthy, get_elem?, ap, or_else, trim,
}
use core_banking_system.Prelude.Int.{ℤ, ◌+ℤ◌, pos, pos_part}
use core_banking_system.Enums.{debit, credit, TransactionStatus}
use core_banking_system.Types.Ledger.{Transaction}
use core_banking_system.Client.Errors.{api_error}
use core_banking_system.Backend.Posting.{validate_entries}
use core_banking_system.Forms.Reply.{succeeded, failed}
use core_banking_system.Forms.PostTransaction.{
  State, request_of, submit, add_leg, set_description, settled, step, empty_legs,
}
use core_banking_system.Forms.PostTransaction.Submission.{submit-validate_entries, submit-settled}
use core_banking_system.Forms.PostTransaction.Invariant.{
  start, next, Reach-two_legs, run, keeps_key, run_key,
}
use core_banking_system.Forms.PostTransaction.Display.{Rows, remove_row, InStep}
use core_banking_system.Forms.PostTransaction.Typing.{
  remove_row-shifts, remove_row-OutOfStep, AllInStep, edits, typed, added, edits-AllInStep,
}
use core_banking_system.Money.{parse_dollars}
use core_banking_system.Tests.Instances.{few_numbers, by_index}

abbrev filled : State
filled = record {
  is_open = true;
  legs =
      record { account_id = "a1"; direction = debit; cents = some (pos 500) }
      ∷ record { account_id = "a2"; direction = credit; cents = some (pos 500) }
      ∷ [];
  idempotency_key = "k1";
  description = "rent";
  booking_date = "";
  value_date = "2026-01-01";
}

submit-validate_entries_example :
    (validate_entries (request_of filled).entries ≡ none)
    × (every (λ e. truthy e.account_id) (request_of filled).entries ≡ true)
unfolding submit ◌+ℤ◌ truthy trim
submit-validate_entries_example =
    submit-validate_entries (λ x. x) (λ n h. refl) filled (omega arith) refl

abbrev started : State
started = record {
  is_open = false;
  legs = empty_legs;
  idempotency_key = "k1";
  description = "";
  booking_date = "";
  value_date = "";
}

Reach-two_legs_example : 2 ≤ length (step add_leg started).legs
Reach-two_legs_example = Reach-two_legs (next add_leg (start "k1"))

run_key_example :
    (run
      (set_description "rent" ∷ settled (failed (api_error 502 "")) "k2" ∷ [])
      filled).idempotency_key
    ≡ "k1"
unfolding keeps_key
run_key_example =
    run_key (set_description "rent" ∷ settled (failed (api_error 502 "")) "k2" ∷ []) filled refl

-- Three legs of 5.00, 15.00 and 25.00.
abbrev three_rows : Rows
three_rows = record {
  legs =
      record { account_id = "a1"; direction = debit; cents = some (pos 500) }
      ∷ record { account_id = "a2"; direction = debit; cents = some (pos 1500) }
      ∷ record { account_id = "a3"; direction = credit; cents = some (pos 2500) }
      ∷ [];
  texts = "5" ∷ "15" ∷ "25" ∷ [];
}

remove_row-shifts_example :
    (get_elem? (remove_row few_numbers by_index 0 three_rows).legs 0 ≡ get_elem? three_rows.legs 1)
    × (get_elem? (remove_row few_numbers by_index 0 three_rows).texts 0
        ≡ get_elem? three_rows.texts 0)
remove_row-shifts_example =
    remove_row-shifts few_numbers by_index 0 three_rows (omega arith) refl (omega arith)

five_not_fifteen : some (pos 500) ≢ some (pos 1500)
five_not_fifteen h =
    let e : Path ℕ 500 1500 = ap (λ (o : Option ℤ). pos_part (or_else o (pos 0))) h in omega arith

remove_row-OutOfStep_example :
    ¬ InStep few_numbers by_index (remove_row few_numbers by_index 0 three_rows) 0
unfolding parse_dollars trim
remove_row-OutOfStep_example =
    remove_row-OutOfStep few_numbers by_index 0 three_rows (omega arith) refl (omega arith) refl
      refl five_not_fifteen
      (
        record { account_id = "a1"; direction = debit; cents = some (pos 500) },
        "5",
        refl,
        refl,
        refl,
      )

abbrev two_rows : Rows
two_rows = record { legs = filled.legs; texts = "5" ∷ "5" ∷ [] }

each_of_two : (i : ℕ) → i < 2 → InStep few_numbers by_index two_rows i
unfolding parse_dollars trim
each_of_two zero h = (_, _, refl, refl, refl)
each_of_two (suc zero) h = (_, _, refl, refl, refl)
each_of_two (suc (suc i)) h = absurd (omega arith)

two_rows_in_step : AllInStep few_numbers by_index two_rows
two_rows_in_step = record { same_length = refl; each = each_of_two }

edits-AllInStep_example :
    AllInStep few_numbers by_index
      (edits few_numbers by_index (added ∷ typed 2 "15" ∷ typed 0 "25" ∷ []) two_rows)
edits-AllInStep_example =
    edits-AllInStep few_numbers by_index (added ∷ typed 2 "15" ∷ typed 0 "25" ∷ []) two_rows
      two_rows_in_step

abbrev posted_tx : Transaction
posted_tx = record {
  id = "t1";
  idempotency_key = some "k1";
  entries = [];
  booking_date = "";
  value_date = "";
  status = TransactionStatus.posted;
  description = none;
  metadata = none;
  reversal_of = none;
  created_at = "";
}

submit-settled_example :
    (submit (λ x. x) (step (settled (succeeded posted_tx) "k2") filled) ≡ none)
    × (submit (λ x. x) (step (settled (failed (api_error 409 "")) "k2") filled)
        ≡ submit (λ x. x) filled)
submit-settled_example = submit-settled (λ x. x) posted_tx (api_error 409 "") "k2" filled
