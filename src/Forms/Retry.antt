-- ===== src/Forms/Retry.antt =====
-- What a form sends after its request has settled.
use core_banking_system.Prelude.{trim, ◌≡◌, refl, String, false, Option, none, some}
use core_banking_system.Prelude.Int.{ℤ}
use core_banking_system.Client.Errors.{Thrown}
use core_banking_system.Forms.Reply.{succeeded, failed}
use core_banking_system.Forms.Form.{
  Form, submitted, settle, create_hold, capture_hold, fund_deposit, open_deposit_account,
  open_cycle, create_mandate, initiate_payment, add_participant, create_ledger, create_subledger,
  create_account, take_snapshot,
}

blank_counterparty :
    (pid hid : String) (o : Option ℤ)
    → submitted (
        capture_hold pid hid
          (record { is_open = false; counterparty = ""; amount_cents = o; description = "" }))
      ≡ none
unfolding submitted trim
blank_counterparty pid hid none = refl
blank_counterparty pid hid (some a) = refl

submitted-succeeded {ℓ} :
    {A : Type ℓ} (answer : A) (f : Form) → submitted (settle (succeeded answer) f) ≡ none
unfolding submitted settle trim
submitted-succeeded answer (create_hold pid did s) = refl
submitted-succeeded answer (capture_hold pid hid s) = blank_counterparty pid hid s.amount_cents
submitted-succeeded answer (fund_deposit pid did s) = refl
submitted-succeeded answer (open_deposit_account pid s) = refl
submitted-succeeded answer (open_cycle s) = refl
submitted-succeeded answer (create_mandate s) = refl
submitted-succeeded answer (initiate_payment schemes s) = refl
submitted-succeeded answer (add_participant s) = refl
submitted-succeeded answer (create_ledger pid s) = refl
submitted-succeeded answer (create_subledger pid lid s) = refl
submitted-succeeded answer (create_account pid sid s) = refl
submitted-succeeded answer (take_snapshot pid did date) = refl

submitted_failed {ℓ} :
    (A : Type ℓ) (e : Thrown) (f : Form) → submitted (settle {A = A} (failed e) f) ≡ submitted f
unfolding settle
submitted_failed A e (create_hold pid did s) = refl
submitted_failed A e (capture_hold pid hid s) = refl
submitted_failed A e (fund_deposit pid did s) = refl
submitted_failed A e (open_deposit_account pid s) = refl
submitted_failed A e (open_cycle s) = refl
submitted_failed A e (create_mandate s) = refl
submitted_failed A e (initiate_payment schemes s) = refl
submitted_failed A e (add_participant s) = refl
submitted_failed A e (create_ledger pid s) = refl
submitted_failed A e (create_subledger pid lid s) = refl
submitted_failed A e (create_account pid sid s) = refl
submitted_failed A e (take_snapshot pid did date) = refl

-- A form whose request has succeeded sends nothing until it is filled again, so that the same request is
-- not sent twice. One whose request has failed keeps what was typed, and sends the same request again.
pub submitted-settle {ℓ} :
    {A : Type ℓ} (answer : A) (e : Thrown) (f : Form)
    → (submitted (settle (succeeded answer) f) ≡ none)
      × (submitted (settle {A = A} (failed e) f) ≡ submitted f)
unfolding settle
submitted-settle {A = A} answer e f = (submitted-succeeded answer f, submitted_failed A e f)
