-- ===== src/Tests/Dialogs.antt =====
-- The dialogs at concrete inputs.
use core_banking_system.Prelude.{
  ◌≡◌, refl, false, true, none, some, [], ◌∷◌, ◌||◌, not, is_some, truthy, trim,
}
use core_banking_system.Prelude.Int.{pos}
use core_banking_system.Enums
use core_banking_system.Types.Deposit.{DepositAccount}
use core_banking_system.Types.Payment.{PartyRef, Scheme}
use core_banking_system.Client.Errors.{api_error}
use core_banking_system.Forms.Reply.{succeeded, failed}
use core_banking_system.Forms.PartyRefFields.{
  empty_party_ref, change, pick_participant, pick_account,
}
use core_banking_system.Forms.PartyRefFields.Agreement.{Agrees, start, next, Reach-Agrees}
use core_banking_system.Forms.InitiatePayment
use core_banking_system.Forms.InitiatePayment.{needs_mandate, submit, request_of}
use core_banking_system.Forms.InitiatePayment.Completeness.{IsComplete, submit-IsComplete}
use core_banking_system.Ui.Parts.{Answer}
use core_banking_system.Forms.Field.{lacks}
use core_banking_system.Forms.Dialogs.{Answers, dialog_of}
use core_banking_system.Forms.Required.{dialog_of-submitted}
use core_banking_system.Forms.Form.{Form, submitted, settle}
use core_banking_system.Forms.Retry.{submitted-settle}

abbrev account_of_p1 : DepositAccount
account_of_p1 = record {
  id = "d1";
  gl_account = "a1";
  name = "Ada";
  status = Enums.DepositStatus.active;
  overdraft_limit = pos 0;
  created_at = "";
}

abbrev picked : PartyRef
picked =
    change (λ _. some (account_of_p1 ∷ [])) (pick_account "d1")
      (change (λ _. some (account_of_p1 ∷ [])) (pick_participant "p1") empty_party_ref)

Reach-Agrees_example : Agrees (λ _. some (account_of_p1 ∷ [])) picked
Reach-Agrees_example =
    Reach-Agrees (λ _. some (account_of_p1 ∷ []))
      (next (pick_account "d1") (next (pick_participant "p1") start))

abbrev direct_debit : Scheme
direct_debit = record {
  id = "sdd";
  direction = Enums.SchemeDirection.pull;
  settlement_model = Enums.SettlementModel.net;
  requires_mandate = true;
  allows_return = true;
  settlement_delay = "";
}

abbrev pull : InitiatePayment.State
pull = record {
  is_open = true;
  scheme = "sdd";
  debtor = record { participant = "p1"; account = "d1"; iban = none };
  creditor = record { participant = "p2"; account = "d2"; iban = none };
  amount_cents = some (pos 250);
  mandate_id = " m1 ";
  end_to_end_id = "";
  description = "";
}

submit-IsComplete_example :
    IsComplete (some (direct_debit ∷ [])) (request_of pull (pos 250))
    × (pull.amount_cents ≡ some (pos 250))
unfolding submit needs_mandate truthy trim request_of
submit-IsComplete_example = submit-IsComplete (some (direct_debit ∷ [])) pull refl

submitted-settle_example :
    (submitted (
        settle
          (succeeded Enums.Direction.debit)
          (Form.open_cycle (record { is_open = true; scheme = "sct" })))
      ≡ none)
    × (submitted (
          settle {A = Enums.Direction}
            (failed (api_error 422 ""))
            (Form.open_cycle (record { is_open = true; scheme = "sct" })))
        ≡ submitted (Form.open_cycle (record { is_open = true; scheme = "sct" })))
submitted-settle_example =
    submitted-settle Enums.Direction.debit (api_error 422 "")
      (Form.open_cycle (record { is_open = true; scheme = "sct" }))

abbrev nothing_yet : {A : Type 0} → Answer A
nothing_yet = record { result = none; is_loading = true; failure = none }

abbrev waiting : Answers
waiting = record {
  participants = nothing_yet;
  deposit_accounts = λ _. nothing_yet;
  gl_accounts = λ _. nothing_yet;
  schemes = none;
}

-- The payment without its mandate, which its scheme requires.
abbrev no_mandate : Form
no_mandate = Form.initiate_payment (some (direct_debit ∷ [])) (record pull { mandate_id = " " })

dialog_of-submitted_example :
    ((dialog_of false waiting no_mandate).disabled
      ≡ (false || lacks (dialog_of false waiting no_mandate).fields))
    × (is_some (submitted no_mandate) ≡ not (lacks (dialog_of false waiting no_mandate).fields))
dialog_of-submitted_example = dialog_of-submitted false waiting no_mandate refl

lacks_test : lacks (dialog_of false waiting no_mandate).fields ≡ true
unfolding dialog_of lacks needs_mandate trim truthy
lacks_test = refl
