-- ===== src/Forms/Dialogs.antt =====
-- The dialogs of web/src/components/forms, of web/src/components/create-participant-dialog.tsx and of the
-- ledger page, and the form of the snapshots' card, as they are shown in a state. The first argument is
-- `isPending` of the form's mutation.
use core_banking_system.Prelude.{
  String, Bool, true, false, Option, none, some, List, [], ◌∷◌, ◌++◌, map, ◌||◌, ◌&&◌, ◌+s◌, not,
  is_some, or_else, truthy, trim, if◌then◌else◌,
}
use core_banking_system.Enums.{
  account_types, account_type_wire, scheme_direction_wire, settlement_model_wire,
}
use core_banking_system.Types.Deposit.{DepositAccount}
use core_banking_system.Types.Payment.{Participant, PartyRef, Scheme}
use core_banking_system.Endpoints.AllAccounts.{AccountWithContext}
use core_banking_system.Ui.Parts.{Answer}
use core_banking_system.Ui.Combobox.{participant_picker, deposit_account_picker, gl_account_picker}
use core_banking_system.Forms.Field.{
  input, date, money, menu, picker, Field, Dialog, field, required_field,
}
use core_banking_system.Forms.CreateHold
use core_banking_system.Forms.CaptureHold
use core_banking_system.Forms.FundParticipant
use core_banking_system.Forms.OpenDepositAccount
use core_banking_system.Forms.OpenCycle
use core_banking_system.Forms.CreateMandate
use core_banking_system.Forms.CreateMandate.{party_filled}
use core_banking_system.Forms.InitiatePayment
use core_banking_system.Forms.InitiatePayment.{needs_mandate, valid}
use core_banking_system.Forms.Naming
use core_banking_system.Forms.Form.{
  Form, create_hold, capture_hold, fund_deposit, open_deposit_account, open_cycle, create_mandate,
  initiate_payment, add_participant, create_ledger, create_subledger, create_account, take_snapshot,
}

-- What the queries of the pickers and menus have answered.
pub record Answers : Type 0 where
  pub participants : Answer (List Participant)
  pub deposit_accounts : String → Answer (List DepositAccount)
  pub gl_accounts : String → Answer (List AccountWithContext)
  pub schemes : Option (List Scheme)

unfoldable pub create_hold_dialog : Bool → CreateHold.State → Dialog
create_hold_dialog pending s = record {
  trigger = "New hold";
  title = "Place a hold";
  description =
      some
        "Reserves funds (the available balance drops; the book balance is unchanged). Capture it later for the final amount, or release it.";
  fields =
      required_field "hold-amount" "Amount" (some "holds") (money s.amount_cents)
      ∷ field "hold-expires" "Expires (optional)" (date s.expires)
      ∷ field "hold-desc" "Description (optional)"
          (input "e.g. card authorization at merchant" s.description)
      ∷ [];
  button = if pending then "Placing…" else "Place hold";
  disabled = pending || not (is_some s.amount_cents);
}

unfoldable pub capture_hold_dialog : Bool → Answers → String → CaptureHold.State → Dialog
unfolding gl_account_picker
capture_hold_dialog pending a pid s = record {
  trigger = "Capture";
  title = "Capture hold";
  description =
      some
        "Turns the reservation into a posted transaction debiting the customer and crediting the counterparty.";
  fields =
      required_field "cap-counterparty" "Counterparty GL account" (some "hold-capture")
        (picker (gl_account_picker pid (a.gl_accounts pid)) s.counterparty)
      ∷ required_field "cap-amount" "Amount" none (money s.amount_cents)
      ∷ field "cap-desc" "Description (optional)" (input "" s.description)
      ∷ [];
  button = if pending then "Capturing…" else "Capture";
  disabled = pending || not (truthy (trim s.counterparty)) || not (is_some s.amount_cents);
}

unfoldable pub fund_dialog : Bool → FundParticipant.State → Dialog
fund_dialog pending s = record {
  trigger = "Fund";
  title = "Fund deposit account";
  description =
      some "Credits this account and raises the bank's central-bank reserve by the same amount.";
  fields =
      required_field "fund-amount" "Amount" (some "central-bank-reserves") (money s.amount_cents)
      ∷ field "fund-desc" "Description (optional)" (input "e.g. initial deposit" s.description)
      ∷ [];
  button = if pending then "Funding…" else "Fund";
  disabled = pending || not (is_some s.amount_cents);
}

unfoldable pub open_deposit_account_dialog : Bool → OpenDepositAccount.State → Dialog
open_deposit_account_dialog pending s = record {
  trigger = "Open account";
  title = "Open deposit account";
  description =
      some
        "A customer checking/current account, backed by a Liability GL account in the general ledger.";
  fields =
      required_field "dda-name" "Account holder name" none (input "" s.name)
      ∷ record {
        id = "dda-overdraft";
        label = "Overdraft limit";
        hint = some "overdraft";
        required = false;
        control = money s.overdraft_cents;
      }
      ∷ [];
  button = if pending then "Opening…" else "Open account";
  disabled = pending || not (truthy (trim s.name));
}

unfoldable pub open_cycle_dialog : Bool → Answers → OpenCycle.State → Dialog
unfolding settlement_model_wire
open_cycle_dialog pending a s = record {
  trigger = "Open cycle";
  title = "Open clearing cycle";
  description = some "Collects this scheme's payments so they can be netted and settled together.";
  fields =
      required_field "cycle-scheme" "Scheme" (some "clearing-vs-settlement") (
        menu "Choose a scheme…" s.scheme (
          map (λ x. (x.id, x.id +s " · " +s settlement_model_wire x.settlement_model))
            (or_else a.schemes [])))
      ∷ [];
  button = if pending then "Opening…" else "Open cycle";
  disabled = pending || not (truthy s.scheme);
}

-- `PartyRefFields`, with the legend in lower case, which the ids begin with.
unfoldable pub party_fields : Answers → String → PartyRef → List Field
unfolding participant_picker deposit_account_picker
party_fields a id_base v =
    required_field (id_base +s "-participant") "Participant" none
      (picker (participant_picker a.participants) v.participant)
    ∷ required_field (id_base +s "-account") "Deposit account" none
        (picker (deposit_account_picker v.participant (a.deposit_accounts v.participant)) v.account)
    ∷ field (id_base +s "-iban") "IBAN (optional)" (input "DE89…" (or_else v.iban ""))
    ∷ []

unfoldable pub create_mandate_dialog : Bool → Answers → CreateMandate.State → Dialog
unfolding party_fields
create_mandate_dialog pending a s = record {
  trigger = "New mandate";
  title = "Create mandate";
  description =
      some "Authorizes the creditor to pull funds from the debtor, up to the maximum amount.";
  fields =
      party_fields a "debtor" s.debtor
      ++ (party_fields a "creditor" s.creditor
          ++ (required_field "mandate-max" "Maximum amount" none (money s.max_cents) ∷ []));
  button = if pending then "Creating…" else "Create mandate";
  disabled =
      pending || not (party_filled s.debtor && party_filled s.creditor && is_some s.max_cents);
}

abbrev pub scheme_text : Scheme → String
unfolding scheme_direction_wire
scheme_text x =
    x.id
    +s " · "
    +s scheme_direction_wire x.direction
    +s (if x.requires_mandate then " · mandate" else "")

-- The field of the mandate is there only where the chosen scheme requires one.
unfoldable pub mandate_fields : Option (List Scheme) → InitiatePayment.State → List Field
unfolding needs_mandate
mandate_fields schemes s =
    if needs_mandate schemes s.scheme
    then required_field "pay-mandate" "Mandate" (some "requires-mandate")
        (input "mnd_… (this scheme pulls funds)" s.mandate_id)
      ∷ []
    else []

unfoldable pub initiate_payment_dialog :
    Bool → Answers → Option (List Scheme) → InitiatePayment.State → Dialog
unfolding party_fields mandate_fields valid
initiate_payment_dialog pending a schemes s = record {
  trigger = "Initiate payment";
  title = "Initiate payment";
  description =
      some
        "Money always flows debtor → creditor. The scheme sets the rules (direction, mandate requirement, settlement model).";
  fields =
      required_field "pay-scheme" "Scheme" (some "payment-lifecycle")
        (menu "Choose a scheme…" s.scheme (map (λ x. (x.id, scheme_text x)) (or_else schemes [])))
      ∷ (party_fields a "debtor" s.debtor
          ++ (party_fields a "creditor" s.creditor
              ++ (required_field "pay-amount" "Amount" none (money s.amount_cents)
                  ∷ (mandate_fields schemes s
                      ++ (field "pay-e2e" "End-to-end ID (optional)" (input "" s.end_to_end_id)
                          ∷ field "pay-desc" "Description (optional)" (input "" s.description)
                          ∷ [])))));
  button = if pending then "Initiating…" else "Initiate payment";
  disabled = pending || not (valid schemes s && is_some s.amount_cents);
}

unfoldable pub create_participant_dialog : Bool → Naming.State → Dialog
create_participant_dialog pending s = record {
  trigger = "New participant";
  title = "New participant";
  description =
      some
        "A participant is a member bank in the network. Creating one provisions its chart of accounts: a customer subledger, a clearing suspense account, and a reserve account at the central bank.";
  fields = required_field "participant-name" "Bank name" none (input "e.g. Bank Alpha" s.name) ∷ [];
  button = if pending then "Creating…" else "Create participant";
  disabled = pending || not (truthy (trim s.name));
}

-- `NameDialog`.
unfoldable pub name_dialog : String → String → String → Bool → Naming.State → Dialog
name_dialog trigger title label pending s = record {
  trigger = trigger;
  title = title;
  description = none;
  fields = required_field "name-dialog" label none (input "" s.name) ∷ [];
  button = if pending then "Creating…" else "Create";
  disabled = pending || not (truthy (trim s.name));
}

-- `AccountDialog`.
unfoldable pub account_dialog : Bool → Naming.AccountState → Dialog
unfolding account_type_wire
account_dialog pending s = record {
  trigger = "Account";
  title = "New account";
  description =
      some
        "An account belongs to one of the five chart-of-accounts types, which sets its normal balance.";
  fields =
      required_field "acct-name" "Name" none (input "" s.name)
      ∷ record {
        id = "";
        label = "Type";
        hint = some "normal-balance";
        required = false;
        control =
            menu "" (account_type_wire s.account_type)
              (map (λ t. (account_type_wire t, account_type_wire t)) account_types);
      }
      ∷ [];
  button = if pending then "Creating…" else "Create account";
  disabled = pending || not (truthy (trim s.name));
}

-- The form in the card of the snapshots, which has no dialog around it.
unfoldable pub snapshot_form : Bool → String → Dialog
snapshot_form pending s = record {
  trigger = "";
  title = "End-of-day snapshots";
  description = none;
  fields = field "snap-date" "Date" (date s) ∷ [];
  button = if pending then "Taking…" else "Take snapshot";
  disabled = pending || not (truthy s);
}

abbrev pub in_dialog : Form → Bool
in_dialog (take_snapshot pid did d) = false
in_dialog _ = true

unfoldable pub dialog_of : Bool → Answers → Form → Dialog
unfolding create_hold_dialog capture_hold_dialog fund_dialog open_deposit_account_dialog
    open_cycle_dialog create_mandate_dialog initiate_payment_dialog create_participant_dialog
    name_dialog account_dialog snapshot_form
dialog_of pending a (create_hold pid did s) = create_hold_dialog pending s
dialog_of pending a (capture_hold pid hid s) = capture_hold_dialog pending a pid s
dialog_of pending a (fund_deposit pid did s) = fund_dialog pending s
dialog_of pending a (open_deposit_account pid s) = open_deposit_account_dialog pending s
dialog_of pending a (open_cycle s) = open_cycle_dialog pending a s
dialog_of pending a (create_mandate s) = create_mandate_dialog pending a s
dialog_of pending a (initiate_payment schemes s) = initiate_payment_dialog pending a schemes s
dialog_of pending a (add_participant s) = create_participant_dialog pending s
dialog_of pending a (create_ledger pid s) =
    name_dialog "Ledger" "New ledger" "Ledger name" pending s
dialog_of pending a (create_subledger pid lid s) =
    name_dialog "Subledger" "New subledger" "Subledger name" pending s
dialog_of pending a (create_account pid sid s) = account_dialog pending s
dialog_of pending a (take_snapshot pid did s) = snapshot_form pending s
