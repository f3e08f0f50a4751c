-- ===== src/Forms/Required.antt =====
-- The fields that the dialogs mark as required, and what the dialogs submit.
use core_banking_system.Prelude.{
  ◌≡◌, String, Bool, true, Option, none, some, List, ◌||◌, not, is_some, Bool-cases, inl, inr,
  arith,
}
use mathlib.Core.Option
use core_banking_system.Types.Payment.{Scheme}
use core_banking_system.Forms.Field.{Dialog, lacks, blank}
use core_banking_system.Forms.Dialogs.{
  Answers, in_dialog, dialog_of, party_fields, mandate_fields, create_hold_dialog,
  capture_hold_dialog, fund_dialog, open_deposit_account_dialog, open_cycle_dialog,
  create_mandate_dialog, initiate_payment_dialog, create_participant_dialog, name_dialog,
  account_dialog,
}
use core_banking_system.Forms.CreateHold
use core_banking_system.Forms.CaptureHold
use core_banking_system.Forms.FundParticipant
use core_banking_system.Forms.OpenDepositAccount
use core_banking_system.Forms.OpenCycle
use core_banking_system.Forms.CreateMandate
use core_banking_system.Forms.InitiatePayment
use core_banking_system.Forms.InitiatePayment.{needs_mandate, valid}
use core_banking_system.Forms.Naming
use core_banking_system.Forms.Form.{
  Form, submitted, create_hold, capture_hold, fund_deposit, open_deposit_account, open_cycle,
  create_mandate, initiate_payment, add_participant, create_ledger, create_subledger,
  create_account, take_snapshot,
}

-- A button that is disabled while the request is pending or a required field is blank, where something is
-- sent exactly if none is.
abbrev Guarded : Bool → Dialog → Bool → Type 0
Guarded pending d sent = (d.disabled ≡ (pending || lacks d.fields)) × (sent ≡ not (lacks d.fields))

module _ (p : Bool) (a : Answers) where
  Guarded-create_hold :
      (s : CreateHold.State) → Guarded p (create_hold_dialog p s) (is_some (CreateHold.submit s))
  unfolding create_hold_dialog lacks blank CreateHold.submit
  Guarded-create_hold s = (ground arith, ground arith)

  Guarded-capture_hold :
      (pid : String) (s : CaptureHold.State)
      → Guarded p (capture_hold_dialog p a pid s) (is_some (CaptureHold.submit s))
  unfolding capture_hold_dialog lacks blank CaptureHold.submit
  Guarded-capture_hold pid s = (ground arith, ground arith)

  Guarded-fund :
      (did : String) (s : FundParticipant.State)
      → Guarded p (fund_dialog p s) (is_some (FundParticipant.submit did s))
  unfolding fund_dialog lacks blank FundParticipant.submit
  Guarded-fund did s = (ground arith, ground arith)

  Guarded-open_deposit_account :
      (s : OpenDepositAccount.State)
      → Guarded p (open_deposit_account_dialog p s) (is_some (OpenDepositAccount.submit s))
  unfolding open_deposit_account_dialog lacks blank OpenDepositAccount.submit
  Guarded-open_deposit_account s = (ground arith, ground arith)

  Guarded-open_cycle :
      (s : OpenCycle.State) → Guarded p (open_cycle_dialog p a s) (is_some (OpenCycle.submit s))
  unfolding open_cycle_dialog lacks blank OpenCycle.submit
  Guarded-open_cycle s = (ground arith, ground arith)

  Guarded-create_mandate :
      (s : CreateMandate.State)
      → Guarded p (create_mandate_dialog p a s) (is_some (CreateMandate.submit s))
  unfolding create_mandate_dialog party_fields lacks blank CreateMandate.submit
  Guarded-create_mandate s = (ground arith, ground arith)

  Guarded-initiate_payment :
      (schemes : Option (List Scheme)) (s : InitiatePayment.State)
      → Guarded p
          (initiate_payment_dialog p a schemes s)
          (is_some (InitiatePayment.submit schemes s))
  unfolding initiate_payment_dialog party_fields mandate_fields lacks blank valid
      InitiatePayment.submit
  Guarded-initiate_payment schemes s = elim (Bool-cases (needs_mandate schemes s.scheme)) [
    | inl e ↦ rw e (ground arith, ground arith)
    | inr e ↦ rw e (ground arith, ground arith)
  ]

  Guarded-create_participant :
      (s : Naming.State) → Guarded p (create_participant_dialog p s) (is_some (Naming.submit s))
  unfolding create_participant_dialog lacks blank Naming.submit
  Guarded-create_participant s = (ground arith, ground arith)

  Guarded-name :
      (trigger title label : String) (s : Naming.State)
      → Guarded p (name_dialog trigger title label p s) (is_some (Naming.submit s))
  unfolding name_dialog lacks blank Naming.submit
  Guarded-name trigger title label s = (ground arith, ground arith)

  Guarded-account :
      (s : Naming.AccountState) → Guarded p (account_dialog p s) (is_some (Naming.submit_account s))
  unfolding account_dialog lacks blank Naming.submit_account
  Guarded-account s = (ground arith, ground arith)

is_some-map :
    {A B : Type 0} (f : A → B) (o : Option A) (b : Bool)
    → is_some o ≡ b
    → is_some (Option.map f o) ≡ b
is_some-map f none b h = h
is_some-map f (some x) b h = h

-- In the dialogs of Forms/Form that are forms, which are those for holds and captures, funding,
-- deposit accounts, cycles, mandates, payments, participants, ledgers, subledgers and accounts, and
-- neither the posting of a transaction nor a confirmation, the submit button is disabled exactly
-- while the request is pending or a field that is marked as required is blank, and submitting sends
-- something exactly if no such field is.
pub dialog_of-submitted :
    (p : Bool) (a : Answers) (f : Form)
    → in_dialog f ≡ true
    → ((dialog_of p a f).disabled ≡ (p || lacks (dialog_of p a f).fields))
      × (is_some (submitted f) ≡ not (lacks (dialog_of p a f).fields))
unfolding dialog_of submitted
dialog_of-submitted p a (create_hold pid did s) h =
    let (d, e) = Guarded-create_hold p a s in (d, is_some-map _ (CreateHold.submit s) _ e)
dialog_of-submitted p a (capture_hold pid hid s) h =
    let (d, e) = Guarded-capture_hold p a pid s in (d, is_some-map _ (CaptureHold.submit s) _ e)
dialog_of-submitted p a (fund_deposit pid did s) h =
    let (d, e) = Guarded-fund p a did s in (d, is_some-map _ (FundParticipant.submit did s) _ e)
dialog_of-submitted p a (open_deposit_account pid s) h =
    let (d, e) = Guarded-open_deposit_account p a s in
    (d, is_some-map _ (OpenDepositAccount.submit s) _ e)
dialog_of-submitted p a (open_cycle s) h =
    let (d, e) = Guarded-open_cycle p a s in (d, is_some-map _ (OpenCycle.submit s) _ e)
dialog_of-submitted p a (create_mandate s) h =
    let (d, e) = Guarded-create_mandate p a s in (d, is_some-map _ (CreateMandate.submit s) _ e)
dialog_of-submitted p a (initiate_payment schemes s) h =
    let (d, e) = Guarded-initiate_payment p a schemes s in
    (d, is_some-map _ (InitiatePayment.submit schemes s) _ e)
dialog_of-submitted p a (add_participant s) h =
    let (d, e) = Guarded-create_participant p a s in (d, is_some-map _ (Naming.submit s) _ e)
dialog_of-submitted p a (create_ledger pid s) h =
    let (d, e) = Guarded-name p a "Ledger" "New ledger" "Ledger name" s in
    (d, is_some-map _ (Naming.submit s) _ e)
dialog_of-submitted p a (create_subledger pid lid s) h =
    let (d, e) = Guarded-name p a "Subledger" "New subledger" "Subledger name" s in
    (d, is_some-map _ (Naming.submit s) _ e)
dialog_of-submitted p a (create_account pid sid s) h =
    let (d, e) = Guarded-account p a s in (d, is_some-map _ (Naming.submit_account s) _ e)
dialog_of-submitted p a (take_snapshot pid did s) h = absurd cc
