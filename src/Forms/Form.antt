-- ===== src/Forms/Form.antt =====
-- The dialogs as one type, with the mutation hook (web/src/lib/api/hooks.ts) that each calls, so that a
-- statement can range over all of them. The pages' parameters are among a form's arguments.
use core_banking_system.Prelude.{String, Option, List}
use mathlib.Core.Option
use core_banking_system.Types.Payment.{Scheme}
use core_banking_system.Hooks.Mutation.{Mutation}
use core_banking_system.Forms.Reply.{Reply}
use core_banking_system.Forms.CreateHold
use core_banking_system.Forms.CaptureHold
use core_banking_system.Forms.FundParticipant
use core_banking_system.Forms.OpenDepositAccount
use core_banking_system.Forms.OpenCycle
use core_banking_system.Forms.CreateMandate
use core_banking_system.Forms.InitiatePayment
use core_banking_system.Forms.Naming
use core_banking_system.Forms.Snapshots

pub data Form : Type 0 where
  create_hold : String → String → CreateHold.State → Form
  capture_hold : String → String → CaptureHold.State → Form
  fund_deposit : String → String → FundParticipant.State → Form
  open_deposit_account : String → OpenDepositAccount.State → Form
  open_cycle : OpenCycle.State → Form
  create_mandate : CreateMandate.State → Form
  initiate_payment : Option (List Scheme) → InitiatePayment.State → Form
  add_participant : Naming.State → Form
  create_ledger : String → Naming.State → Form
  create_subledger : String → String → Naming.State → Form
  create_account : String → String → Naming.AccountState → Form
  take_snapshot : String → String → String → Form

-- What a form sends when it is submitted, if it sends anything.
unfoldable pub submitted : Form → Option Mutation
unfolding CreateHold.submit CaptureHold.submit FundParticipant.submit OpenDepositAccount.submit
    OpenCycle.submit CreateMandate.submit InitiatePayment.submit Naming.submit Naming.submit_account
    Snapshots.submit
submitted (create_hold pid did s) = Option.map (Mutation.create_hold pid did) (CreateHold.submit s)
submitted (capture_hold pid hid s) =
    Option.map (Mutation.capture_hold pid hid) (CaptureHold.submit s)
submitted (fund_deposit pid did s) =
    Option.map (Mutation.fund_deposit pid) (FundParticipant.submit did s)
submitted (open_deposit_account pid s) =
    Option.map (Mutation.open_deposit_account pid) (OpenDepositAccount.submit s)
submitted (open_cycle s) = Option.map Mutation.open_cycle (OpenCycle.submit s)
submitted (create_mandate s) = Option.map Mutation.create_mandate (CreateMandate.submit s)
submitted (initiate_payment schemes s) =
    Option.map Mutation.initiate_payment (InitiatePayment.submit schemes s)
submitted (add_participant s) = Option.map Mutation.add_participant (Naming.submit s)
submitted (create_ledger pid s) = Option.map (Mutation.create_ledger pid) (Naming.submit s)
submitted (create_subledger pid lid s) =
    Option.map (Mutation.create_subledger pid lid) (Naming.submit s)
submitted (create_account pid sid s) =
    Option.map (Mutation.create_account pid sid) (Naming.submit_account s)
submitted (take_snapshot pid did date) =
    Option.map (Mutation.take_snapshot pid did) (Snapshots.submit date)

-- A form after its request has settled.
unfoldable pub settle {ℓ} : {A : Type ℓ} → Reply A → Form → Form
unfolding CreateHold.settle CaptureHold.settle FundParticipant.settle OpenDepositAccount.settle
    OpenCycle.settle CreateMandate.settle InitiatePayment.settle Naming.settle Naming.settle_account
    Snapshots.settle
settle r (create_hold pid did s) = create_hold pid did (CreateHold.settle r s)
settle r (capture_hold pid hid s) = capture_hold pid hid (CaptureHold.settle r s)
settle r (fund_deposit pid did s) = fund_deposit pid did (FundParticipant.settle r s)
settle r (open_deposit_account pid s) = open_deposit_account pid (OpenDepositAccount.settle r s)
settle r (open_cycle s) = open_cycle (OpenCycle.settle r s)
settle r (create_mandate s) = create_mandate (CreateMandate.settle r s)
settle r (initiate_payment schemes s) = initiate_payment schemes (InitiatePayment.settle r s)
settle r (add_participant s) = add_participant (Naming.settle r s)
settle r (create_ledger pid s) = create_ledger pid (Naming.settle r s)
settle r (create_subledger pid lid s) = create_subledger pid lid (Naming.settle r s)
settle r (create_account pid sid s) = create_account pid sid (Naming.settle_account r s)
settle r (take_snapshot pid did date) = take_snapshot pid did (Snapshots.settle r date)
