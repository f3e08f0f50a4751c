-- ===== src/Forms.antt =====
-- The forms of web/src/components/forms and of the pages: each as a state, the request that it submits,
-- and what it does when the request has settled.
pub mod Reply
pub mod PostTransaction
pub mod PartyRefFields
pub mod CreateHold
pub mod CaptureHold
pub mod FundParticipant
pub mod OpenDepositAccount
pub mod OpenCycle
pub mod CreateMandate
pub mod InitiatePayment
pub mod Naming
pub mod Snapshots
pub mod ConfirmAction
pub mod Form
pub mod Retry
pub mod Field
pub mod Dialogs
pub mod Required
