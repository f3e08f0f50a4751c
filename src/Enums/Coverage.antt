-- ===== src/Enums/Coverage.antt =====
-- The statuses against the table of web/src/lib/enums.ts that gives each its tone.
use core_banking_system.Prelude.{◌≡◌, refl, true, is_some}
use core_banking_system.Enums.{
  TransactionStatus, DepositStatus, HoldStatus, PaymentStatus, MandateStatus, CycleStatus,
}
use core_banking_system.Enums.Tone.{
  Status, of_transaction, of_deposit, of_hold, of_payment, of_mandate, of_cycle, status_wire,
  status_tone, tone_of,
}

-- Each status of the six unions has an entry in the table, so that no badge of a status falls back to
-- the neutral tone for want of one.
tone_of-status_wire : (s : Status) → is_some (tone_of (status_wire s) status_tone) ≡ true
unfolding tone_of status_wire
tone_of-status_wire (of_transaction TransactionStatus.posted) = refl
tone_of-status_wire (of_transaction TransactionStatus.reversed) = refl
tone_of-status_wire (of_deposit DepositStatus.active) = refl
tone_of-status_wire (of_deposit DepositStatus.dormant) = refl
tone_of-status_wire (of_deposit DepositStatus.frozen) = refl
tone_of-status_wire (of_deposit DepositStatus.closed) = refl
tone_of-status_wire (of_hold HoldStatus.active) = refl
tone_of-status_wire (of_hold HoldStatus.released) = refl
tone_of-status_wire (of_hold HoldStatus.captured) = refl
tone_of-status_wire (of_payment PaymentStatus.initiated) = refl
tone_of-status_wire (of_payment PaymentStatus.accepted) = refl
tone_of-status_wire (of_payment PaymentStatus.cleared) = refl
tone_of-status_wire (of_payment PaymentStatus.settled) = refl
tone_of-status_wire (of_payment PaymentStatus.rejected) = refl
tone_of-status_wire (of_payment PaymentStatus.returned) = refl
tone_of-status_wire (of_mandate MandateStatus.active) = refl
tone_of-status_wire (of_mandate MandateStatus.revoked) = refl
tone_of-status_wire (of_cycle CycleStatus.open_cycle) = refl
tone_of-status_wire (of_cycle CycleStatus.closed) = refl
tone_of-status_wire (of_cycle CycleStatus.settled) = refl
