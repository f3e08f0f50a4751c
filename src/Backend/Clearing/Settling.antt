-- ===== src/Backend/Clearing/Settling.antt =====
-- `SettleCycle` of payment/system.go.
use core_banking_system.Prelude.{
  ℕ, suc, String, Option, none, some, List, [], ◌∷◌, ◌++◌, ◌+s◌, not, nat_eq, ◌=?◌, if◌then◌else◌,
}
use core_banking_system.Enums.{CycleStatus, PaymentStatus, Direction, debit, credit}
use core_banking_system.Backend.Book as Ledger
use core_banking_system.Backend.Book.{Amount, Book, Entry, add, sub, is_positive}
use core_banking_system.Backend.Book.Methods as BookMethods
use core_banking_system.Backend.Book.Methods.{PostRequest}
use core_banking_system.Backend.Lifecycle.{may_settle_cycle}
use core_banking_system.Backend.Register.{account_with}
use core_banking_system.Backend.Clearing.{
  Participant, Payment, Cycle, Positions, Settlement, Network, of_book, cycle_not_found,
  cycle_not_closed, account_not_in_participant, nil_pointer, Outcome, failed, done, and_then,
  cycle_with, payment_with, participant_with, put_cycle, put_payment, put_participant, transition,
}

-- One leg of a net position, which is posted with the sign taken off.
unfoldable pub entry_on : ℕ → Amount → Direction → Entry
entry_on account x d = record { id = 0; account_id = account; amount = x; direction = d }

-- The entries of the central bank's posting, one for each position that is not 0.
unfoldable pub settlement_entries : Network → Positions → Option (List Entry)
unfolding participant_with entry_on sub
settlement_entries n [] = some []
settlement_entries n (p ∷ ps) =
    let rest = settlement_entries n ps in
    if nat_eq p.1 0 then rest else elim (participant_with p.0 n) [
      | none ↦ none
      | some bank ↦ elim rest [
        | none ↦ none
        | some es ↦ some (
            (if is_positive p.1
              then entry_on bank.settlement_account p.1 credit
              else entry_on bank.settlement_account (sub 0 p.1) debit)
            ∷ es)
      ]
    ]

-- A posting without dates or metadata.
unfoldable pub plain_request : String → String → List Entry → PostRequest
plain_request key description es = record {
  idempotency_key = key;
  entries = es;
  booking_date = 0;
  value_date = 0;
  description = description;
  metadata = [];
}

-- A posting in a bank's own ledger.
unfoldable pub post_in_bank : ℕ → Participant → PostRequest → Network → Outcome Ledger.Transaction
unfolding BookMethods.post_transaction put_participant
post_in_bank now bank q n = elim (BookMethods.post_transaction now q bank.deposit.book) [
  | Ledger.error e ↦ failed (of_book e) n
  | Ledger.ok t b ↦
      done t (put_participant (record bank { deposit = record bank.deposit { book = b } }) n)
]

-- What a bank's own ledger has for its position: reserve and suspense move as the central bank's posting.
unfoldable pub mirror_entries : Participant → Amount → List Entry
unfolding entry_on sub
mirror_entries bank x =
    if is_positive x
    then entry_on bank.reserve_account x debit ∷ entry_on bank.suspense_account x credit ∷ []
    else entry_on bank.suspense_account (sub 0 x) debit
      ∷ entry_on bank.reserve_account (sub 0 x) credit
      ∷ []

module _ (text : String → ℕ → String) where
  unfoldable pub mirror_request : ℕ → ℕ → Participant → Amount → PostRequest
  unfolding plain_request mirror_entries
  mirror_request cycle id bank x =
      plain_request (text "cyc" cycle +s ":reserve:" +s text "bank" id)
        ("Net settlement of cycle " +s text "cyc" cycle) (mirror_entries bank x)

  unfoldable pub mirror_positions : ℕ → ℕ → Positions → Network → Outcome (Unit {0})
  unfolding participant_with post_in_bank mirror_request and_then
  mirror_positions now cycle [] n = done tt n
  mirror_positions now cycle (p ∷ ps) n =
      let next = λ (m : Network). mirror_positions now cycle ps m in
      if nat_eq p.1 0 then next n else elim (participant_with p.0 n) [
        | none ↦ failed nil_pointer n
        | some bank ↦
            and_then (post_in_bank now bank (mirror_request cycle p.0 bank p.1) n) (λ t m. next m)
      ]

  unfoldable pub payment_metadata : Payment → List (String × String)
  payment_metadata p =
      ("payment_id", text "pay" p.id)
      ∷ ("scheme", p.scheme)
      ∷ ((if p.end_to_end_id =? "" then [] else ("end_to_end_id", p.end_to_end_id) ∷ [])
          ++ (if nat_eq p.mandate_id 0 then [] else ("mandate_id", text "mnd" p.mandate_id) ∷ []))

  unfoldable pub credit_request : Payment → Participant → ℕ → PostRequest
  unfolding payment_metadata entry_on
  credit_request p bank gl = record {
    idempotency_key = text "pay" p.id +s ":credit";
    entries = entry_on bank.suspense_account p.amount debit ∷ entry_on gl p.amount credit ∷ [];
    booking_date = 0;
    value_date = p.value_date;
    description = p.description;
    metadata = payment_metadata p;
  }

  -- The creditor leg of a payment.
  unfoldable pub pay_creditor : ℕ → Payment → Network → Outcome (Unit {0})
  unfolding participant_with account_with credit_request post_in_bank put_payment transition
      and_then
  pay_creditor now p n = elim (participant_with p.creditor.participant n) [
    | none ↦ failed nil_pointer n
    | some bank ↦ elim (account_with p.creditor.account bank.deposit) [
      | none ↦ failed account_not_in_participant n
      | some a ↦ and_then (post_in_bank now bank (credit_request p bank a.gl_account) n) (λ t m.
          let q = record p { creditor_leg_tx = some t.id } in
          transition q PaymentStatus.settled (put_payment q m))
    ]
  ]

  unfoldable pub pay_creditors : ℕ → List ℕ → Network → Outcome (Unit {0})
  unfolding payment_with pay_creditor and_then
  pay_creditors now [] n = done tt n
  pay_creditors now (id ∷ ids) n = elim (payment_with id n) [
    | none ↦ failed nil_pointer n
    | some p ↦ and_then (pay_creditor now p n) (λ u m. pay_creditors now ids m)
  ]

  unfoldable pub settlement_request : ℕ → List Entry → PostRequest
  unfolding plain_request
  settlement_request id es =
      plain_request (text "cyc" id +s ":settle") ("Settlement of clearing cycle " +s text "cyc" id)
        es

  -- The central bank's posting and its mirrors, which an empty list of entries skips.
  unfoldable pub settle_positions : ℕ → Cycle → List Entry → Network → Outcome (Option ℕ)
  unfolding settlement_request BookMethods.post_transaction mirror_positions and_then
  settle_positions now c [] n = done none n
  settle_positions now c (e ∷ es) n =
      elim (BookMethods.post_transaction now (settlement_request c.id (e ∷ es)) n.central_bank) [
        | Ledger.error x ↦ failed (of_book x) n
        | Ledger.ok t b ↦
            and_then (mirror_positions now c.id c.net_positions (record n { central_bank = b }))
              (λ u m. done (some t.id) m)
      ]

  unfoldable pub settlement_of : ℕ → ℕ → Cycle → Option ℕ → Settlement
  settlement_of id now c tx = record {
    id = id;
    cycle_id = c.id;
    net_positions = c.net_positions;
    settlement_tx = tx;
    value_date = now;
    settled_at = now;
  }

  unfoldable pub add_settlement : ℕ → Cycle → Option ℕ → Network → Outcome Settlement
  unfolding settlement_of put_cycle
  add_settlement now c tx n =
      let st = settlement_of (suc n.id_counter) now c tx in
      done st (
        put_cycle (record c { status = CycleStatus.settled; settlement_id = some st.id })
          (record n { settlements = st ∷ n.settlements; id_counter = st.id }))

  unfoldable pub settle_cycle : ℕ → ℕ → Network → Outcome Settlement
  unfolding cycle_with may_settle_cycle settlement_entries settle_positions pay_creditors
      add_settlement and_then
  settle_cycle now id n = elim (cycle_with id n) [
    | none ↦ failed cycle_not_found n
    | some c ↦
        if not (may_settle_cycle c.status)
        then failed cycle_not_closed n
        else elim (settlement_entries n c.net_positions) [
          | none ↦ failed nil_pointer n
          | some es ↦ and_then (settle_positions now c es n) (λ tx m.
              and_then (pay_creditors now c.payment_ids m) (λ u k. add_settlement now c tx k))
        ]
  ]
