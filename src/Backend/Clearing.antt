-- ===== src/Backend/Clearing.antt =====
-- payment/system.go with types.go: the clearing cycles of a network of banks. A bank's ledger is the one
-- under its deposit register, which both of its fields point to. Ids, amounts, times and maps are kept as
-- in Backend/Book; a settlement that fails keeps what it had posted, so an outcome has a network either
-- way. The text of an id with its prefix, which keys a posting, is a parameter.
pub mod Settling
pub mod Positions
pub mod Same
pub mod Retry
pub mod Banks
pub mod Mirrors
pub mod Payouts
pub mod Suspense
pub mod Netting
pub mod Cycles
use core_banking_system.Prelude.{
  ℕ, suc, String, Bool, true, false, Option, none, some, List, [], ◌∷◌, ◌++◌, ◌+s◌, filter, find,
  not, any, ltb, nat_eq, ◌=?◌, if◌then◌else◌,
}
use core_banking_system.Enums.{CycleStatus, open_cycle, PaymentStatus, Direction, debit, credit}
use core_banking_system.Backend.Book as Ledger
use core_banking_system.Backend.Book.{Amount, Book, Entry, add, sub, is_positive}
use core_banking_system.Backend.Book.Methods as BookMethods
use core_banking_system.Backend.Book.Methods.{PostRequest}
use core_banking_system.Backend.Lifecycle.{may_close_cycle, may_settle_cycle}
use core_banking_system.Backend.Register.{Register, account_with, replace}

pub record Participant : Type 0 where
  pub id : ℕ
  pub name : String
  pub deposit : Register
  pub customer_subledger : ℕ
  pub suspense_account : ℕ
  pub reserve_account : ℕ
  pub settlement_account : ℕ

pub record PartyRef : Type 0 where
  pub participant : ℕ
  pub account : ℕ
  pub iban : String

-- A mandate's id is 0, and the id of a leg that is not posted none, where the source has the empty id.
pub record Payment : Type 0 where
  pub id : ℕ
  pub scheme : String
  pub debtor : PartyRef
  pub creditor : PartyRef
  pub amount : Amount
  pub mandate_id : ℕ
  pub end_to_end_id : String
  pub status : PaymentStatus
  pub reject_reason : String
  pub cycle_id : ℕ
  pub booking_date : ℕ
  pub value_date : ℕ
  pub description : String
  pub metadata : List (String × String)
  pub created_at : ℕ
  pub debtor_leg_tx : Option ℕ
  pub creditor_leg_tx : Option ℕ

abbrev pub Positions : Type 0
Positions = List (ℕ × Amount)

pub record Cycle : Type 0 where
  pub id : ℕ
  pub scheme : String
  pub status : CycleStatus
  pub payment_ids : List ℕ
  pub net_positions : Positions
  pub opened_at : ℕ
  pub closed_at : ℕ
  pub settlement_id : Option ℕ

pub record Settlement : Type 0 where
  pub id : ℕ
  pub cycle_id : ℕ
  pub net_positions : Positions
  pub settlement_tx : Option ℕ
  pub value_date : ℕ
  pub settled_at : ℕ

pub record Network : Type 0 where
  pub schemes : List String
  pub participants : List Participant
  pub payments : List Payment
  pub cycles : List Cycle
  pub settlements : List Settlement
  pub open_cycles : List (String × ℕ)
  pub central_bank : Book
  pub id_counter : ℕ

-- `nil_pointer` is the panic of a map that has no entry for an id.
pub data NetworkError : Type 0 where
  scheme_not_found cycle_already_open cycle_not_found cycle_not_open cycle_not_closed : NetworkError
  invalid_state_transition account_not_in_participant nil_pointer : NetworkError
  of_book : Ledger.BookError → NetworkError

pub data Outcome (A : Type 0) : Type 0 where
  failed : NetworkError → Network → Outcome A
  done : A → Network → Outcome A

-- The steps after one that is done.
unfoldable pub and_then : {A B : Type 0} → Outcome A → (A → Network → Outcome B) → Outcome B
and_then (failed e n) f = failed e n
and_then (done a n) f = f a n

unfoldable pub cycle_with : ℕ → Network → Option Cycle
cycle_with id n = find (λ c. nat_eq c.id id) n.cycles

unfoldable pub payment_with : ℕ → Network → Option Payment
payment_with id n = find (λ p. nat_eq p.id id) n.payments

unfoldable pub participant_with : ℕ → Network → Option Participant
participant_with id n = find (λ p. nat_eq p.id id) n.participants

unfoldable pub put_cycle : Cycle → Network → Network
unfolding replace
put_cycle c n = record n { cycles = replace (λ x. nat_eq x.id c.id) (λ x. c) n.cycles }

unfoldable pub put_payment : Payment → Network → Network
unfolding replace
put_payment p n = record n { payments = replace (λ x. nat_eq x.id p.id) (λ x. p) n.payments }

unfoldable pub put_participant : Participant → Network → Network
unfolding replace
put_participant p n = record n {
  participants = replace (λ x. nat_eq x.id p.id) (λ x. p) n.participants;
}

-- The table of `transition`.
unfoldable pub may_move : PaymentStatus → PaymentStatus → Bool
may_move PaymentStatus.initiated PaymentStatus.accepted = true
may_move PaymentStatus.initiated PaymentStatus.rejected = true
may_move PaymentStatus.accepted PaymentStatus.cleared = true
may_move PaymentStatus.accepted PaymentStatus.rejected = true
may_move PaymentStatus.cleared PaymentStatus.settled = true
may_move PaymentStatus.settled PaymentStatus.returned = true
may_move _ _ = false

unfoldable pub transition : Payment → PaymentStatus → Network → Outcome (Unit {0})
unfolding may_move put_payment
transition p to n =
    if may_move p.status to
    then done tt (put_payment (record p { status = to }) n)
    else failed invalid_state_transition n

unfoldable pub new_cycle : ℕ → ℕ → String → Cycle
new_cycle id now scheme = record {
  id = id;
  scheme = scheme;
  status = open_cycle;
  payment_ids = [];
  net_positions = [];
  opened_at = now;
  closed_at = 0;
  settlement_id = none;
}

-- `OpenCycle`: one open cycle for a scheme.
unfoldable pub open_cycle_for : ℕ → String → Network → Outcome Cycle
unfolding new_cycle
open_cycle_for now scheme n =
    if not (any (λ s. s =? scheme) n.schemes)
    then failed scheme_not_found n
    else if any (λ o. o.0 =? scheme) n.open_cycles
    then failed cycle_already_open n
    else let c = new_cycle (suc n.id_counter) now scheme in
      done c (record n {
        cycles = c ∷ n.cycles;
        open_cycles = (scheme, c.id) ∷ n.open_cycles;
        id_counter = c.id;
      })

-- `net[id] = f(net[id])`, where a missing position is 0.
unfoldable pub adjust : ℕ → (Amount → Amount) → Positions → Positions
adjust id f [] = (id, f 0) ∷ []
adjust id f (p ∷ ps) = if nat_eq p.0 id then (id, f p.1) ∷ ps else p ∷ adjust id f ps

unfoldable pub net_of : Payment → Positions → Positions
unfolding adjust add sub
net_of p net =
    adjust p.creditor.participant (λ x. add x p.amount)
      (adjust p.debtor.participant (λ x. sub x p.amount) net)

-- The loop of `CloseCycle`.
unfoldable pub clear_payments : List ℕ → Positions → Network → Outcome Positions
unfolding payment_with net_of transition and_then
clear_payments [] net n = done net n
clear_payments (id ∷ ids) net n = elim (payment_with id n) [
  | none ↦ failed nil_pointer n
  | some p ↦
      and_then (transition p PaymentStatus.cleared n) (λ u m. clear_payments ids (net_of p net) m)
]

unfoldable pub closed_cycle : ℕ → Positions → Cycle → Cycle
closed_cycle now net c = record c {
  net_positions = net;
  status = CycleStatus.closed;
  closed_at = now;
}

unfoldable pub close_cycle : ℕ → ℕ → Network → Outcome Cycle
unfolding cycle_with may_close_cycle clear_payments and_then closed_cycle put_cycle
close_cycle now id n = elim (cycle_with id n) [
  | none ↦ failed cycle_not_found n
  | some c ↦
      if not (may_close_cycle c.status)
      then failed cycle_not_open n
      else and_then (clear_payments c.payment_ids [] n) (λ net m.
        let d = closed_cycle now net c in
        done d (record (put_cycle d m) {
          open_cycles = filter (λ o. not (o.0 =? c.scheme)) m.open_cycles;
        }))
]
