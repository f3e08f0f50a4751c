-- ===== src/Forms/PartyRefFields.antt =====
-- web/src/components/forms/party-ref-fields.tsx: the fields of a party, and what the account picker
-- (web/src/components/pickers/deposit-account-picker.tsx) offers for a participant.
pub mod Agreement
use core_banking_system.Prelude.{
  String, Bool, Option, none, List, [], map, or_else, or_undefined, any, ◌=?◌, if◌then◌else◌,
}
use core_banking_system.Types.Payment.{PartyRef}
use core_banking_system.Types.Deposit.{DepositAccount}

-- `emptyPartyRef`.
abbrev pub empty_party_ref : PartyRef
empty_party_ref = record { participant = ""; account = ""; iban = none }

-- The changes of the three fields.
unfoldable pub change_participant : String → PartyRef → PartyRef
change_participant p v = record v { participant = p; account = "" }

unfoldable pub change_account : String → PartyRef → PartyRef
change_account a v = record v { account = a }

unfoldable pub change_iban : String → PartyRef → PartyRef
unfolding or_undefined
change_iban text v = record v { iban = or_undefined text }

-- The values that the picker offers: the ids of the participant's accounts, if they are there.
unfoldable pub account_options : Option (List DepositAccount) → List String
account_options accounts = map (λ a. a.id) (or_else accounts [])

-- What the user does to the fields. A picked account is one of those offered, and the picker does
-- nothing where it is disabled, which is while there is no participant.
pub data Change : Type 0 where
  pick_participant : String → Change
  pick_account : String → Change
  type_iban : String → Change

-- The accounts that are offered, over the answers of `useDepositAccounts`.
unfoldable pub offered : (String → Option (List DepositAccount)) → String → List String
unfolding account_options
offered accounts pid = if pid =? "" then [] else account_options (accounts pid)

unfoldable pub change : (String → Option (List DepositAccount)) → Change → PartyRef → PartyRef
unfolding change_participant change_account change_iban offered
change accounts (pick_participant p) v = change_participant p v
change accounts (pick_account a) v =
    if any (λ x. a =? x) (offered accounts v.participant) then change_account a v else v
change accounts (type_iban text) v = change_iban text v
