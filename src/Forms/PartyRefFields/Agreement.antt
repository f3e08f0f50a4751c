-- ===== src/Forms/PartyRefFields/Agreement.antt =====
-- The bank and the account of a party in web/src/components/forms/party-ref-fields.tsx.
use core_banking_system.Prelude.{
  ◌≡◌, refl, ◌⊎◌, inl, inr, String, true, Option, List, any, ◌=?◌, Bool-cases,
}
use core_banking_system.Types.Deposit.{DepositAccount}
use core_banking_system.Types.Payment.{PartyRef}
use core_banking_system.Forms.PartyRefFields.{
  empty_party_ref, Change, pick_participant, pick_account, type_iban, offered, change,
}

-- The parties that the user can make of the empty one.
pub data Reach (accounts : String → Option (List DepositAccount)) : PartyRef → Type 0 where
  start : Reach accounts empty_party_ref
  next : {v : PartyRef} (c : Change) → Reach accounts v → Reach accounts (change accounts c v)

-- No account is chosen, or one that is offered for the chosen participant.
abbrev pub Agrees : (String → Option (List DepositAccount)) → PartyRef → Type 0
Agrees accounts v =
    (v.account ≡ "") ⊎ (any (λ x. v.account =? x) (offered accounts v.participant) ≡ true)

change-Agrees :
    (accounts : String → Option (List DepositAccount)) (c : Change) (v : PartyRef)
    → Agrees accounts v
    → Agrees accounts (change accounts c v)
unfolding change
change-Agrees accounts (pick_participant p) v h = inl refl
change-Agrees accounts (pick_account a) v h =
    elim (Bool-cases (any (λ x. a =? x) (offered accounts v.participant))) [
      | inl found ↦ rw found (inr found)
      | inr unknown ↦ rw unknown h
    ]
change-Agrees accounts (type_iban text) v h = h

-- Whatever the user picks and types, in any order, a party with an account has one that is offered for
-- its participant: the bank and the account cannot disagree.
pub Reach-Agrees :
    (accounts : String → Option (List DepositAccount)) {v : PartyRef}
    → Reach accounts v
    → Agrees accounts v
Reach-Agrees accounts start = inl refl
Reach-Agrees accounts (next {v} c r) = change-Agrees accounts c v (Reach-Agrees accounts r)
