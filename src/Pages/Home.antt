-- ===== src/Pages/Home.antt =====
-- web/src/app/page.tsx: the dashboard.
use core_banking_system.Prelude.{
  String, true, Option, none, some, List, [], ◌∷◌, find, or_else, ◌=?◌, if◌then◌else◌,
}
use core_banking_system.Prelude.Int.{ℤ, pos}
use core_banking_system.Types.Payment.{Participant, Reserve}
use core_banking_system.Ui.Node.{
  Node, nothing, text, money, copy_id, hint, skeleton, link, action, ◌▹◌, each,
}
use core_banking_system.Ui.Parts.{Answer, page_header, or_error}

-- `reserveFor`: an unknown reserve is shown as 0.
unfoldable pub reserve_for : Option (List Reserve) → String → ℤ
reserve_for reserves pid = elim (find (λ r. r.participant =? pid) (or_else reserves [])) [
  | none ↦ pos 0
  | some r ↦ r.reserve
]

unfoldable pub participant_card : Option (List Reserve) → Participant → Node
unfolding reserve_for
participant_card reserves p = link ("participants" ∷ p.id ∷ []) (
    text p.name
    ▹ copy_id p.id
    ▹ text "Reserves"
    ▹ hint "central-bank-reserves"
    ▹ money (reserve_for reserves p.id))

unfoldable pub participant_cards : Option (List Participant) → Option (List Reserve) → Node
unfolding participant_card
participant_cards none reserves = nothing
participant_cards (some []) reserves =
    text "No participants yet. Create your first member bank to start moving money."
    ▹ action "New participant"
participant_cards (some (p ∷ ps)) reserves = each (participant_card reserves) (p ∷ ps)

unfoldable pub home : Answer (List Participant) → Option (List Reserve) → Node
unfolding page_header or_error participant_cards
home participants reserves =
    page_header "Dashboard" (some "clearing-vs-settlement")
      (some
        "An interbank payment network running on a double-entry ledger. Each participant is a member bank; they meet at the central bank to settle.")
      (action "New participant")
    ▹ or_error participants true (
        if participants.is_loading
        then skeleton ▹ skeleton ▹ skeleton
        else participant_cards participants.result reserves)
