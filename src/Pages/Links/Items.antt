-- ===== src/Pages/Links/Items.antt =====
-- The pages that a list screen links to, once its query has answered.
use core_banking_system.Prelude.{
  ◌≡◌, refl, String, true, false, truthy, if◌then◌else◌, Option, none, some, List, [], ◌∷◌, map,
}
use core_banking_system.Types.Deposit.{DepositAccount, Balance}
use core_banking_system.Types.Payment.{Participant, Payment, ClearingCycle, Settlement, Reserve}
use core_banking_system.Ui.Node.{Node, nothing, text, Target, targets, each}
use core_banking_system.Ui.Parts.{Answer, page_header, hint_of, when_text, or_error, status_badge}
use core_banking_system.Ui.Dates.{Calendar}
use core_banking_system.Ui.Table.{Column, header_row, item_row, table_body, data_table}
use core_banking_system.Pages.Home
use core_banking_system.Pages.Lists
use core_banking_system.Pages.Participant

-- A query that has answered.
abbrev pub loaded : {A : Type 0} → A → Answer A
loaded x = record { result = some x; is_loading = false; failure = none }

pub targets-each :
    {A : Type 0} (show : A → Node) (f : A → Target) (xs : List A)
    → ((x : A) → targets (show x) ≡ f x ∷ [])
    → targets (each show xs) ≡ map f xs
unfolding targets each
targets-each show f [] h = refl
targets-each show f (x ∷ xs) h = rw (h x, targets-each show f xs h) refl

targets-hint : (o : Option String) → targets (hint_of o) ≡ []
unfolding targets
targets-hint none = refl
targets-hint (some h) = refl

targets-header_row : {A : Type 0} (columns : List (Column A)) → targets (header_row columns) ≡ []
unfolding header_row targets each
targets-header_row [] = refl
targets-header_row (c ∷ cs) = rw (targets-hint c.hint_id, targets-header_row cs) refl

-- A table whose rows are clickable and whose cells have no links.
targets-listing :
    {A : Type 0} (columns : List (Column A)) (xs : List A) (empty : String) (f : A → Target)
    → ((x : A) → targets (item_row columns (some f) x) ≡ f x ∷ [])
    → targets (Lists.listing columns (loaded xs) empty (some f)) ≡ map f xs
unfolding Lists.listing or_error data_table table_body targets
targets-listing columns [] empty f h = rw (targets-header_row columns) refl
targets-listing columns (x ∷ xs) empty f h =
    rw (targets-header_row columns) (targets-each (item_row columns (some f)) f (x ∷ xs) h)

targets-when_text : (o : Option String) → targets (when_text o text) ≡ []
unfolding when_text targets
targets-when_text none = refl
targets-when_text (some s) =
    elim (truthy s) as (λ b. targets (if b then text s else nothing) ≡ []) [
      | true ↦ refl
      | false ↦ refl
    ]

targets-page_header :
    (title : String) (hint_id description : Option String) (actions : Node)
    → targets (page_header title hint_id description actions) ≡ targets actions
unfolding page_header targets
targets-page_header title hint_id description actions =
    rw (targets-hint hint_id, targets-when_text description) refl

targets-payments :
    (ps : List Payment)
    → targets (Lists.payments (loaded ps)) ≡ map (λ p. "payments" ∷ p.id ∷ []) ps
unfolding Lists.payments Lists.payment_columns item_row each status_badge targets
targets-payments ps =
    rw
      (
        targets-page_header,
        targets-listing Lists.payment_columns ps
            "No payments yet. Initiate one between two funded participants."
            (λ p. "payments" ∷ p.id ∷ []) (λ p. refl),
      )
      refl

module _ (cal : Calendar) where
  targets-cycles :
      (cs : List ClearingCycle)
      → targets (Lists.cycles cal (loaded cs)) ≡ map (λ c. "cycles" ∷ c.id ∷ []) cs
  unfolding Lists.cycles Lists.cycle_columns item_row each status_badge targets
  targets-cycles cs =
      rw
        (
          targets-page_header,
          targets-listing (Lists.cycle_columns cal) cs
              "No cycles yet. Open one for a scheme, then route payments into it."
              (λ c. "cycles" ∷ c.id ∷ []) (λ c. refl),
        )
        refl

  targets-settlements :
      (ss : List Settlement)
      → targets (Lists.settlements cal (loaded ss)) ≡ map (λ s. "settlements" ∷ s.id ∷ []) ss
  unfolding Lists.settlements Lists.settlement_columns item_row each targets
  targets-settlements ss =
      rw
        (
          targets-page_header,
          targets-listing (Lists.settlement_columns cal) ss
              "No settlements yet. Close and settle a clearing cycle to create one."
              (λ s. "settlements" ∷ s.id ∷ []) (λ s. refl),
        )
        refl

targets-home :
    (ps : List Participant) (rs : Option (List Reserve))
    → targets (Home.home (loaded ps) rs) ≡ map (λ p. "participants" ∷ p.id ∷ []) ps
unfolding Home.home or_error Home.participant_cards Home.participant_card targets
targets-home [] rs = rw targets-page_header refl
targets-home (p ∷ ps) rs =
    rw targets-page_header (
      targets-each (Home.participant_card rs) (λ q. "participants" ∷ q.id ∷ []) (p ∷ ps)
        (λ q. refl))

targets-deposit_accounts :
    (pid : String) (balance : String → Option Balance) (ds : List DepositAccount)
    → targets (Participant.deposit_accounts pid balance (loaded ds))
      ≡ map (λ d. "participants" ∷ pid ∷ "deposit-accounts" ∷ d.id ∷ []) ds
unfolding Participant.deposit_accounts or_error Participant.non_empty_or
    Participant.deposit_account_row status_badge targets
targets-deposit_accounts pid balance [] = refl
targets-deposit_accounts pid balance (d ∷ ds) =
    targets-each (Participant.deposit_account_row pid balance)
      (λ e. "participants" ∷ pid ∷ "deposit-accounts" ∷ e.id ∷ []) (d ∷ ds) (λ e. refl)

-- A list screen whose query has answered links to the page of each item, in order, and to nothing else.
pub targets-loaded :
    (cal : Calendar) (ps : List Participant) (rs : Option (List Reserve)) (payments : List Payment)
    (cycles : List ClearingCycle) (settlements : List Settlement) (pid : String)
    (balance : String → Option Balance) (ds : List DepositAccount)
    → (targets (Home.home (loaded ps) rs) ≡ map (λ p. "participants" ∷ p.id ∷ []) ps)
      × (targets (Lists.payments (loaded payments)) ≡ map (λ p. "payments" ∷ p.id ∷ []) payments)
      × (targets (Lists.cycles cal (loaded cycles)) ≡ map (λ c. "cycles" ∷ c.id ∷ []) cycles)
      × (targets (Lists.settlements cal (loaded settlements))
          ≡ map (λ s. "settlements" ∷ s.id ∷ []) settlements)
      × (targets (Participant.deposit_accounts pid balance (loaded ds))
          ≡ map (λ d. "participants" ∷ pid ∷ "deposit-accounts" ∷ d.id ∷ []) ds)
targets-loaded cal ps rs payments cycles settlements pid balance ds = (
  targets-home ps rs,
  targets-payments payments,
  targets-cycles cal cycles,
  targets-settlements cal settlements,
  targets-deposit_accounts pid balance ds,
)
