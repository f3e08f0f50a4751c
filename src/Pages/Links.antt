-- ===== src/Pages/Links.antt =====
-- Links lead to pages: the notion, and what each way of putting parts together keeps.
pub mod Resolve
pub mod Items
pub mod Reachable
pub mod Rows
pub mod Screens
use Prim.Native.String
use core_banking_system.Prelude.{
  ◌≡◌, refl, String, Bool, true, false, Option, none, some, List, [], ◌∷◌, ◌||◌, arith,
  if◌then◌else◌, truthy,
}
use core_banking_system.Client.Target.{role, is_plain}
use core_banking_system.Backend.Routes.{match_path}
use core_banking_system.Ui.Node.{Node, nothing, text, link, row, cell, also, skeleton, Target, each}
use core_banking_system.Ui.Parts.{Answer, or_error, error_state, detail, when_text, hint_of}
use core_banking_system.Ui.Table.{
  Column, data_table, table_body, header_row, skeleton_row, item_row,
}
use core_banking_system.Pages.Lists.{listing}
use core_banking_system.Pages.Participant.{non_empty_or}
use core_banking_system.Pages.Sitemap.{leads, exists_page, is_segment}

-- All links of a part lead to a page.
abbrev pub Leads : Node → Type 0
Leads (link t n) = (leads t ≡ true) × Leads n
Leads (row (some t) n) = (leads t ≡ true) × Leads n
Leads (row none n) = Leads n
Leads (cell n) = Leads n
Leads (also a b) = Leads a × Leads b
Leads _ = Unit

or_true : (b : Bool) → (b || true) ≡ true
or_true true = refl
or_true false = refl

pub leads_payment : (id : String) → leads ("payments" ∷ id ∷ []) ≡ true
unfolding leads exists_page is_segment match_path truthy role is_plain
leads_payment String.[] = refl
leads_payment (String.◌∷◌ c t) = or_true _

pub leads_lists :
    (leads [] ≡ true)
    × (leads ("mandates" ∷ []) ≡ true)
    × (leads ("central-bank" ∷ []) ≡ true)
    × (leads ("schemes" ∷ []) ≡ true)
    × (leads ("payments" ∷ []) ≡ true)
    × (leads ("cycles" ∷ []) ≡ true)
    × (leads ("settlements" ∷ []) ≡ true)
unfolding leads exists_page is_segment match_path truthy role is_plain
leads_lists = (refl, refl, refl, refl, refl, refl, refl)

pub leads_cycle : (id : String) → leads ("cycles" ∷ id ∷ []) ≡ true
unfolding leads exists_page is_segment match_path truthy role is_plain
leads_cycle String.[] = refl
leads_cycle (String.◌∷◌ c t) = or_true _

pub leads_settlement : (id : String) → leads ("settlements" ∷ id ∷ []) ≡ true
unfolding leads exists_page is_segment match_path truthy role is_plain
leads_settlement String.[] = refl
leads_settlement (String.◌∷◌ c t) = or_true _

pub leads_participant : (id : String) → leads ("participants" ∷ id ∷ []) ≡ true
unfolding leads exists_page is_segment match_path truthy role is_plain
leads_participant String.[] = refl
leads_participant (String.◌∷◌ c t) = or_true _

pub leads_ledger : (id : String) → leads ("participants" ∷ id ∷ "ledger" ∷ []) ≡ true
unfolding leads exists_page is_segment match_path truthy role is_plain
leads_ledger String.[] = refl
leads_ledger (String.◌∷◌ c t) = or_true _

pub leads_transactions : (id : String) → leads ("participants" ∷ id ∷ "transactions" ∷ []) ≡ true
unfolding leads exists_page is_segment match_path truthy role is_plain
leads_transactions String.[] = refl
leads_transactions (String.◌∷◌ c t) = or_true _

pub leads_audit : (id : String) → leads ("participants" ∷ id ∷ "audit" ∷ []) ≡ true
unfolding leads exists_page is_segment match_path truthy role is_plain
leads_audit String.[] = refl
leads_audit (String.◌∷◌ c t) = or_true _

pub leads_deposit_accounts :
    (id : String) → leads ("participants" ∷ id ∷ "deposit-accounts" ∷ []) ≡ true
unfolding leads exists_page is_segment match_path truthy role is_plain
leads_deposit_accounts String.[] = refl
leads_deposit_accounts (String.◌∷◌ c t) = or_true _

pub leads_deposit_audit : (id : String) → leads ("participants" ∷ id ∷ "deposit-audit" ∷ []) ≡ true
unfolding leads exists_page is_segment match_path truthy role is_plain
leads_deposit_audit String.[] = refl
leads_deposit_audit (String.◌∷◌ c t) = or_true _

pub leads_deposit_account :
    (id did : String) → leads ("participants" ∷ id ∷ "deposit-accounts" ∷ did ∷ []) ≡ true
unfolding leads exists_page is_segment match_path truthy role is_plain
leads_deposit_account String.[] did = refl
leads_deposit_account (String.◌∷◌ c t) String.[] = ground arith
leads_deposit_account (String.◌∷◌ c t) (String.◌∷◌ d u) = or_true _

pub Leads-if : (b : Bool) (m n : Node) → Leads m → Leads n → Leads (if b then m else n)
Leads-if true m n h k = h
Leads-if false m n h k = k

pub Leads-when_text :
    (o : Option String) (show : String → Node)
    → ((t : String) → Leads (show t))
    → Leads (when_text o show)
unfolding when_text
Leads-when_text none show h = tt
Leads-when_text (some t) show h = Leads-if (truthy t) (show t) nothing (h t) tt

pub Leads-each :
    {A : Type 0} (render : A → Node) (xs : List A)
    → ((x : A) → Leads (render x))
    → Leads (each render xs)
unfolding each
Leads-each render [] h = tt
Leads-each render (x ∷ xs) h = (h x, Leads-each render xs h)

pub Leads-non_empty_or :
    {A : Type 0} (o : Option (List A)) (empty : Node) (render : A → Node)
    → Leads empty
    → ((x : A) → Leads (render x))
    → Leads (non_empty_or o empty render)
unfolding non_empty_or
Leads-non_empty_or none empty render e h = e
Leads-non_empty_or (some []) empty render e h = e
Leads-non_empty_or (some (x ∷ xs)) empty render e h = Leads-each render (x ∷ xs) h

pub Leads-or_error :
    {A : Type 0} (a : Answer A) (retry : Bool) (n : Node) → Leads n → Leads (or_error a retry n)
unfolding or_error error_state
Leads-or_error a retry n h =
    elim a.failure as (λ o. Leads (elim o [ none ↦ n | some e ↦ error_state e retry ])) [
      | none ↦ h
      | some e ↦ tt
    ]

pub Leads-detail :
    {A : Type 0} (a : Answer A) (waiting : Node) (content : A → Node)
    → Leads waiting
    → ((x : A) → Leads (content x))
    → Leads (detail a waiting content)
unfolding detail
Leads-detail a waiting content w h = Leads-or_error a true _ (
    Leads-if a.is_loading waiting _ w
      (elim a.result as (λ o. Leads (elim o [ none ↦ waiting | some x ↦ content x ])) [
        | none ↦ w
        | some x ↦ h x
      ]))

Leads-hint_of : (o : Option String) → Leads (hint_of o)
Leads-hint_of none = tt
Leads-hint_of (some id) = tt

-- The links of a table: those of its rows.
Leads-table_body :
    {A : Type 0} (columns : List (Column A)) (items : Option (List A)) (is_loading : Bool)
    (empty : String) (click : Option (A → Target))
    → ((x : A) → Leads (item_row columns click x))
    → Leads (table_body columns items is_loading (text empty) click)
unfolding table_body skeleton_row
Leads-table_body columns items true empty click h =
    Leads-each _ _ (λ _. Leads-each _ columns (λ _. tt))
Leads-table_body columns none false empty click h = tt
Leads-table_body columns (some []) false empty click h = tt
Leads-table_body columns (some (x ∷ xs)) false empty click h = Leads-each _ (x ∷ xs) h

pub Leads-data_table :
    {A : Type 0} (columns : List (Column A)) (items : Option (List A)) (is_loading : Bool)
    (empty : String) (click : Option (A → Target))
    → ((x : A) → Leads (item_row columns click x))
    → Leads (data_table columns items is_loading (text empty) click)
unfolding data_table header_row
Leads-data_table columns items is_loading empty click h = (
  Leads-each _ columns (λ c. (tt, Leads-hint_of c.hint_id)),
  Leads-table_body columns items is_loading empty click h,
)

pub Leads-listing :
    {A : Type 0} (columns : List (Column A)) (a : Answer (List A)) (empty : String)
    (click : Option (A → Target))
    → ((x : A) → Leads (item_row columns click x))
    → Leads (listing columns a empty click)
unfolding listing
Leads-listing columns a empty click h =
    Leads-or_error a true _ (Leads-data_table columns a.result a.is_loading empty click h)

pub ruleset link_rules = (
  leads_lists, leads_payment, leads_cycle, leads_settlement, leads_participant, leads_ledger,
  leads_transactions, leads_audit, leads_deposit_accounts, leads_deposit_audit,
  leads_deposit_account, Leads-if, Leads-when_text, Leads-each, Leads-non_empty_or, Leads-or_error,
  Leads-detail, Leads-data_table, Leads-listing,
)
