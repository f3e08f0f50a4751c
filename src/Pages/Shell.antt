-- ===== src/Pages/Shell.antt =====
-- web/src/components/app-shell.tsx and web/src/components/participant-switcher.tsx: what surrounds every
-- page.
use core_banking_system.Prelude.{
  String, Bool, Option, none, some, List, [], ◌∷◌, or_else, starts_with, ◌=?◌, truthy,
  if◌then◌else◌,
}
use core_banking_system.Client.{url}
use core_banking_system.Types.Payment.{Participant}
use core_banking_system.Ui.Node.{Node, text, link, action, Target, ◌▹◌, each}

-- `NETWORK_NAV`; the dashboard is at the root, which has no segment.
unfoldable pub network_nav : List (Target × String)
network_nav =
    ([], "Dashboard")
    ∷ ("payments" ∷ [], "Payments")
    ∷ ("mandates" ∷ [], "Mandates")
    ∷ ("cycles" ∷ [], "Clearing cycles")
    ∷ ("settlements" ∷ [], "Settlements")
    ∷ ("central-bank" ∷ [], "Central bank")
    ∷ ("schemes" ∷ [], "Schemes")
    ∷ []

-- The text of a target: `/` for the root.
unfoldable pub href : Target → String
unfolding url
href [] = "/"
href (s ∷ l) = url (s ∷ l)

unfoldable pub nav_is_active : String → Target → Bool
unfolding href
nav_is_active pathname [] = pathname =? "/"
nav_is_active pathname (s ∷ l) = starts_with pathname (href (s ∷ l))

unfoldable pub nav_links : Node
unfolding network_nav
nav_links = each (λ i. link i.0 (text i.1)) network_nav

unfoldable pub brand : Node
brand = link [] (text "Ledger" ▹ text "Core banking explorer")

-- The switcher: an entry for each participant, which leads to its page.
unfoldable pub switcher : Option (List Participant) → Node
switcher participants =
    each (λ p. link ("participants" ∷ p.id ∷ []) (text p.name)) (or_else participants [])
    ▹ action "New participant"

-- What is remembered in the local storage: the participant of the page, if it has one.
unfoldable pub remembered : Option String → Option String → Option String
remembered none stored = stored
remembered (some pid) stored = if truthy pid then some pid else stored

-- The side bar, the drawer of small screens and the top bar, around a page.
unfoldable pub app_shell : Option (List Participant) → Node → Node
unfolding brand nav_links switcher
app_shell participants children =
    brand
    ▹ nav_links
    ▹ text "Data lives in memory and resets when the backend restarts."
    ▹ brand
    ▹ nav_links
    ▹ text "Data lives in memory and resets when the backend restarts."
    ▹ text "Ledger"
    ▹ switcher participants
    ▹ children
