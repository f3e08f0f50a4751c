-- ===== src/Pages/Links/Reachable.antt =====
-- Following links from the dashboard.
use mathlib.Core.List.{
  Mem, mem-append_left, mem-append_right, mem-map_of_mem, mem-cons_self, mem-cons_of_mem,
}
use core_banking_system.Prelude.{
  ◌≡◌, refl, ℕ, suc, ◌≤◌, String, Option, some, List, [], ◌∷◌, ◌++◌, map, arith,
}
use core_banking_system.Types.Deposit.{DepositAccount, Balance}
use core_banking_system.Types.Payment.{Participant, Payment, ClearingCycle, Settlement, Reserve}
use core_banking_system.Ui.Node.{Node, text, link, Target, targets, each}
use core_banking_system.Ui.Parts.{Answer, or_error}
use core_banking_system.Ui.Dates.{Calendar}
use core_banking_system.Pages.Home
use core_banking_system.Pages.Lists
use core_banking_system.Pages.Participant
use core_banking_system.Pages.Shell
use core_banking_system.Pages.Screen.{Screen, Tabbed, render, render_tabbed, document}
use core_banking_system.Pages.Links.Items.{loaded, targets-each, targets-loaded}

-- What the backend holds, as far as the lists show it, and what the platform and the other queries answer.
pub record World : Type 0 where
  pub calendar : Calendar
  pub participants : List Participant
  pub payments : List Payment
  pub cycles : List ClearingCycle
  pub settlements : List Settlement
  pub deposit_accounts : String → List DepositAccount
  pub reserves : Option (List Reserve)
  pub reserve : Answer Reserve
  pub balance : String → Option Balance

-- The list screens at their paths, once their queries have answered.
pub data Shown (w : World) : Target → Screen → Type 0 where
  home : Shown w [] (Screen.home (loaded w.participants) w.reserves)
  payments : Shown w ("payments" ∷ []) (Screen.payments (loaded w.payments))
  cycles : Shown w ("cycles" ∷ []) (Screen.cycles (loaded w.cycles))
  settlements : Shown w ("settlements" ∷ []) (Screen.settlements (loaded w.settlements))
  participant :
      (p : Participant)
      → Mem p w.participants
      → Shown w
          ("participants" ∷ p.id ∷ [])
          (Screen.of_participant p.id (loaded p) (Tabbed.overview (some p) w.reserve))
  deposit_accounts :
      (p : Participant)
      → Mem p w.participants
      → Shown w ("participants" ∷ p.id ∷ "deposit-accounts" ∷ []) (
          Screen.of_participant p.id
            (loaded p)
            (Tabbed.deposit_accounts w.balance (loaded (w.deposit_accounts p.id))))

-- The pages that can be reached from the dashboard by following so many links.
pub data Reach (w : World) : ℕ → Target → Type 0 where
  start : Reach w 0 []
  follow :
      {n : ℕ} {t u : Target} (s : Screen)
      → Reach w n t
      → Shown w t s
      → Mem u (targets (document w.calendar (some w.participants) s))
      → Reach w (suc n) u

-- The pages there are in a world: those of the shell, those of what the lists hold, and the tabs of the
-- participants.
pub data Exists (w : World) : Target → Type 0 where
  network : (t : Target) (label : String) → Mem (t, label) Shell.network_nav → Exists w t
  payment : (p : Payment) → Mem p w.payments → Exists w ("payments" ∷ p.id ∷ [])
  cycle : (c : ClearingCycle) → Mem c w.cycles → Exists w ("cycles" ∷ c.id ∷ [])
  settlement : (s : Settlement) → Mem s w.settlements → Exists w ("settlements" ∷ s.id ∷ [])
  participant_tab :
      (p : Participant) (t : Participant.Tab)
      → Mem p w.participants
      → Mem t (Participant.tabs p.id)
      → Exists w t.target
  deposit_account :
      (p : Participant) (d : DepositAccount)
      → Mem p w.participants
      → Mem d (w.deposit_accounts p.id)
      → Exists w ("participants" ∷ p.id ∷ "deposit-accounts" ∷ d.id ∷ [])

-- A list of links, one for each element.
mem-links :
    {A : Type 0} (f : A → Target) (g : A → String) (xs : List A) (x : A)
    → Mem x xs
    → Mem (f x) (targets (each (λ y. link (f y) (text (g y))) xs))
unfolding targets
mem-links f g xs x m =
    rw (targets-each (λ y. link (f y) (text (g y))) f xs (λ y. refl)) (mem-map_of_mem f m)

module _ (w : World) where
  abbrev links_of : Screen → List Target
  links_of s = targets (document w.calendar (some w.participants) s)

  -- A link of the page's own is a link of the document, and so is a link of the shell.
  mem-own : (s : Screen) (u : Target) → Mem u (targets (render w.calendar s)) → Mem u (links_of s)
  unfolding document Shell.app_shell Shell.brand targets
  mem-own s u m =
      let nav = targets Shell.nav_links in
      let switch = targets (Shell.switcher (some w.participants)) in
      mem-cons_of_mem [] (
        mem-append_right nav
          (mem-cons_of_mem [] (mem-append_right nav (mem-append_right switch m))))

  mem-network :
      (s : Screen) (t : Target) (label : String)
      → Mem (t, label) Shell.network_nav
      → Mem t (links_of s)
  unfolding document Shell.app_shell Shell.brand Shell.nav_links targets
  mem-network s t label m =
      mem-cons_of_mem []
        (mem-append_left _ (mem-links (λ i. i.0) (λ i. i.1) Shell.network_nav (t, label) m))

  Reach-network : (t : Target) (label : String) → Mem (t, label) Shell.network_nav → Reach w 1 t
  Reach-network t label m = Reach.follow _ Reach.start Shown.home (mem-network _ t label m)

  -- From a list screen to an item.
  Reach-item :
      {A : Type 0} (f : A → Target) (xs : List A) (x : A) {n : ℕ} {t : Target} (s : Screen)
      → Reach w n t
      → Shown w t s
      → targets (render w.calendar s) ≡ map f xs
      → Mem x xs
      → Reach w (suc n) (f x)
  Reach-item f xs x s r shown e m =
      Reach.follow s r shown (mem-own s (f x) (rw e (mem-map_of_mem f m)))

  lists :
      (pid : String)
      → (targets (Home.home (loaded w.participants) w.reserves)
          ≡ map (λ p. "participants" ∷ p.id ∷ []) w.participants)
        × (targets (Lists.payments (loaded w.payments))
            ≡ map (λ p. "payments" ∷ p.id ∷ []) w.payments)
        × (targets (Lists.cycles w.calendar (loaded w.cycles))
            ≡ map (λ c. "cycles" ∷ c.id ∷ []) w.cycles)
        × (targets (Lists.settlements w.calendar (loaded w.settlements))
            ≡ map (λ s. "settlements" ∷ s.id ∷ []) w.settlements)
        × (targets (Participant.deposit_accounts pid w.balance (loaded (w.deposit_accounts pid)))
            ≡ map
                (λ d. "participants" ∷ pid ∷ "deposit-accounts" ∷ d.id ∷ [])
                (w.deposit_accounts pid))
  lists pid =
      targets-loaded w.calendar w.participants w.reserves w.payments w.cycles w.settlements pid
        w.balance (w.deposit_accounts pid)

  Reach-payment : (p : Payment) → Mem p w.payments → Reach w 2 ("payments" ∷ p.id ∷ [])
  unfolding render Shell.network_nav
  Reach-payment p m =
      Reach-item (λ q. "payments" ∷ q.id ∷ []) w.payments p _
        (Reach-network ("payments" ∷ []) "Payments" (mem-cons_of_mem _ mem-cons_self))
        Shown.payments (lists "").1 m

  Reach-cycle : (c : ClearingCycle) → Mem c w.cycles → Reach w 2 ("cycles" ∷ c.id ∷ [])
  unfolding render Shell.network_nav
  Reach-cycle c m =
      Reach-item (λ d. "cycles" ∷ d.id ∷ []) w.cycles c _
        (Reach-network ("cycles" ∷ []) "Clearing cycles"
          (mem-cons_of_mem _ (mem-cons_of_mem _ (mem-cons_of_mem _ mem-cons_self))))
        Shown.cycles (lists "").2 m

  Reach-settlement : (s : Settlement) → Mem s w.settlements → Reach w 2 ("settlements" ∷ s.id ∷ [])
  unfolding render Shell.network_nav
  Reach-settlement s m =
      Reach-item (λ t. "settlements" ∷ t.id ∷ []) w.settlements s _
        (Reach-network ("settlements" ∷ []) "Settlements" (
          mem-cons_of_mem _
            (mem-cons_of_mem _ (mem-cons_of_mem _ (mem-cons_of_mem _ mem-cons_self)))))
        Shown.settlements (lists "").3 m

  -- The frame of a participant whose query has answered shows the tabs, then the page.
  targets-frame :
      (p : Participant) (n : Node)
      → targets (Participant.frame p.id (loaded p) n)
        ≡ map (λ t. t.target) (Participant.tabs p.id) ++ targets n
  unfolding Participant.frame or_error Participant.title targets
  targets-frame p n =
      rw
        (targets-each (λ t. link t.target (text t.label)) (λ t. t.target) (Participant.tabs p.id)
          (λ t. refl))
        refl

  Reach-participant :
      (p : Participant) → Mem p w.participants → Reach w 1 ("participants" ∷ p.id ∷ [])
  unfolding render
  Reach-participant p m =
      Reach-item (λ q. "participants" ∷ q.id ∷ []) w.participants p _ Reach.start Shown.home
        (lists "").0 m

  Reach-tab :
      (p : Participant) (t : Participant.Tab)
      → Mem p w.participants
      → Mem t (Participant.tabs p.id)
      → Reach w 2 t.target
  unfolding render
  Reach-tab p t m k = Reach.follow _ (Reach-participant p m) (Shown.participant p m) (
      mem-own (Screen.of_participant p.id (loaded p) (Tabbed.overview (some p) w.reserve)) t.target
        (rw (targets-frame p) (mem-append_left _ (mem-map_of_mem (λ b. b.target) k))))

  Reach-deposit_account :
      (p : Participant) (d : DepositAccount)
      → Mem p w.participants
      → Mem d (w.deposit_accounts p.id)
      → Reach w 3 ("participants" ∷ p.id ∷ "deposit-accounts" ∷ d.id ∷ [])
  unfolding render render_tabbed Participant.tabs
  Reach-deposit_account p d m k =
      Reach.follow _
        (Reach-tab p
          (Participant.tab ("participants" ∷ p.id ∷ "deposit-accounts" ∷ []) "Deposit accounts") m
          (mem-cons_of_mem _
            (mem-cons_of_mem _ (mem-cons_of_mem _ (mem-cons_of_mem _ mem-cons_self)))))
        (Shown.deposit_accounts p m)
        (mem-own
          (Screen.of_participant p.id (loaded p)
            (Tabbed.deposit_accounts w.balance (loaded (w.deposit_accounts p.id))))
          _
          (rw (targets-frame p) (
            mem-append_right (map (λ b. b.target) (Participant.tabs p.id)) (
              rw (lists p.id).4
                (mem-map_of_mem (λ e. "participants" ∷ p.id ∷ "deposit-accounts" ∷ e.id ∷ []) k)))))

-- Every page that exists is reached from the dashboard by following at most three links.
pub Reach-Exists : (w : World) (t : Target) → Exists w t → (n : ℕ) × (n ≤ 3) × Reach w n t
Reach-Exists w t (Exists.network _ label m) = (1, omega arith, Reach-network w t label m)
Reach-Exists w _ (Exists.payment p m) = (2, omega arith, Reach-payment w p m)
Reach-Exists w _ (Exists.cycle c m) = (2, omega arith, Reach-cycle w c m)
Reach-Exists w _ (Exists.settlement s m) = (2, omega arith, Reach-settlement w s m)
Reach-Exists w _ (Exists.participant_tab p t m k) = (2, omega arith, Reach-tab w p t m k)
Reach-Exists w _ (Exists.deposit_account p d m k) =
    (3, omega arith, Reach-deposit_account w p d m k)
