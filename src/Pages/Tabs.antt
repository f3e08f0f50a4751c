-- ===== src/Pages/Tabs.antt =====
-- The tab that a page of a participant marks.
use Prim.Native.Char.{Char, code}
use Prim.Native.String
use package.text.Mathlib.TextLemmas.{nil-append, cons-append, append_assoc}
use package.text.Mathlib.Text.{is_eq}
use package.text.Mathlib.TextPositions.{compare_self}
use core_banking_system.Prelude.{
  ◌≡◌, refl, ap, ◌∙◌, String, Bool, true, false, List, [], ◌∷◌, map, filter, starts_with, nat_eq,
  ◌+s◌, ◌=?◌, if◌then◌else◌,
}
use core_banking_system.Client.{url}
use core_banking_system.Ui.Node.{Target}
use core_banking_system.Pages.Participant.{tab, tabs, is_active}

nat_eq_refl : (c : Char) → nat_eq (code c) (code c) ≡ true
nat_eq_refl c = rw (nat_eq, compare_self (code c)) refl

-- A common beginning does not matter.
starts_with-append : (a x y : String) → starts_with (a +s x) (a +s y) ≡ starts_with x y
unfolding starts_with
starts_with-append String.[] x y = rw (nil-append x, nil-append y) refl
starts_with-append (String.◌∷◌ c a) x y =
    rw (cons-append c a x, cons-append c a y, nat_eq_refl c) (starts_with-append a x y)

compare-cons :
    (c : Char) (s t : String)
    → String.compare (String.◌∷◌ c s) (String.◌∷◌ c t) ≡ String.compare s t
compare-cons c s t = String.compare.cons-cons c c s t ∙ rw (compare_self (code c)) refl

eq-append : (a x y : String) → ((a +s x) =? (a +s y)) ≡ (x =? y)
eq-append String.[] x y = rw (nil-append x, nil-append y) refl
eq-append (String.◌∷◌ c a) x y =
    rw (cons-append c a x, cons-append c a y)
      (ap is_eq (compare-cons c (a +s x) (a +s y)) ∙ eq-append a x y)

-- No longer than.
abbrev covers : String → String → Bool
covers a String.[] = true
covers String.[] (String.◌∷◌ d p) = false
covers (String.◌∷◌ c a) (String.◌∷◌ d p) = covers a p

-- More at the end does not matter for a beginning that is not longer.
starts_with_more : (a z p : String) → covers a p ≡ true → starts_with (a +s z) p ≡ starts_with a p
unfolding starts_with
starts_with_more a z String.[] h = refl
starts_with_more String.[] z (String.◌∷◌ d p) h = absurd cc
starts_with_more (String.◌∷◌ c a) z (String.◌∷◌ d p) h =
    rw cons-append (rw (starts_with_more a z p h) refl)

url-beneath :
    (pid : String) (r : Target)
    → url ("participants" ∷ pid ∷ r) ≡ ("/participants/" +s pid) +s url r
unfolding url
url-beneath pid r =
    rw
      (
        ← append_assoc "/" "participants" ("/" +s (pid +s url r)),
        ← append_assoc "/participants" "/" (pid +s url r),
        append_assoc "/participants/" pid (url r),
      )
      refl

-- The labels of the tabs that are marked at a path.
unfoldable pub marked : String → Target → List String
unfolding tabs is_active
marked pid t = map (λ b. b.label) (filter (is_active (url t)) (tabs pid))

module _ (pid : String) (r q : Target) where
  is_active-tab :
      (label : String)
      → is_active (url ("participants" ∷ pid ∷ r)) (tab ("participants" ∷ pid ∷ q) label)
        ≡ starts_with (url r) (url q)
  unfolding is_active
  is_active-tab label =
      rw (url-beneath pid r, url-beneath pid q) (starts_with-append _ (url r) (url q))

is_active-exact :
    (pid : String) (r : Target) (label : String)
    → is_active
        (url ("participants" ∷ pid ∷ r))
        (record { target = "participants" ∷ pid ∷ []; label = label; exact = true })
      ≡ (url r =? "")
unfolding is_active
is_active-exact pid r label =
    rw (url-beneath pid r, url-beneath pid [])
      (eq-append ("/participants/" +s pid) (url r) (url []))

-- Selecting by a test is selecting by its answers.
abbrev chosen : List (Bool × String) → List String
chosen [] = []
chosen ((b, s) ∷ l) = if b then s ∷ chosen l else chosen l

map-filter {ℓ} :
    {A : Type ℓ} (p : A → Bool) (f : A → String) (xs : List A)
    → map f (filter p xs) ≡ chosen (map (λ x. (p x, f x)) xs)
map-filter p f [] = refl
map-filter p f (x ∷ xs) =
    elim (p x)
      as (λ b. map f (if b then x ∷ filter p xs else filter p xs) ≡ (
        if b then f x ∷ chosen (map (λ y. (p y, f y)) xs) else chosen (map (λ y. (p y, f y)) xs))) [
          | true ↦ ap (λ l. f x ∷ l) (map-filter p f xs)
          | false ↦ map-filter p f xs
        ]

-- The tabs at a path beneath a participant, by what is left of the path.
marked_at :
    (pid : String) (r : Target)
    → marked pid ("participants" ∷ pid ∷ r)
      ≡ chosen (
          (url r =? "", "Overview")
          ∷ (starts_with (url r) "/ledger", "General ledger")
          ∷ (starts_with (url r) "/transactions", "Transactions")
          ∷ (starts_with (url r) "/audit", "Audit")
          ∷ (starts_with (url r) "/deposit-accounts", "Deposit accounts")
          ∷ (starts_with (url r) "/deposit-audit", "Deposit audit")
          ∷ [])
unfolding marked tabs
marked_at pid r =
    map-filter (is_active (url ("participants" ∷ pid ∷ r))) (λ b. b.label) (tabs pid)
    ∙ rw
        (
          is_active-exact pid r "Overview",
          is_active-tab pid r ("ledger" ∷ []) "General ledger",
          is_active-tab pid r ("transactions" ∷ []) "Transactions",
          is_active-tab pid r ("audit" ∷ []) "Audit",
          is_active-tab pid r ("deposit-accounts" ∷ []) "Deposit accounts",
          is_active-tab pid r ("deposit-audit" ∷ []) "Deposit audit",
        )
        refl

no_empty : (c : Char) (a z : String) → (((String.◌∷◌ c a) +s z) =? "") ≡ false
no_empty c a z = rw cons-append (ap is_eq (String.compare.cons-nil c (a +s z)))

url-deposit_account :
    (did : String) → url ("deposit-accounts" ∷ did ∷ []) ≡ "/deposit-accounts" +s url (did ∷ [])
unfolding url
url-deposit_account did = rw (← append_assoc "/" "deposit-accounts" ("/" +s (did +s ""))) refl

marked-deposit_account :
    (pid did : String)
    → marked pid ("participants" ∷ pid ∷ "deposit-accounts" ∷ did ∷ []) ≡ "Deposit accounts" ∷ []
unfolding starts_with
marked-deposit_account pid did =
    let more = starts_with_more "/deposit-accounts" (url (did ∷ [])) in
    marked_at pid ("deposit-accounts" ∷ did ∷ [])
    ∙ rw
        (
          url-deposit_account did,
          no_empty _ "deposit-accounts" (url (did ∷ [])),
          more "/ledger" refl,
          more "/transactions" refl,
          more "/audit" refl,
          more "/deposit-accounts" refl,
          more "/deposit-audit" refl,
        )
        refl

-- Each page of a participant marks one tab: its own, or, for the page of a deposit account, that of the
-- list of deposit accounts.
pub marked-page :
    (pid did : String)
    → (marked pid ("participants" ∷ pid ∷ []) ≡ "Overview" ∷ [])
      × (marked pid ("participants" ∷ pid ∷ "ledger" ∷ []) ≡ "General ledger" ∷ [])
      × (marked pid ("participants" ∷ pid ∷ "transactions" ∷ []) ≡ "Transactions" ∷ [])
      × (marked pid ("participants" ∷ pid ∷ "audit" ∷ []) ≡ "Audit" ∷ [])
      × (marked pid ("participants" ∷ pid ∷ "deposit-accounts" ∷ []) ≡ "Deposit accounts" ∷ [])
      × (marked pid ("participants" ∷ pid ∷ "deposit-accounts" ∷ did ∷ [])
          ≡ "Deposit accounts" ∷ [])
      × (marked pid ("participants" ∷ pid ∷ "deposit-audit" ∷ []) ≡ "Deposit audit" ∷ [])
unfolding url starts_with
marked-page pid did = (
  marked_at pid [],
  marked_at pid ("ledger" ∷ []),
  marked_at pid ("transactions" ∷ []),
  marked_at pid ("audit" ∷ []),
  marked_at pid ("deposit-accounts" ∷ []),
  marked-deposit_account pid did,
  marked_at pid ("deposit-audit" ∷ []),
)
