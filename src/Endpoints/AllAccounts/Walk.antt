-- ===== src/Endpoints/AllAccounts/Walk.antt =====
-- What `getAllAccounts` of web/src/lib/api/endpoints.ts answers.
use mathlib.Core.List.{append_assoc}
use core_banking_system.Prelude.{◌≡◌, refl, ap, ◌∙◌, String, List, [], ◌∷◌, ◌++◌, map}
use core_banking_system.Types.Ledger.{Ledger, Subledger, Account}
use core_banking_system.Endpoints.AllAccounts.{
  Settled, fulfilled, rejected, ◌>>=◌, all_of, flat, AccountWithContext, in_context,
  subledger_accounts, ledger_accounts, get_all_accounts,
}

module _ {ℓ κ} {A : Type ℓ} {B : Type κ} (f : A → Settled B) where
  -- One rejected promise rejects the whole.
  all_of-rejected :
      (xs ys : List A) (x : A) {e : String}
      → f x ≡ rejected e
      → (r : String) × (all_of f (xs ++ x ∷ ys) ≡ rejected r)
  unfolding all_of
  all_of-rejected [] ys x {e} h = (e, rw h refl)
  all_of-rejected (z ∷ xs) ys x h = behind (f z) (all_of-rejected xs ys x h)
    where
      behind :
          (s : Settled B) {t : Settled (List B)}
          → ((r : String) × (t ≡ rejected r))
          → (r : String) × ((s >>= λ b. t >>= λ bs. fulfilled (b ∷ bs)) ≡ rejected r)
      behind (rejected e) k = (e, refl)
      behind (fulfilled b) (r, k) = (r, ap (λ u. u >>= λ bs. fulfilled (b ∷ bs)) k)

all_of-fulfilled {ℓ κ} :
    {A : Type ℓ} {B : Type κ} (f : A → Settled B) (g : A → B) (xs : List A)
    → ((x : A) → f x ≡ fulfilled (g x))
    → all_of f xs ≡ fulfilled (map g xs)
unfolding all_of
all_of-fulfilled f g [] h = refl
all_of-fulfilled f g (x ∷ xs) h = rw (h x, all_of-fulfilled f g xs h) refl

-- The chart as three nested loops, each row with the names of its ledger and its subledger.
abbrev subledger_rows :
    Ledger → Subledger → List Account → List AccountWithContext → List AccountWithContext
subledger_rows l s [] rest = rest
subledger_rows l s (a ∷ rows) rest =
    record { account = a; ledger_name = l.name; subledger_name = s.name }
    ∷ subledger_rows l s rows rest

abbrev ledger_rows :
    (String → List Account)
    → Ledger
    → List Subledger
    → List AccountWithContext
    → List AccountWithContext
ledger_rows accounts l [] rest = rest
ledger_rows accounts l (s ∷ subs) rest =
    subledger_rows l s (accounts s.id) (ledger_rows accounts l subs rest)

abbrev pub chart :
    (String → List Subledger) → (String → List Account) → List Ledger → List AccountWithContext
chart subledgers accounts [] = []
chart subledgers accounts (l ∷ ledgers) =
    ledger_rows accounts l (subledgers l.id) (chart subledgers accounts ledgers)

subledger_rows-append :
    (l : Ledger) (s : Subledger) (rows : List Account) (rest : List AccountWithContext)
    → map (in_context l s) rows ++ rest ≡ subledger_rows l s rows rest
subledger_rows-append l s [] rest = refl
subledger_rows-append l s (a ∷ rows) rest =
    ap (λ t. in_context l s a ∷ t) (subledger_rows-append l s rows rest)

ledger_rows-append :
    (accounts : String → List Account) (l : Ledger) (subs : List Subledger)
    (rest : List AccountWithContext)
    → flat (map (λ s. map (in_context l s) (accounts s.id)) subs) ++ rest
      ≡ ledger_rows accounts l subs rest
unfolding flat
ledger_rows-append accounts l [] rest = refl
ledger_rows-append accounts l (s ∷ subs) rest =
    append_assoc (map (in_context l s) (accounts s.id)) _ rest
    ∙ (ap (λ t. map (in_context l s) (accounts s.id) ++ t) (ledger_rows-append accounts l subs rest)
        ∙ subledger_rows-append l s (accounts s.id) (ledger_rows accounts l subs rest))

flat-chart :
    (subledgers : String → List Subledger) (accounts : String → List Account)
    (ledgers : List Ledger)
    → flat (
        map (λ l. flat (map (λ s. map (in_context l s) (accounts s.id)) (subledgers l.id))) ledgers)
      ≡ chart subledgers accounts ledgers
unfolding flat
flat-chart subledgers accounts [] = refl
flat-chart subledgers accounts (l ∷ ledgers) =
    ap (λ t. flat (map (λ s. map (in_context l s) (accounts s.id)) (subledgers l.id)) ++ t)
      (flat-chart subledgers accounts ledgers)
    ∙ ledger_rows-append accounts l (subledgers l.id) (chart subledgers accounts ledgers)

module _ (list_ledgers : String → Settled (List Ledger))
    (list_subledgers : String → String → Settled (List Subledger))
    (list_accounts : String → String → Settled (List Account)) where
  -- Where every read for the participant is answered, the answer has every account of every subledger of
  -- every ledger, in the order of the reads, with the names of its ledger and its subledger.
  pub get_all_accounts-fulfilled :
      (pid : String) (ledgers : List Ledger) (subledgers : String → List Subledger)
      (accounts : String → List Account)
      → list_ledgers pid ≡ fulfilled ledgers
      → ((lid : String) → list_subledgers pid lid ≡ fulfilled (subledgers lid))
      → ((sid : String) → list_accounts pid sid ≡ fulfilled (accounts sid))
      → get_all_accounts list_ledgers list_subledgers list_accounts pid
        ≡ fulfilled (chart subledgers accounts ledgers)
  unfolding get_all_accounts ledger_accounts subledger_accounts
  get_all_accounts-fulfilled pid ledgers subledgers accounts hl hs ha =
      let per_ledger =
        all_of-fulfilled (ledger_accounts list_ledgers list_subledgers list_accounts pid)
          (λ l. flat (map (λ s. map (in_context l s) (accounts s.id)) (subledgers l.id))) ledgers
          (λ l.
            let per_sub =
              all_of-fulfilled (subledger_accounts list_ledgers list_subledgers list_accounts pid l)
                (λ s. map (in_context l s) (accounts s.id)) (subledgers l.id)
                (λ s. rw (ha s.id) refl) in
            rw (hs l.id, per_sub) refl) in
      rw (hl, per_ledger) (ap fulfilled (flat-chart subledgers accounts ledgers))

  -- Where the accounts of one subledger cannot be read, the whole walk is rejected: no partial chart of
  -- accounts is answered.
  pub get_all_accounts-rejected :
      (pid : String) (l : Ledger) (s : Subledger) (before behind : List Ledger)
      (left right : List Subledger) {e : String}
      → list_ledgers pid ≡ fulfilled (before ++ l ∷ behind)
      → list_subledgers pid l.id ≡ fulfilled (left ++ s ∷ right)
      → list_accounts pid s.id ≡ rejected e
      → (r : String) × (get_all_accounts list_ledgers list_subledgers list_accounts pid
          ≡ rejected r)
  unfolding get_all_accounts ledger_accounts subledger_accounts
  get_all_accounts-rejected pid l s before behind left right {e = e} hl hs ha =
      let (r1, h1) =
        all_of-rejected (subledger_accounts list_ledgers list_subledgers list_accounts pid l) left
          right s {e = e} (rw ha refl) in
      let (r2, h2) =
        all_of-rejected (ledger_accounts list_ledgers list_subledgers list_accounts pid) before
          behind l {e = r1} (rw (hs, h1) refl) in
      (r2, rw (hl, h2) refl)
