-- ===== src/Backend/Book/Equation.antt =====
-- The accounting equation of service.go: debit accounts against credit accounts.
use core_banking_system.Prelude.{◌≡◌, refl, ◌∙◌, ℕ, ◌+◌, ◌%◌, List, [], ◌∷◌, arith, if◌then◌else◌}
use core_banking_system.Enums.{Direction, debit, credit}
use core_banking_system.Backend.Book.{
  Account, Entry, Transaction, Book, range, opposite, same_direction, normal_direction, replay_all,
  compute_book_balance,
}
use core_banking_system.Backend.Book.Totals.{part, total, total_all}
use core_banking_system.Backend.Book.Balances.{on, replay_all-total}
use core_banking_system.Backend.Book.Balanced.{Reach, InBalance-Reach}
use core_banking_system.Backend.Book.Chart.{count_id, OnAccounts, AllOnAccounts, WellFormed-Reach}

-- A sum over accounts.
abbrev over : (Account → ℕ) → List Account → ℕ
over f [] = 0
over f (a ∷ cs) = f a + over f cs

over_add :
    (f g : Account → ℕ) (cs : List Account) → over (λ a. f a + g a) cs ≡ over f cs + over g cs
over_add f g [] = omega arith
over_add f g (a ∷ cs) = let i = over_add f g cs in omega arith

over_zero : (cs : List Account) → over (λ a. 0) cs ≡ 0
over_zero [] = refl
over_zero (a ∷ cs) = let i = over_zero cs in omega arith

-- Over all accounts, an entry counts as often as its account occurs.
over_on_none :
    (dir : Direction) (e : Entry) (cs : List Account)
    → count_id e.account_id cs ≡ 0
    → over (λ a. on a.id dir e) cs ≡ 0
over_on_none dir e [] h = refl
over_on_none dir e (a ∷ cs) h = let i = over_on_none dir e cs in ground arith

over_on :
    (dir : Direction) (e : Entry) (cs : List Account)
    → count_id e.account_id cs ≡ 1
    → over (λ a. on a.id dir e) cs ≡ part dir e
over_on dir e [] h = absurd (omega arith)
over_on dir e (a ∷ cs) h = let i = over_on dir e cs in let z = over_on_none dir e cs in ground arith

over-total :
    (dir : Direction) (es : List Entry) (cs : List Account)
    → OnAccounts cs es
    → over (λ a. total (on a.id dir) es) cs ≡ total (part dir) es
over-total dir [] cs h = over_zero cs
over-total dir (e ∷ es) cs h =
    over_add (λ a. on a.id dir e) (λ a. total (on a.id dir) es) cs
    ∙ rw (over_on dir e cs h.0, over-total dir es cs h.1) refl

over-total_all :
    (dir : Direction) (ts : List Transaction) (cs : List Account)
    → AllOnAccounts cs ts
    → over (λ a. total_all (on a.id dir) ts) cs ≡ total_all (part dir) ts
over-total_all dir [] cs h = over_zero cs
over-total_all dir (t ∷ ts) cs h =
    over_add (λ a. total (on a.id dir) t.entries) (λ a. total_all (on a.id dir) ts) cs
    ∙ rw (over-total dir t.entries cs h.0, over-total_all dir ts cs h.1) refl

-- The balances of the accounts of one side.
unfoldable side_of : Direction → List Transaction → List Account → ℕ
unfolding same_direction normal_direction replay_all
side_of n ts cs =
    over
      (λ a.
        if same_direction (normal_direction a.account_type) n
        then replay_all a.id (normal_direction a.account_type) ts 0
        else 0)
      cs

side_step :
    (n : Direction) (id : ℕ) (ts : List Transaction) (d c x y : ℕ)
    → (d + y) % range ≡ (c + x) % range
    → (((if same_direction n debit then replay_all id n ts 0 else 0) + d)
          + (total_all (on id credit) ts + y))
        % range
      ≡ (((if same_direction n credit then replay_all id n ts 0 else 0) + c)
          + (total_all (on id debit) ts + x))
        % range
unfolding same_direction opposite
side_step debit id ts d c x y h = let t = replay_all-total id debit ts 0 in omega arith
side_step credit id ts d c x y h = let t = replay_all-total id credit ts 0 in omega arith

sides :
    (ts : List Transaction) (cs : List Account)
    → (side_of debit ts cs + over (λ a. total_all (on a.id credit) ts) cs) % range
      ≡ (side_of credit ts cs + over (λ a. total_all (on a.id debit) ts) cs) % range
unfolding side_of
sides ts [] = refl
sides ts (a ∷ cs) = side_step (normal_direction a.account_type) a.id ts _ _ _ _ (sides ts cs)

sides-Reach :
    (b : Book)
    → Reach b
    → side_of debit b.transactions b.accounts % range
      ≡ side_of credit b.transactions b.accounts % range
sides-Reach b r =
    let w = WellFormed-Reach b r in
    let s = sides b.transactions b.accounts in
    let d = over-total_all debit b.transactions b.accounts w.on_accounts in
    let c = over-total_all credit b.transactions b.accounts w.on_accounts in
    let i = (InBalance-Reach b r).1 in omega arith

-- The book balances of the accounts of one normal direction, added up.
unfoldable pub side : Direction → Book → ℕ
unfolding same_direction normal_direction compute_book_balance
side n b =
    over
      (λ a.
        if same_direction (normal_direction a.account_type) n
        then compute_book_balance b a.id a.account_type
        else 0)
      b.accounts

-- In every book that calls can make, the balances of the asset and expense accounts add up to those of the
-- liability, equity and revenue accounts, as int64 sums.
pub side-Reach : (b : Book) → Reach b → side debit b % range ≡ side credit b % range
unfolding side side_of compute_book_balance
side-Reach b r = sides-Reach b r
