-- ===== src/Backend/Register/Statuses.antt =====
-- The statuses of accounts and holds over the calls of deposit/register.go.
use core_banking_system.Prelude.{
  ◌≡◌, refl, ap, sym, ◌∙◌, ℕ, true, false, Option, some, nat_eq, arith, Bool-cases, inl, inr,
}
use core_banking_system.Enums.{DepositStatus}
use core_banking_system.Backend.Lifecycle.{may_end_hold}
use core_banking_system.Backend.Book.{Book}
use core_banking_system.Backend.Book.Totals.{eq_of_nat_eq}
use core_banking_system.Backend.Register.{
  Account, Hold, Register, new_register, replace, account_with, hold_with,
}
use core_banking_system.Backend.Register.Methods.{Command, run, with_status, with_hold_status}
use core_banking_system.Backend.Register.Entries.{
  Issued, Issued-mono, Issued-append, Issued-replace, find-replace, find-append, find-fresh,
}
use core_banking_system.Backend.Register.Changes.{
  Moves, Change, quiet, opening, moving, placing, ending, Change-run,
}

-- Calls one after another, from a register on.
pub data Reach (r : Register) : Register → Type 0 where
  start : Reach r r
  step : {s : Register} (now : ℕ) (c : Command) → Reach r s → Reach r (run now c s)

-- Changes of status one after another.
pub data StatusPath (s : DepositStatus) : DepositStatus → Type 0 where
  same : StatusPath s s
  more : {t u : DepositStatus} → StatusPath s t → Moves t u → StatusPath s u

-- Every id was issued by the counter.
abbrev Numbered : Register → Type 0
Numbered r =
    Issued (λ (a : Account). a.id) r.id_counter r.accounts
    × Issued (λ (h : Hold). h.id) r.id_counter r.holds

module _ (r s : Register) where
  Numbered-Change : Change r s → Numbered r → Numbered s
  unfolding replace
  Numbered-Change (quiet a h n) (p, q) =
      rw (a, h)
        (
          Issued-mono _ r.id_counter s.id_counter _ n p,
          Issued-mono _ r.id_counter s.id_counter _ n q,
        )
  Numbered-Change (opening x i a h n) (p, q) =
      rw (a, h)
        (
          (omega arith, Issued-mono _ r.id_counter s.id_counter _ (omega arith) p),
          Issued-mono _ r.id_counter s.id_counter _ (omega arith) q,
        )
  Numbered-Change (moving id x t f m a h n) (p, q) =
      rw (a, h)
        (
          Issued-replace (λ (y : Account). y.id) s.id_counter id (with_status t) r.accounts
              (λ y. refl) (Issued-mono _ r.id_counter s.id_counter _ n p),
          Issued-mono _ r.id_counter s.id_counter _ n q,
        )
  Numbered-Change (placing x i a h n) (p, q) =
      rw (a, h)
        (
          Issued-mono _ r.id_counter s.id_counter _ (omega arith) p,
          Issued-append _ s.id_counter r.holds x
              (Issued-mono _ r.id_counter s.id_counter _ (omega arith) q) (omega arith),
        )
  Numbered-Change (ending id x t f m a h n) (p, q) =
      rw (a, h)
        (
          Issued-mono _ r.id_counter s.id_counter _ n p,
          Issued-replace (λ (y : Hold). y.id) s.id_counter id (with_hold_status t) r.holds
              (λ y. refl) (Issued-mono _ r.id_counter s.id_counter _ n q),
        )

Numbered-Reach : (r s : Register) → Numbered r → Reach r s → Numbered s
Numbered-Reach r s h start = h
Numbered-Reach r s h (step {s = q} now c k) =
    Numbered-Change q (run now c q) (Change-run now c q) (Numbered-Reach r q h k)

same_of_find : {A : Type 0} (x y : Option A) (a b : A) → x ≡ y → x ≡ some a → y ≡ some b → a ≡ b
same_of_find x y a b e h k = cc

account_with-Change :
    (r s : Register) (id : ℕ) (a : Account)
    → Change r s
    → Numbered r
    → account_with id r ≡ some a
    → (t : DepositStatus) × (account_with id s ≡ some (with_status t a)) × StatusPath a.status t
unfolding account_with
account_with-Change r s id a (quiet x h n) i f = (a.status, rw x f, StatusPath.same)
account_with-Change r s id a (opening y e x h n) (p, q) f = (
  a.status,
  rw x (find-fresh (λ (z : Account). z.id) r.id_counter id r.accounts y a p (omega arith) f),
  StatusPath.same,
)
account_with-Change r s id a (moving other y t g m x h n) i f =
    let found =
      find-replace (λ (z : Account). z.id) id other (with_status t) r.accounts a (λ z. refl) f in
    elim (Bool-cases (nat_eq id other)) [
      | inl e ↦
          let eq : y ≡ a =
            same_of_find _ _ y a (ap (λ k. account_with k r) (sym (eq_of_nat_eq id other e))) g f in
          (t, rw x (rw e at found), StatusPath.more StatusPath.same (rw eq at m))
      | inr e ↦ (a.status, rw x (rw e at found), StatusPath.same)
    ]
account_with-Change r s id a (placing y e x h n) i f = (a.status, rw x f, StatusPath.same)
account_with-Change r s id a (ending other y t g m x h n) i f = (a.status, rw x f, StatusPath.same)

StatusPath-concat : (s t u : DepositStatus) → StatusPath s t → StatusPath t u → StatusPath s u
StatusPath-concat s t u p same = p
StatusPath-concat s t u p (more q m) = StatusPath.more (StatusPath-concat s t _ p q) m

Numbered-new_register : (b : Book) → Numbered (new_register b)
unfolding new_register
Numbered-new_register b = (tt, tt)

account_with-Reach :
    (r s : Register) (id : ℕ) (a : Account)
    → Numbered r
    → Reach r s
    → account_with id r ≡ some a
    → (t : DepositStatus) × (account_with id s ≡ some (with_status t a)) × StatusPath a.status t
account_with-Reach r s id a i start f = (a.status, f, StatusPath.same)
account_with-Reach r s id a i (step {s = q} now c k) f =
    let (t, g, p) = account_with-Reach r q id a i k f in
    let (u, h, m) =
      account_with-Change q (run now c q) id (with_status t a) (Change-run now c q)
        (Numbered-Reach r q i k) g in
    (u, h, StatusPath-concat a.status t u p m)

-- An account that is found as it was but for its status, which is reached from the one it had.
pub record Follows (a : Account) (found : Option Account) : Type 0 where
  pub status : DepositStatus
  pub same_else : found ≡ some (with_status status a)
  pub path : StatusPath a.status status

-- An account of a register that calls built from a new one is found after any further calls, with every
-- field as it was but the status, and the status is reached from the one it had by changes that the
-- guards of Backend/Lifecycle allow.
pub account_with-StatusPath :
    (b : Book) (r s : Register) (id : ℕ) (a : Account)
    → Reach (new_register b) r
    → Reach r s
    → account_with id r ≡ some a
    → Follows a (account_with id s)
account_with-StatusPath b r s id a h k f =
    let (t, g, p) =
      account_with-Reach r s id a (Numbered-Reach (new_register b) r (Numbered-new_register b) h) k
        f in
    record { status = t; same_else = g; path = p }

hold_with-Change :
    (r s : Register) (id : ℕ) (h : Hold)
    → Change r s
    → hold_with id r ≡ some h
    → may_end_hold h.status ≡ false
    → hold_with id s ≡ some h
unfolding hold_with
hold_with-Change r s id h (quiet x e n) f k = rw e f
hold_with-Change r s id h (opening y i x e n) f k = rw e f
hold_with-Change r s id h (moving other y t g m x e n) f k = rw e f
hold_with-Change r s id h (placing y i x e n) f k =
    rw e (find-append (λ (z : Hold). z.id) id r.holds _ h f)
hold_with-Change r s id h (ending other y t g m x e n) f k =
    let found =
      find-replace (λ (z : Hold). z.id) id other (with_hold_status t) r.holds h (λ z. refl) f in
    elim (Bool-cases (nat_eq id other)) [
      | inl u ↦
          let eq : y ≡ h =
            same_of_find _ _ y h (ap (λ j. hold_with j r) (sym (eq_of_nat_eq id other u))) g f in
          absurd (
            let z : may_end_hold h.status ≡ true = ap (λ j. may_end_hold j.status) (sym eq) ∙ m in
            cc)
      | inr u ↦ rw e (rw u at found)
    ]

-- A hold that was released or captured is found as it was after any further calls.
pub hold_with-Reach :
    (r s : Register) (id : ℕ) (h : Hold)
    → Reach r s
    → hold_with id r ≡ some h
    → may_end_hold h.status ≡ false
    → hold_with id s ≡ some h
hold_with-Reach r s id h start f k = f
hold_with-Reach r s id h (step {s = q} now c j) f k =
    hold_with-Change q (run now c q) id h (Change-run now c q) (hold_with-Reach r q id h j f k) k
