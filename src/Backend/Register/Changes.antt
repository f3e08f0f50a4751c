-- ===== src/Backend/Register/Changes.antt =====
-- What a call of deposit/register.go does to the accounts and the holds, by cases.
use core_banking_system.Prelude.{
  ◌≡◌, refl, ap, ◌∙◌, ℕ, suc, ◌≤◌, String, true, false, some, [], ◌∷◌, ◌++◌, nat_eq, arith,
  Bool-cases, Option-cases, ◌⊎◌, inl, inr,
}
use core_banking_system.Enums.{
  AccountType, DepositStatus, DepositStatusAction, HoldStatus, freeze, unfreeze, mark_dormant,
  reactivate,
}
use core_banking_system.Backend.Book as Ledger
use core_banking_system.Backend.Book.{book_balance}
use core_banking_system.Backend.Book.Methods as BookMethods
use core_banking_system.Backend.Lifecycle.{set_status, may_close, may_end_hold}
use core_banking_system.Backend.Register.{
  Account, Hold, Register, EventType, append_audit, replace, account_with, hold_with, is_active,
  account_balance,
}
use core_banking_system.Backend.Register.Methods.{
  Command, open_new, close, place, release, capture, snapshot, on_book, run, after, HoldRequest,
  opened, open_account, same_status, with_status, put_status, move_status, freeze_account,
  unfreeze_account, mark_account_dormant, reactivate_account, close_account, create_hold,
  hold_refusal, add_hold, held, release_hold, with_hold_status, end_hold, capture_hold,
  capture_request, captured_amount, take_snapshot,
}

-- What the status guards of Backend/Lifecycle allow in one call.
pub data Moves : DepositStatus → DepositStatus → Type 0 where
  by_action : {s t : DepositStatus} (x : DepositStatusAction) → set_status x s ≡ some t → Moves s t
  by_close : {s : DepositStatus} → may_close s ≡ true → Moves s DepositStatus.closed

-- The accounts, the holds and the counter of a register before and after a call.
pub data Change (r s : Register) : Type 0 where
  quiet : s.accounts ≡ r.accounts → s.holds ≡ r.holds → r.id_counter ≤ s.id_counter → Change r s
  opening :
      (a : Account)
      → a.id ≡ suc r.id_counter
      → s.accounts ≡ a ∷ r.accounts
      → s.holds ≡ r.holds
      → suc r.id_counter ≤ s.id_counter
      → Change r s
  moving :
      (id : ℕ) (a : Account) (t : DepositStatus)
      → account_with id r ≡ some a
      → Moves a.status t
      → s.accounts ≡ replace (λ x. nat_eq x.id id) (with_status t) r.accounts
      → s.holds ≡ r.holds
      → r.id_counter ≤ s.id_counter
      → Change r s
  placing :
      (h : Hold)
      → h.id ≡ suc r.id_counter
      → s.accounts ≡ r.accounts
      → s.holds ≡ r.holds ++ (h ∷ [])
      → suc r.id_counter ≤ s.id_counter
      → Change r s
  ending :
      (id : ℕ) (h : Hold) (t : HoldStatus)
      → hold_with id r ≡ some h
      → may_end_hold h.status ≡ true
      → s.accounts ≡ r.accounts
      → s.holds ≡ replace (λ x. nat_eq x.id id) (with_hold_status t) r.holds
      → r.id_counter ≤ s.id_counter
      → Change r s

Change-refl : (r : Register) → Change r r
Change-refl r = Change.quiet refl refl (omega arith)

eq_of_same_status : (s t : DepositStatus) → same_status s t ≡ true → s ≡ t
eq_of_same_status DepositStatus.active DepositStatus.active h = refl
eq_of_same_status DepositStatus.dormant DepositStatus.dormant h = refl
eq_of_same_status DepositStatus.frozen DepositStatus.frozen h = refl
eq_of_same_status DepositStatus.closed DepositStatus.closed h = refl
eq_of_same_status DepositStatus.active DepositStatus.dormant h = absurd cc
eq_of_same_status DepositStatus.active DepositStatus.frozen h = absurd cc
eq_of_same_status DepositStatus.active DepositStatus.closed h = absurd cc
eq_of_same_status DepositStatus.dormant DepositStatus.active h = absurd cc
eq_of_same_status DepositStatus.dormant DepositStatus.frozen h = absurd cc
eq_of_same_status DepositStatus.dormant DepositStatus.closed h = absurd cc
eq_of_same_status DepositStatus.frozen DepositStatus.active h = absurd cc
eq_of_same_status DepositStatus.frozen DepositStatus.dormant h = absurd cc
eq_of_same_status DepositStatus.frozen DepositStatus.closed h = absurd cc
eq_of_same_status DepositStatus.closed DepositStatus.active h = absurd cc
eq_of_same_status DepositStatus.closed DepositStatus.dormant h = absurd cc
eq_of_same_status DepositStatus.closed DepositStatus.frozen h = absurd cc

may_close_of : (s : DepositStatus) → same_status s DepositStatus.closed ≡ false → may_close s ≡ true
unfolding may_close
may_close_of DepositStatus.active h = refl
may_close_of DepositStatus.dormant h = refl
may_close_of DepositStatus.frozen h = refl
may_close_of DepositStatus.closed h = absurd cc

may_end_hold_of : (s : HoldStatus) → is_active s ≡ true → may_end_hold s ≡ true
unfolding may_end_hold
may_end_hold_of HoldStatus.active h = refl
may_end_hold_of HoldStatus.released h = absurd cc
may_end_hold_of HoldStatus.captured h = absurd cc

Change-move_status :
    (x : DepositStatusAction) (from to : DepositStatus) (e : EventType) (now id : ℕ) (r : Register)
    → set_status x from ≡ some to
    → Change r (after (move_status from to e now id r) r)
unfolding move_status put_status append_audit
Change-move_status x from to e now id r h = elim (Option-cases (account_with id r)) [
  | inl k ↦ rw (k, move_status) (Change-refl r)
  | inr (a, k) ↦ elim (Bool-cases (same_status a.status from)) [
    | inl t ↦
        rw (k, t, move_status)
          (Change.moving id a to k
            (Moves.by_action x (ap (set_status x) (eq_of_same_status a.status from t) ∙ h)) refl
            refl (omega arith))
    | inr t ↦ rw (k, t, move_status) (Change-refl r)
  ]
]

Change-close : (now id : ℕ) (r : Register) → Change r (after (close_account now id r) r)
unfolding close_account put_status append_audit
Change-close now id r = elim (Option-cases (account_with id r)) [
  | inl k ↦ rw (k, close_account) (Change-refl r)
  | inr (a, k) ↦ elim (Bool-cases (same_status a.status DepositStatus.closed)) [
    | inl t ↦ rw (k, t, close_account) (Change-refl r)
    | inr t ↦ elim (Option-cases (book_balance r.book a.gl_account)) [
      | inl z ↦ rw (k, t, z, close_account) (Change-refl r)
      | inr (x, z) ↦ elim (Bool-cases (nat_eq x 0)) [
        | inl w ↦
            rw (k, t, z, w, close_account)
              (Change.moving id a DepositStatus.closed k (Moves.by_close (may_close_of a.status t))
                refl refl (omega arith))
        | inr w ↦ rw (k, t, z, w, close_account) (Change-refl r)
      ]
    ]
  ]
]

pub Result-cases :
    {A : Type 0} (x : Ledger.Result A)
    → ((e : Ledger.BookError) × (x ≡ Ledger.error e))
      ⊎ ((a : A) × (b : Ledger.Book) × (x ≡ Ledger.ok a b))
Result-cases (Ledger.error e) = inl (e, refl)
Result-cases (Ledger.ok a b) = inr (a, b, refl)

Change-open_account :
    (now subledger : ℕ) (name : String) (limit : Ledger.Amount) (r : Register)
    → Change r (after (open_account now subledger name limit r) r)
unfolding open_account append_audit opened
Change-open_account now subledger name limit r =
    elim (Result-cases (Ledger.create_account now subledger name AccountType.liability r.book)) [
      | inl (e, k) ↦ rw (k, open_account) (Change-refl r)
      | inr (gl, b, k) ↦
          rw (k, open_account)
            (Change.opening (opened (suc r.id_counter) now gl.id name limit) refl refl refl
              (omega arith))
    ]

Change-create_hold :
    (now : ℕ) (q : HoldRequest) (r : Register) → Change r (after (create_hold now q r) r)
unfolding create_hold add_hold append_audit held
Change-create_hold now q r = elim (Option-cases (account_with q.account_id r)) [
  | inl k ↦ rw (k, create_hold) (Change-refl r)
  | inr (a, k) ↦ elim (Option-cases (hold_refusal now q a r)) [
    | inl e ↦
        rw (k, e, create_hold)
          (Change.placing (held (suc r.id_counter) now q) refl refl refl (omega arith))
    | inr (x, e) ↦ rw (k, e, create_hold) (Change-refl r)
  ]
]

Change-release_hold : (now id : ℕ) (r : Register) → Change r (after (release_hold now id r) r)
unfolding release_hold end_hold append_audit
Change-release_hold now id r = elim (Option-cases (hold_with id r)) [
  | inl k ↦ rw (k, release_hold) (Change-refl r)
  | inr (h, k) ↦ elim (Bool-cases (is_active h.status)) [
    | inl t ↦
        rw (k, t, release_hold)
          (Change.ending id h HoldStatus.released k (may_end_hold_of h.status t) refl refl
            (omega arith))
    | inr t ↦ rw (k, t, release_hold) (Change-refl r)
  ]
]

Change-capture_hold :
    (now id counterparty : ℕ) (x : Ledger.Amount) (description : String) (r : Register)
    → Change r (after (capture_hold now id counterparty x description r) r)
unfolding capture_hold end_hold append_audit
Change-capture_hold now id counterparty x description r = elim (Option-cases (hold_with id r)) [
  | inl k ↦ rw (k, capture_hold) (Change-refl r)
  | inr (h, k) ↦ elim (Bool-cases (is_active h.status)) [
    | inr t ↦ rw (k, t, capture_hold) (Change-refl r)
    | inl t ↦ elim (Option-cases (account_with h.account_id r)) [
      | inl j ↦ rw (k, t, j, capture_hold) (Change-refl r)
      | inr (a, j) ↦
          elim (Result-cases (
            BookMethods.post_transaction now
              (capture_request a.gl_account counterparty (captured_amount x h) description)
              r.book)) [
                | inl (e, p) ↦ rw (k, t, j, p, capture_hold) (Change-refl r)
                | inr (u, b, p) ↦
                    rw (k, t, j, p, capture_hold)
                      (Change.ending id h HoldStatus.captured k (may_end_hold_of h.status t) refl
                        refl (omega arith))
              ]
    ]
  ]
]

Change-take_snapshot :
    (now id : ℕ) (date : String) (r : Register) → Change r (after (take_snapshot now id date r) r)
unfolding take_snapshot append_audit
Change-take_snapshot now id date r = elim (Option-cases (account_with id r)) [
  | inl k ↦ rw (k, take_snapshot) (Change-refl r)
  | inr (a, k) ↦ elim (Option-cases (account_balance now a r)) [
    | inl e ↦ rw (k, e, take_snapshot) (Change-refl r)
    | inr (b, e) ↦ rw (k, e, take_snapshot) (Change.quiet refl refl (omega arith))
  ]
]

pub Change-run : (now : ℕ) (c : Command) (r : Register) → Change r (run now c r)
unfolding run freeze_account unfreeze_account mark_account_dormant reactivate_account set_status
Change-run now (open_new s name limit) r = Change-open_account now s name limit r
Change-run now (Command.freeze id) r = Change-move_status freeze _ _ _ now id r refl
Change-run now (Command.unfreeze id) r = Change-move_status unfreeze _ _ _ now id r refl
Change-run now (Command.mark_dormant id) r = Change-move_status mark_dormant _ _ _ now id r refl
Change-run now (Command.reactivate id) r = Change-move_status reactivate _ _ _ now id r refl
Change-run now (close id) r = Change-close now id r
Change-run now (place q) r = Change-create_hold now q r
Change-run now (release id) r = Change-release_hold now id r
Change-run now (capture id counterparty x description) r =
    Change-capture_hold now id counterparty x description r
Change-run now (snapshot id date) r = Change-take_snapshot now id date r
Change-run now (on_book c) r = Change.quiet refl refl (omega arith)
