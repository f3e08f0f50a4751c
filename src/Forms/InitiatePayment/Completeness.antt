-- ===== src/Forms/InitiatePayment/Completeness.antt =====
-- What web/src/components/forms/initiate-payment-form.tsx sends.
use mathlib.Core.Bool.{and-eq-true_iff}
use core_banking_system.Prelude.{
  ◌≡◌, ◌≢◌, refl, sym, ap, ◌∙◌, String, true, Option, some, List, [], ◌||◌, not, truthy, trim,
  or_undefined, or_else, find, ◌=?◌, Option-cases, some_of_if, inl, inr, arith,
}
use core_banking_system.Prelude.Int.{ℤ}
use core_banking_system.Types.Payment.{Scheme}
use core_banking_system.Types.Requests.{InitiatePaymentRequest}
use core_banking_system.Forms.InitiatePayment.{State, needs_mandate, valid, request_of, submit}

-- A text that is more than spaces.
abbrev pub Filled : String → Type 0
Filled t = trim t ≢ ""

Filled-truthy : (t : String) → truthy (trim t) ≡ true → Filled t
unfolding truthy
Filled-truthy t h e = let k : truthy "" ≡ true = ap truthy (sym e) ∙ h in cc

-- What the backend needs to know of a payment.
pub record IsComplete (schemes : Option (List Scheme)) (r : InitiatePaymentRequest) : Type 0 where
  pub scheme : r.scheme ≢ ""
  pub debtor_bank : Filled r.debtor.participant
  pub debtor_account : Filled r.debtor.account
  pub creditor_bank : Filled r.creditor.participant
  pub creditor_account : Filled r.creditor.account
  pub mandate :
      (x : Scheme)
      → find (λ y. y.id =? r.scheme) (or_else schemes []) ≡ some x
      → x.requires_mandate ≡ true
      → (t : String) × (r.mandate_id ≡ some t) × (t ≢ "")

mandate-valid :
    (schemes : Option (List Scheme)) (s : State) (amount : ℤ)
    → (not (needs_mandate schemes s.scheme) || truthy (trim s.mandate_id)) ≡ true
    → (x : Scheme) → find (λ y. y.id =? s.scheme) (or_else schemes []) ≡ some x
    → x.requires_mandate ≡ true
    → (t : String) × ((request_of s amount).mandate_id ≡ some t) × (t ≢ "")
unfolding needs_mandate or_undefined truthy request_of
mandate-valid schemes s amount h x e k =
    let needed : needs_mandate schemes s.scheme ≡ true = rw (e, needs_mandate) k in
    let given : truthy (trim s.mandate_id) ≡ true = rw needed at h in
    (trim s.mandate_id, rw (given, or_undefined) refl, Filled-truthy s.mandate_id given)

IsComplete-request_of :
    (schemes : Option (List Scheme)) (s : State) (amount : ℤ)
    → valid schemes s ≡ true
    → IsComplete schemes (request_of s amount)
unfolding valid truthy request_of
IsComplete-request_of schemes s amount h =
    let (a, h1) = (and-eq-true_iff _ _).0 h in
    let (b, h2) = (and-eq-true_iff _ _).0 h1 in
    let (c, d) = (and-eq-true_iff _ _).0 h2 in
    let (b1, b2) = (and-eq-true_iff _ _).0 b in
    let (c1, c2) = (and-eq-true_iff _ _).0 c in
    record {
      scheme = λ e. (let k : truthy "" ≡ true = ap truthy (sym e) ∙ a in cc);
      debtor_bank = Filled-truthy s.debtor.participant b1;
      debtor_account = Filled-truthy s.debtor.account b2;
      creditor_bank = Filled-truthy s.creditor.participant c1;
      creditor_account = Filled-truthy s.creditor.account c2;
      mandate = mandate-valid schemes s amount d;
    }

-- A payment that the form submits names a scheme, a bank and an account of each party that are more than
-- spaces, the amount that was typed, and a mandate if the scheme of that id, as the client knows the
-- schemes, requires one.
pub submit-IsComplete :
    (schemes : Option (List Scheme)) (s : State) {r : InitiatePaymentRequest}
    → submit schemes s ≡ some r
    → IsComplete schemes r × (s.amount_cents ≡ some r.amount)
unfolding submit request_of
submit-IsComplete schemes s {r} h = elim (Option-cases s.amount_cents) [
  | inl missing_amount ↦ absurd (ground arith)
  | inr (amount, e) ↦
      let (fine, same) =
        some_of_if (valid schemes s) (request_of s amount) {r = r} (ground arith) in
      rw (← same) (IsComplete-request_of schemes s amount fine, e)
]
