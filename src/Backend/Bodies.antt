-- ===== src/Backend/Bodies.antt =====
-- Every body that the client sends is one that the handler's strict decoder accepts.
use mathlib.Core.Bool.{and-eq-true_iff}
use core_banking_system.Prelude.{
  ◌≡◌, refl, String, Bool, true, Option, none, some, List, [], ◌∷◌, ◌++◌, map, every, All, arith,
}
use core_banking_system.Prelude.Int.{ℤ}
use core_banking_system.Json.{
  JsValue, Json, JsonFields, add_field, object_of, stringify, stringify_items, stringify_fields,
  array_of,
}
use core_banking_system.Json.Bodies.{
  text_map, entry_value, optional_text, party_ref_value, party_ref_fields, post_transaction_fields,
  create_mandate_fields, initiate_payment_fields, optional, metadata_value, name_body,
  create_account_body, description_body, open_deposit_account_body, status_body, create_hold_body,
  capture_hold_body, snapshot_body, fund_body, create_mandate_body, initiate_payment_body,
  open_cycle_body, reason_body, post_transaction_body,
}
use core_banking_system.Endpoints.Endpoint.{Endpoint, call}
use core_banking_system.Backend.Reach.{handler}
use core_banking_system.Backend.Decode.{
  in_int64, accepts, accepts_items, text_fields, decodes, entry_shape, party_ref_shape,
  party_ref_members, post_transaction_members, initiate_payment_members, create_mandate_members,
  Schema, Shape, text, int64, time, accepts_fields, schema_of, member_of,
}
use core_banking_system.Types.Payment.{PartyRef}
use core_banking_system.Types.Requests.{Optional, missing, null, given, EntryInput}

-- The amounts in a body.
abbrev entry_amounts : List EntryInput → List ℤ
entry_amounts [] = []
entry_amounts (e ∷ es) = e.amount ∷ entry_amounts es

unfoldable pub amounts : Endpoint → List ℤ
amounts (Endpoint.fund_deposit _ r) = r.amount ∷ []
amounts (Endpoint.post_transaction _ r) = entry_amounts r.entries
amounts (Endpoint.open_deposit_account _ r) = r.overdraft_limit ∷ []
amounts (Endpoint.create_hold _ _ r) = r.amount ∷ []
amounts (Endpoint.capture_hold _ _ r) = r.amount ∷ []
amounts (Endpoint.create_mandate r) = r.max_amount ∷ []
amounts (Endpoint.initiate_payment r) = r.amount ∷ []
amounts _ = []

-- The times in a body.
abbrev times_of : Optional String → List String
times_of missing = []
times_of null = []
times_of (given t) = t ∷ []

unfoldable pub times : Endpoint → List String
times (Endpoint.post_transaction _ r) = times_of r.booking_date ++ times_of r.value_date
times (Endpoint.create_hold _ _ r) = times_of r.expires_at
times _ = []

text_fields-text_map :
    (m : List (String × String)) → text_fields (stringify_fields (text_map m)) ≡ true
unfolding text_fields stringify text_map
text_fields-text_map [] = refl
text_fields-text_map ((k, v) ∷ m) = text_fields-text_map m

module _ (is_time : String → Bool) where
  -- A field's value, unless it is dropped, is accepted.
  abbrev accepts_value : Option Json → Schema → Bool
  accepts_value none s = true
  accepts_value (some j) s = accepts is_time j s

  abbrev Fits : Shape → String × JsValue → Type 0
  Fits sh (k, v) = (s : Schema) × (member_of k sh ≡ some s) × (accepts_value (stringify v) s ≡ true)

  accepts_fields-add_field :
      (k : String) (o : Option Json) (fs : JsonFields) (sh : Shape) (s : Schema)
      → member_of k sh ≡ some s
      → accepts_value o s ≡ true
      → accepts_fields is_time fs sh ≡ true
      → accepts_fields is_time (add_field k o fs) sh ≡ true
  unfolding accepts
  accepts_fields-add_field k none fs sh s e h rest = rest
  accepts_fields-add_field k (some j) fs sh s e h rest = rw e (rw h rest)

  -- An object is accepted if each of its fields fits.
  accepts_fields-object_of :
      (l : List (String × JsValue)) (sh : Shape)
      → All (Fits sh) l
      → accepts_fields is_time (stringify_fields (object_of l)) sh ≡ true
  unfolding accepts stringify
  accepts_fields-object_of [] sh _ = refl
  accepts_fields-object_of ((k, v) ∷ l) sh ((s, e, h), rest) =
      accepts_fields-add_field k (stringify v) (stringify_fields (object_of l)) sh s e h
        (accepts_fields-object_of l sh rest)

  accepts_items-entries :
      (es : List EntryInput)
      → every in_int64 (entry_amounts es) ≡ true
      → accepts_items is_time (stringify_items (array_of (map entry_value es))) entry_shape ≡ true
  unfolding accepts member_of stringify entry_value
  accepts_items-entries [] h = refl
  accepts_items-entries (e ∷ es) h =
      let (p, q) = (and-eq-true_iff (in_int64 e.amount) (every in_int64 (entry_amounts es))).0 h in
      rw p (accepts_items-entries es q)

  optional_text_fits : (o : Option String) → accepts_value (stringify (optional_text o)) text ≡ true
  unfolding accepts stringify
  optional_text_fits none = refl
  optional_text_fits (some s) = refl

  optional_time_fits :
      (o : Optional String)
      → every is_time (times_of o) ≡ true
      → accepts_value (stringify (optional JsValue.string o)) time ≡ true
  unfolding accepts stringify
  optional_time_fits missing h = refl
  optional_time_fits null h = refl
  optional_time_fits (given t) h = ((and-eq-true_iff (is_time t) true).0 h).0

  metadata_fits :
      (o : Optional (List (String × String)))
      → accepts_value (stringify (optional metadata_value o)) Schema.text_map ≡ true
  unfolding accepts stringify metadata_value
  metadata_fits missing = refl
  metadata_fits null = refl
  metadata_fits (given m) = text_fields-text_map m

  party_ref_fits :
      (p : PartyRef) → accepts_value (stringify (party_ref_value p)) party_ref_shape ≡ true
  unfolding accepts stringify party_ref_value member_of
  party_ref_fits p =
      accepts_fields-object_of (party_ref_fields p) party_ref_members
        ((text, refl, refl), ((text, refl, refl), ((text, refl, optional_text_fits p.iban), tt)))

every-append {ℓ} :
    {A : Type ℓ} (p : A → Bool) (xs ys : List A)
    → every p (xs ++ ys) ≡ true
    → (every p xs ≡ true) × (every p ys ≡ true)
every-append p [] ys h = (refl, h)
every-append p (x ∷ xs) ys h =
    let (a, b) = (and-eq-true_iff (p x) (every p (xs ++ ys))).0 h in
    let (c, d) = every-append p xs ys b in ((and-eq-true_iff _ _).1 (a, c), d)

-- Every body is one that the strict decoder of the handler that it reaches accepts, and a call without
-- a body reaches a handler that decodes none: no field is unknown to the handler, and each has its
-- type, if the amounts are 64-bit integers and the times in the body are RFC 3339 times.
pub decodes-call :
    (encode : String → String) (is_time : String → Bool) (e : Endpoint)
    → every in_int64 (amounts e) ≡ true
    → every is_time (times e) ≡ true
    → decodes is_time (schema_of (handler e)) (stringify (call encode e).body) ≡ true
unfolding decodes schema_of handler call amounts times accepts member_of stringify name_body
    create_account_body description_body open_deposit_account_body status_body create_hold_body
    capture_hold_body snapshot_body fund_body create_mandate_body initiate_payment_body
    open_cycle_body reason_body post_transaction_body
decodes-call encode is_time (Endpoint.create_hold a b r) h k = ground arith
decodes-call encode is_time (Endpoint.capture_hold a b r) h k = ground arith
decodes-call encode is_time (Endpoint.fund_deposit a r) h k = ground arith
decodes-call encode is_time (Endpoint.open_deposit_account a r) h k = ground arith
decodes-call encode is_time (Endpoint.create_mandate r) h k =
    accepts_fields-object_of is_time (create_mandate_fields r) create_mandate_members (
      (_, refl, party_ref_fits is_time r.debtor),
      ((_, refl, party_ref_fits is_time r.creditor), ((int64, refl, ground arith), tt)),
    )
decodes-call encode is_time (Endpoint.initiate_payment r) h k =
    accepts_fields-object_of is_time (initiate_payment_fields r) initiate_payment_members (
      (text, refl, refl),
      (
        (_, refl, party_ref_fits is_time r.debtor),
        (
          (_, refl, party_ref_fits is_time r.creditor),
          (
            (int64, refl, ground arith),
            (
              (text, refl, optional_text_fits is_time r.mandate_id),
              (
                (text, refl, optional_text_fits is_time r.end_to_end_id),
                (
                  (text, refl, optional_text_fits is_time r.description),
                  ((_, refl, metadata_fits is_time r.metadata), tt),
                ),
              ),
            ),
          ),
        ),
      ),
    )
decodes-call encode is_time (Endpoint.post_transaction a r) h k =
    let (b, v) = every-append is_time (times_of r.booking_date) (times_of r.value_date) k in
    accepts_fields-object_of is_time (post_transaction_fields r) post_transaction_members (
      (text, refl, refl),
      (
        (_, refl, accepts_items-entries is_time r.entries h),
        (
          (time, refl, optional_time_fits is_time r.booking_date b),
          (
            (time, refl, optional_time_fits is_time r.value_date v),
            (
              (text, refl, optional_text_fits is_time r.description),
              ((_, refl, metadata_fits is_time r.metadata), tt),
            ),
          ),
        ),
      ),
    )
decodes-call encode is_time _ h k = refl
