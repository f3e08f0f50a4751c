-- ===== src/Backend/Reach.antt =====
-- Every endpoint function reaches the handler that it is meant for.
use text.Mathlib.TextLemmas.{append-nil}
use core_banking_system.Prelude.{
  every, Bool-cases, inl, inr, ◌≡◌, refl, String, Option, none, some, List, [], ◌∷◌, ◌+s◌, All,
  true, truthy,
}
use core_banking_system.Client.{Call, Method, QsValue, url, qs, params_text, search_params}
use core_banking_system.Client.Target.{
  segments, is_plain, IsQuery, question-IsQuery, All-IsPlain_of_every, segments-url,
}
use core_banking_system.Endpoints.Endpoint.{Endpoint, call, ids}
use core_banking_system.Endpoints.Calls.{with_body}
use core_banking_system.Json.{JsValue}
use core_banking_system.Backend.Routes.{Handler, routes, serve, take_segment}

-- The handler that each endpoint function is written for.
unfoldable pub handler : Endpoint → Handler
handler Endpoint.list_participants = Handler.handle_list_participants
handler (Endpoint.get_participant _) = Handler.handle_get_participant
handler (Endpoint.add_participant _) = Handler.handle_add_participant
handler (Endpoint.fund_deposit _ _) = Handler.handle_fund_deposit
handler Endpoint.list_schemes = Handler.handle_list_schemes
handler Endpoint.list_reserves = Handler.handle_list_reserves
handler (Endpoint.get_reserve _) = Handler.handle_get_reserve
handler Endpoint.central_bank_audit = Handler.handle_central_bank_audit
handler (Endpoint.list_ledgers _) = Handler.handle_list_ledgers
handler (Endpoint.create_ledger _ _) = Handler.handle_create_ledger
handler (Endpoint.list_subledgers _ _) = Handler.handle_list_subledgers
handler (Endpoint.create_subledger _ _ _) = Handler.handle_create_subledger
handler (Endpoint.list_accounts _ _) = Handler.handle_list_accounts
handler (Endpoint.create_account _ _ _) = Handler.handle_create_account
handler (Endpoint.get_book_balance _ _) = Handler.handle_book_balance
handler (Endpoint.list_transactions _ _) = Handler.handle_list_transactions
handler (Endpoint.get_transaction _ _) = Handler.handle_get_transaction
handler (Endpoint.post_transaction _ _) = Handler.handle_post_transaction
handler (Endpoint.reverse_transaction _ _ _) = Handler.handle_reverse_transaction
handler (Endpoint.ledger_audit _ _) = Handler.handle_ledger_audit
handler (Endpoint.list_deposit_accounts _) = Handler.handle_list_deposit_accounts
handler (Endpoint.get_deposit_account _ _) = Handler.handle_get_deposit_account
handler (Endpoint.open_deposit_account _ _) = Handler.handle_open_deposit_account
handler (Endpoint.get_deposit_balance _ _) = Handler.handle_deposit_balance
handler (Endpoint.set_deposit_status _ _ _) = Handler.handle_deposit_status
handler (Endpoint.close_deposit_account _ _) = Handler.handle_close_deposit_account
handler (Endpoint.list_holds _ _) = Handler.handle_list_holds
handler (Endpoint.create_hold _ _ _) = Handler.handle_create_hold
handler (Endpoint.get_hold _ _) = Handler.handle_get_hold
handler (Endpoint.release_hold _ _) = Handler.handle_release_hold
handler (Endpoint.capture_hold _ _ _) = Handler.handle_capture_hold
handler (Endpoint.list_snapshots _ _) = Handler.handle_get_snapshots
handler (Endpoint.take_snapshot _ _ _) = Handler.handle_take_snapshot
handler (Endpoint.deposit_audit _) = Handler.handle_deposit_audit
handler Endpoint.list_mandates = Handler.handle_list_mandates
handler (Endpoint.get_mandate _) = Handler.handle_get_mandate
handler (Endpoint.create_mandate _) = Handler.handle_create_mandate
handler (Endpoint.revoke_mandate _) = Handler.handle_revoke_mandate
handler Endpoint.list_payments = Handler.handle_list_payments
handler (Endpoint.get_payment _) = Handler.handle_get_payment
handler (Endpoint.initiate_payment _) = Handler.handle_initiate_payment
handler (Endpoint.reject_payment _ _) = Handler.handle_reject_payment
handler (Endpoint.return_payment _ _) = Handler.handle_return_payment
handler Endpoint.list_cycles = Handler.handle_list_cycles
handler (Endpoint.get_cycle _) = Handler.handle_get_cycle
handler (Endpoint.open_cycle _) = Handler.handle_open_cycle
handler (Endpoint.close_cycle _) = Handler.handle_close_cycle
handler (Endpoint.settle_cycle _) = Handler.handle_settle_cycle
handler Endpoint.list_settlements = Handler.handle_list_settlements
handler (Endpoint.get_settlement _) = Handler.handle_get_settlement

-- An id that is one segment of a path: not empty, with no slash and no question mark.
pub record IsSegment (s : String) : Type 0 where
  pub nonempty : truthy s ≡ true
  pub plain : is_plain s ≡ true

abbrev pub behind_slash : List String → List String
behind_slash [] = []
behind_slash (_ ∷ l) = l

-- What the backend does with the target of a call.
unfoldable pub serve_call : Call → Option (Handler × List String)
serve_call c = serve routes c.method (behind_slash (segments c.path))

serve_call-bare :
    (m : Method) (l : List String) (b : JsValue) {r : Option (Handler × List String)}
    → every is_plain l ≡ true
    → serve routes m l ≡ r
    → serve_call (with_body m l b) ≡ r
unfolding serve_call
serve_call-bare m l b h e =
    rw (← append-nil (url l), segments-url l "" (All-IsPlain_of_every l h) tt) e

-- `qs` gives a query string.
qs-IsQuery : (encode : String → String) (ps : List (String × QsValue)) → IsQuery (qs encode ps)
unfolding qs
qs-IsQuery encode ps = elim (Bool-cases (truthy (params_text encode (search_params ps)))) [
  | inl some_text ↦ rw some_text (question-IsQuery _)
  | inr no_text ↦ rw no_text tt
]

serve_call-query :
    (m : Method) (l : List String) (q : String) {r : Option (Handler × List String)}
    → IsQuery q
    → every is_plain l ≡ true
    → serve routes m l ≡ r
    → serve_call (record { method = m; path = url l +s q; body = JsValue.undefined }) ≡ r
unfolding serve_call
serve_call-query m l q k h e = rw (segments-url l q (All-IsPlain_of_every l h) k) e

-- A match on one or two wildcards succeeds where the segments are not empty.
abbrev pick : Handler → Option (List String) → Option (Handler × List String)
pick h o = elim o [ none ↦ none | some vs ↦ some (h, vs) ]

found1 :
    (h : Handler) (a : String)
    → truthy a ≡ true
    → pick h (take_segment a (some [])) ≡ some (h, a ∷ [])
found1 h a e = rw e refl

found2 :
    (h : Handler) (a b : String)
    → truthy a ≡ true
    → truthy b ≡ true
    → pick h (take_segment a (take_segment b (some []))) ≡ some (h, a ∷ b ∷ [])
found2 h a b e f = rw (f, e) refl

-- Each endpoint function, called with ids that are segments, reaches the handler that it is meant
-- for, which receives those ids in their order, whatever the body and the query string.
pub serve_call-call :
    (encode : String → String) (e : Endpoint)
    → All IsSegment (ids e)
    → serve_call (call encode e) ≡ some (handler e, ids e)
unfolding serve handler call ids is_plain
serve_call-call encode Endpoint.list_participants _ = serve_call-bare _ _ _ refl refl
serve_call-call encode (Endpoint.get_participant a) (p, _) =
    serve_call-bare _ _ _ (rw p.plain) (found1 _ _ p.nonempty)
serve_call-call encode (Endpoint.add_participant r) _ = serve_call-bare _ _ _ refl refl
serve_call-call encode (Endpoint.fund_deposit a r) (p, _) =
    serve_call-bare _ _ _ (rw p.plain) (found1 _ _ p.nonempty)
serve_call-call encode Endpoint.list_schemes _ = serve_call-bare _ _ _ refl refl
serve_call-call encode Endpoint.list_reserves _ = serve_call-bare _ _ _ refl refl
serve_call-call encode (Endpoint.get_reserve a) (p, _) =
    serve_call-bare _ _ _ (rw p.plain) (found1 _ _ p.nonempty)
serve_call-call encode Endpoint.central_bank_audit _ = serve_call-bare _ _ _ refl refl
serve_call-call encode (Endpoint.list_ledgers a) (p, _) =
    serve_call-bare _ _ _ (rw p.plain) (found1 _ _ p.nonempty)
serve_call-call encode (Endpoint.create_ledger a r) (p, _) =
    serve_call-bare _ _ _ (rw p.plain) (found1 _ _ p.nonempty)
serve_call-call encode (Endpoint.list_subledgers a b) (p, (q, _)) =
    serve_call-bare _ _ _ (rw (p.plain, q.plain)) (found2 _ _ _ p.nonempty q.nonempty)
serve_call-call encode (Endpoint.create_subledger a b r) (p, (q, _)) =
    serve_call-bare _ _ _ (rw (p.plain, q.plain)) (found2 _ _ _ p.nonempty q.nonempty)
serve_call-call encode (Endpoint.list_accounts a b) (p, (q, _)) =
    serve_call-bare _ _ _ (rw (p.plain, q.plain)) (found2 _ _ _ p.nonempty q.nonempty)
serve_call-call encode (Endpoint.create_account a b r) (p, (q, _)) =
    serve_call-bare _ _ _ (rw (p.plain, q.plain)) (found2 _ _ _ p.nonempty q.nonempty)
serve_call-call encode (Endpoint.get_book_balance a b) (p, (q, _)) =
    serve_call-bare _ _ _ (rw (p.plain, q.plain)) (found2 _ _ _ p.nonempty q.nonempty)
serve_call-call encode (Endpoint.list_transactions a o) (p, _) =
    serve_call-query _ _ _ (qs-IsQuery encode _) (rw p.plain) (found1 _ _ p.nonempty)
serve_call-call encode (Endpoint.get_transaction a b) (p, (q, _)) =
    serve_call-bare _ _ _ (rw (p.plain, q.plain)) (found2 _ _ _ p.nonempty q.nonempty)
serve_call-call encode (Endpoint.post_transaction a r) (p, _) =
    serve_call-bare _ _ _ (rw p.plain) (found1 _ _ p.nonempty)
serve_call-call encode (Endpoint.reverse_transaction a b r) (p, (q, _)) =
    serve_call-bare _ _ _ (rw (p.plain, q.plain)) (found2 _ _ _ p.nonempty q.nonempty)
serve_call-call encode (Endpoint.ledger_audit a o) (p, _) =
    serve_call-query _ _ _ (qs-IsQuery encode _) (rw p.plain) (found1 _ _ p.nonempty)
serve_call-call encode (Endpoint.list_deposit_accounts a) (p, _) =
    serve_call-bare _ _ _ (rw p.plain) (found1 _ _ p.nonempty)
serve_call-call encode (Endpoint.get_deposit_account a b) (p, (q, _)) =
    serve_call-bare _ _ _ (rw (p.plain, q.plain)) (found2 _ _ _ p.nonempty q.nonempty)
serve_call-call encode (Endpoint.open_deposit_account a r) (p, _) =
    serve_call-bare _ _ _ (rw p.plain) (found1 _ _ p.nonempty)
serve_call-call encode (Endpoint.get_deposit_balance a b) (p, (q, _)) =
    serve_call-bare _ _ _ (rw (p.plain, q.plain)) (found2 _ _ _ p.nonempty q.nonempty)
serve_call-call encode (Endpoint.set_deposit_status a b r) (p, (q, _)) =
    serve_call-bare _ _ _ (rw (p.plain, q.plain)) (found2 _ _ _ p.nonempty q.nonempty)
serve_call-call encode (Endpoint.close_deposit_account a b) (p, (q, _)) =
    serve_call-bare _ _ _ (rw (p.plain, q.plain)) (found2 _ _ _ p.nonempty q.nonempty)
serve_call-call encode (Endpoint.list_holds a b) (p, (q, _)) =
    serve_call-bare _ _ _ (rw (p.plain, q.plain)) (found2 _ _ _ p.nonempty q.nonempty)
serve_call-call encode (Endpoint.create_hold a b r) (p, (q, _)) =
    serve_call-bare _ _ _ (rw (p.plain, q.plain)) (found2 _ _ _ p.nonempty q.nonempty)
serve_call-call encode (Endpoint.get_hold a b) (p, (q, _)) =
    serve_call-bare _ _ _ (rw (p.plain, q.plain)) (found2 _ _ _ p.nonempty q.nonempty)
serve_call-call encode (Endpoint.release_hold a b) (p, (q, _)) =
    serve_call-bare _ _ _ (rw (p.plain, q.plain)) (found2 _ _ _ p.nonempty q.nonempty)
serve_call-call encode (Endpoint.capture_hold a b r) (p, (q, _)) =
    serve_call-bare _ _ _ (rw (p.plain, q.plain)) (found2 _ _ _ p.nonempty q.nonempty)
serve_call-call encode (Endpoint.list_snapshots a b) (p, (q, _)) =
    serve_call-bare _ _ _ (rw (p.plain, q.plain)) (found2 _ _ _ p.nonempty q.nonempty)
serve_call-call encode (Endpoint.take_snapshot a b r) (p, (q, _)) =
    serve_call-bare _ _ _ (rw (p.plain, q.plain)) (found2 _ _ _ p.nonempty q.nonempty)
serve_call-call encode (Endpoint.deposit_audit a) (p, _) =
    serve_call-bare _ _ _ (rw p.plain) (found1 _ _ p.nonempty)
serve_call-call encode Endpoint.list_mandates _ = serve_call-bare _ _ _ refl refl
serve_call-call encode (Endpoint.get_mandate a) (p, _) =
    serve_call-bare _ _ _ (rw p.plain) (found1 _ _ p.nonempty)
serve_call-call encode (Endpoint.create_mandate r) _ = serve_call-bare _ _ _ refl refl
serve_call-call encode (Endpoint.revoke_mandate a) (p, _) =
    serve_call-bare _ _ _ (rw p.plain) (found1 _ _ p.nonempty)
serve_call-call encode Endpoint.list_payments _ = serve_call-bare _ _ _ refl refl
serve_call-call encode (Endpoint.get_payment a) (p, _) =
    serve_call-bare _ _ _ (rw p.plain) (found1 _ _ p.nonempty)
serve_call-call encode (Endpoint.initiate_payment r) _ = serve_call-bare _ _ _ refl refl
serve_call-call encode (Endpoint.reject_payment a r) (p, _) =
    serve_call-bare _ _ _ (rw p.plain) (found1 _ _ p.nonempty)
serve_call-call encode (Endpoint.return_payment a r) (p, _) =
    serve_call-bare _ _ _ (rw p.plain) (found1 _ _ p.nonempty)
serve_call-call encode Endpoint.list_cycles _ = serve_call-bare _ _ _ refl refl
serve_call-call encode (Endpoint.get_cycle a) (p, _) =
    serve_call-bare _ _ _ (rw p.plain) (found1 _ _ p.nonempty)
serve_call-call encode (Endpoint.open_cycle r) _ = serve_call-bare _ _ _ refl refl
serve_call-call encode (Endpoint.close_cycle a) (p, _) =
    serve_call-bare _ _ _ (rw p.plain) (found1 _ _ p.nonempty)
serve_call-call encode (Endpoint.settle_cycle a) (p, _) =
    serve_call-bare _ _ _ (rw p.plain) (found1 _ _ p.nonempty)
serve_call-call encode Endpoint.list_settlements _ = serve_call-bare _ _ _ refl refl
serve_call-call encode (Endpoint.get_settlement a) (p, _) =
    serve_call-bare _ _ _ (rw p.plain) (found1 _ _ p.nonempty)
