-- ===== src/Endpoints/Ledger.antt =====
-- The ledger section of web/src/lib/api/endpoints.ts. `encode` is the platform's percent-encoding.
use core_banking_system.Prelude.{String, Option, none, some, [], ◌∷◌, ◌+s◌}
use core_banking_system.Client.{Call, Method, QsValue, url, qs}
use core_banking_system.Endpoints.Calls.{bare, with_body}
use core_banking_system.Json.{JsValue}
use core_banking_system.Json.Bodies.{
  name_body, create_account_body, post_transaction_body, description_body,
}
use core_banking_system.Types.Requests.{
  NameRequest, CreateAccountRequest, PostTransactionRequest, DescriptionRequest,
}

unfoldable pub list_ledgers : String → Call
list_ledgers pid = bare Method.get ("participants" ∷ pid ∷ "ledgers" ∷ [])

unfoldable pub create_ledger : String → NameRequest → Call
create_ledger pid body =
    with_body Method.post ("participants" ∷ pid ∷ "ledgers" ∷ []) (name_body body)

unfoldable pub list_subledgers : String → String → Call
list_subledgers pid lid =
    bare Method.get ("participants" ∷ pid ∷ "ledgers" ∷ lid ∷ "subledgers" ∷ [])

unfoldable pub create_subledger : String → String → NameRequest → Call
create_subledger pid lid body =
    with_body Method.post ("participants" ∷ pid ∷ "ledgers" ∷ lid ∷ "subledgers" ∷ [])
      (name_body body)

unfoldable pub list_accounts : String → String → Call
list_accounts pid sid =
    bare Method.get ("participants" ∷ pid ∷ "subledgers" ∷ sid ∷ "accounts" ∷ [])

unfoldable pub create_account : String → String → CreateAccountRequest → Call
create_account pid sid body =
    with_body Method.post ("participants" ∷ pid ∷ "subledgers" ∷ sid ∷ "accounts" ∷ [])
      (create_account_body body)

unfoldable pub get_book_balance : String → String → Call
get_book_balance pid aid =
    bare Method.get ("participants" ∷ pid ∷ "accounts" ∷ aid ∷ "balance" ∷ [])

-- An argument `x?: string` as a value of the object that `qs` takes.
abbrev pub qs_value : Option String → QsValue
qs_value none = QsValue.undefined
qs_value (some s) = QsValue.text s

module _ (encode : String → String) where
  unfoldable pub list_transactions : String → Option String → Call
  list_transactions pid account = record {
    method = Method.get;
    path =
        url ("participants" ∷ pid ∷ "transactions" ∷ [])
        +s qs encode (("account", qs_value account) ∷ []);
    body = JsValue.undefined;
  }

  unfoldable pub ledger_audit : String → Option String → Call
  ledger_audit pid entity = record {
    method = Method.get;
    path =
        url ("participants" ∷ pid ∷ "audit" ∷ []) +s qs encode (("entity", qs_value entity) ∷ []);
    body = JsValue.undefined;
  }

unfoldable pub get_transaction : String → String → Call
get_transaction pid tid = bare Method.get ("participants" ∷ pid ∷ "transactions" ∷ tid ∷ [])

unfoldable pub post_transaction : String → PostTransactionRequest → Call
post_transaction pid body =
    with_body Method.post ("participants" ∷ pid ∷ "transactions" ∷ []) (post_transaction_body body)

unfoldable pub reverse_transaction : String → String → DescriptionRequest → Call
reverse_transaction pid tid body =
    with_body Method.post ("participants" ∷ pid ∷ "transactions" ∷ tid ∷ "reversal" ∷ [])
      (description_body body)
