-- ===== src/Tests/Proxy.antt =====
-- The proxy at a concrete input.
use core_banking_system.Prelude.{
  ◌≡◌, refl, String, Option, none, some, [], ◌∷◌, ◌=?◌, if◌then◌else◌, truthy,
}
use core_banking_system.Json.{Json}
use core_banking_system.Client.{answered, request, url, qs}
use core_banking_system.Endpoints.Endpoint.{Endpoint, call}
use core_banking_system.Proxy.{NextServer, relayed, respond, unreachable_body}
use core_banking_system.Proxy.Transparency.{received, seen, request-handle}

-- The texts of two documents are enough here.
abbrev print_few : Json → String
print_few (Json.object fs) = "{}"
print_few _ = "null"

abbrev parse_few : String → Option Json
parse_few text = if text =? "{}" then some (unreachable_body "http://b") else none

abbrev accounts_query : Endpoint
accounts_query = Endpoint.list_transactions "p1" none

-- A server that answers 405 and 500 without a text.
abbrev server : NextServer
server = record {
  not_exported = λ _. record { status = 405; status_text = ""; text = "" };
  thrown = λ _. record { status = 500; status_text = ""; text = "" };
}

request-handle_example :
    request print_few parse_few
      (λ r. answered (
        respond print_few server "http://b"
          (λ _. relayed (record { status = 404; status_text = "Not Found"; text = "" }))
          (received print_few ("participants" ∷ "p1" ∷ "transactions" ∷ []) "" r)))
      (call (λ s. s) accounts_query)
    ≡ seen print_few print_few parse_few "http://b"
        (record { status = 500; status_text = ""; text = "" })
        (call (λ s. s) accounts_query)
        (relayed (record { status = 404; status_text = "Not Found"; text = "" }))
unfolding truthy url call qs
request-handle_example =
    request-handle print_few print_few parse_few (λ s. s) server "http://b" "participants" ""
      ("p1" ∷ "transactions" ∷ []) accounts_query
      (λ _. relayed (record { status = 404; status_text = "Not Found"; text = "" })) refl refl refl
