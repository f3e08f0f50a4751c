-- ===== src/Endpoints/Calls.antt =====
-- The shapes of a call in web/src/lib/api/endpoints.ts: without a body, and with one.
use core_banking_system.Prelude.{String, List}
use core_banking_system.Client.{Call, Method, url}
use core_banking_system.Json.{JsValue}

-- `request(method, path)`.
abbrev pub bare : Method → List String → Call
bare m path = record { method = m; path = url path; body = JsValue.undefined }

-- `request(method, path, body)`.
abbrev pub with_body : Method → List String → JsValue → Call
with_body m path b = record { method = m; path = url path; body = b }
