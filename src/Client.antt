-- ===== src/Client.antt =====
-- web/src/lib/api/client.ts: the fetch wrapper `request` and the query string builder `qs`, with the
-- errors of web/src/lib/api/errors.ts. `fetch` itself and `JSON.parse` are arguments.
pub mod Errors
pub mod Target
use core_banking_system.Prelude.{
  ℕ, String, Bool, true, false, Option, none, some, List, [], ◌∷◌, ◌++◌, map, ◌&&◌, not, ◌+s◌, ◌=?◌,
  truthy, if◌then◌else◌, leb, ltb,
}
use core_banking_system.Json.{JsValue, Json, JsonFields, stringify}

pub data Method : Type 0 where
  get post delete put head options : Method

-- The arguments of `request`: a missing body is `undefined`.
pub record Call : Type 0 where
  pub method : Method
  pub path : String
  pub body : JsValue

-- A template literal `/a/${b}/c`: its segments, each behind a slash.
unfoldable pub url : List String → String
url [] = ""
url (s ∷ r) = "/" +s (s +s url r)

-- The values of the object that `qs` takes (all calls pass texts).
pub data QsValue : Type 0 where
  undefined null : QsValue
  text : String → QsValue

-- The test of the loop: a pair is kept unless its value is undefined, null or "".
unfoldable pub kept : String × QsValue → List (String × String)
unfolding truthy
kept (k, QsValue.undefined) = []
kept (k, QsValue.null) = []
kept (k, text v) = if truthy v then (k, v) ∷ [] else []

unfoldable pub search_params : List (String × QsValue) → List (String × String)
unfolding kept
search_params [] = []
search_params (p ∷ ps) = kept p ++ search_params ps

-- `URLSearchParams.toString`, over the percent-encoding `encode` of the platform. The keys of an
-- object differ, so `set` adds at the end.
unfoldable pub params_text : (String → String) → List (String × String) → String
params_text encode [] = ""
params_text encode ((k, v) ∷ []) = encode k +s ("=" +s encode v)
params_text encode ((k, v) ∷ p ∷ ps) =
    (encode k +s ("=" +s encode v)) +s ("&" +s params_text encode (p ∷ ps))

unfoldable pub qs : (String → String) → List (String × QsValue) → String
unfolding search_params params_text
qs encode params =
    let s = params_text encode (search_params params) in if truthy s then "?" +s s else ""

-- What goes to `fetch`: the path behind BASE, a content type only with a body, and the body's JSON.
pub record FetchRequest : Type 0 where
  pub method : Method
  pub url : String
  pub content_type : Option String
  pub body : Option Json

pub record HttpResponse : Type 0 where
  pub status : ℕ
  pub status_text : String
  pub text : String

-- `fetch` rejects, or answers.
pub data FetchResult : Type 0 where
  failed : FetchResult
  answered : HttpResponse → FetchResult

-- What `request` resolves to: the parsed document, the raw text where it does not parse, or
-- undefined for an empty body; or what it throws.
pub data Outcome : Type 0 where
  document : Json → Outcome
  raw : String → Outcome
  nothing : Outcome
  api_error : ℕ → String → Outcome
  network_error : Outcome

unfoldable pub has_body : JsValue → Bool
has_body JsValue.undefined = false
has_body _ = true

unfoldable pub fetch_request : Call → FetchRequest
unfolding has_body
fetch_request c = record {
  method = c.method;
  url = "/api" +s c.path;
  content_type = if has_body c.body then some "application/json" else none;
  body = stringify c.body;
}

-- `res.ok`.
unfoldable pub is_ok : ℕ → Bool
is_ok status = leb 200 status && ltb status 300

unfoldable pub field_of : String → JsonFields → Option Json
field_of k JsonFields.end = none
field_of k (JsonFields.field j v fs) = if j =? k then some v else field_of k fs

-- The body's data: the parsed text, or the text.
unfoldable pub read_body : (String → Option Json) → String → Outcome
unfolding truthy
read_body parse body =
    if truthy body then elim (parse body) [ none ↦ raw body | some j ↦ document j ] else nothing

module _ (show : Json → String) where
  -- The `error` field of an object, as text.
  unfoldable pub error_field : Outcome → Option String
  unfolding field_of
  error_field (document (Json.object fs)) = elim (field_of "error" fs) [
    | none ↦ none
    | some j ↦ some (show j)
  ]
  error_field _ = none

  -- The message of the thrown error.
  unfoldable pub server_message : Outcome → HttpResponse → String
  unfolding error_field truthy
  server_message parsed res = elim (error_field parsed) [
    | none ↦ if truthy res.text then res.text else res.status_text
    | some m ↦ m
  ]

  unfoldable pub request : (String → Option Json) → (FetchRequest → FetchResult) → Call → Outcome
  unfolding fetch_request is_ok read_body server_message
  request parse fetch c = elim (fetch (fetch_request c)) [
    | failed ↦ network_error
    | answered res ↦
        let parsed = read_body parse res.text in
        if is_ok res.status then parsed else api_error res.status (server_message parsed res)
  ]
