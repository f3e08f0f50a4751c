-- ===== src/Proxy.antt =====
-- web/src/app/api/[...path]/route.ts: the handler that forwards a request of the browser to the backend.
-- Next.js hands it the segments of the path behind /api and the query string. `fetch` on the server,
-- the environment's BACKEND_URL and what Next.js itself answers are arguments.
pub mod Transparency
use core_banking_system.Prelude.{
  String, Bool, true, false, Option, none, some, List, [], ◌∷◌, ◌+s◌, or_else, truthy,
  if◌then◌else◌,
}
use core_banking_system.Json.{Json, JsonFields}
use core_banking_system.Client.{Method, get, post, delete, put, head, options, HttpResponse}

-- `NextRequest` with its route parameters: an absent header and an absent body are none, and
-- `request.text()` is the empty text where there is no body.
pub record ProxyRequest : Type 0 where
  pub method : Method
  pub path : List String
  pub search : String
  pub content_type : Option String
  pub body : Option String

-- What goes to `fetch`.
pub record Upstream : Type 0 where
  pub method : Method
  pub target : String
  pub content_type : Option String
  pub body : Option String

-- `path.join("/")`.
unfoldable pub join : List String → String
join [] = ""
join (s ∷ []) = s
join (s ∷ t ∷ r) = s +s ("/" +s join (t ∷ r))

-- A header that is missing or empty is not set.
unfoldable pub forwarded_type : Option String → Option String
forwarded_type none = none
forwarded_type (some t) = if truthy t then some t else none

-- GET and HEAD go without a body.
unfoldable pub forwarded_body : Method → Option String → Option String
forwarded_body get body = none
forwarded_body head body = none
forwarded_body _ body = some (or_else body "")

unfoldable pub forward : String → ProxyRequest → Upstream
unfolding join forwarded_type forwarded_body
forward backend r = record {
  method = r.method;
  target = backend +s ("/" +s (join r.path +s r.search));
  content_type = forwarded_type r.content_type;
  body = forwarded_body r.method r.body;
}

-- The body of the answer where the backend cannot be reached.
abbrev pub unreachable_body : String → Json
unreachable_body backend =
    Json.object
      (JsonFields.field "error" (Json.string ("Backend unreachable at " +s backend)) JsonFields.end)

-- What comes of `fetch` and of reading the answer's text: `fetch` rejects, `upstream.text()` rejects, or
-- there is an answer with its text.
pub data UpstreamResult : Type 0 where
  unreachable cut_off : UpstreamResult
  relayed : HttpResponse → UpstreamResult

-- The methods that the file exports its handler for.
unfoldable pub exported : Method → Bool
exported get = true
exported post = true
exported delete = true
exported options = true
exported put = false
exported head = false

-- The answers that Next.js makes: to a request of a method that is not exported, and to one whose handler
-- has thrown.
pub record NextServer : Type 0 where
  pub not_exported : ProxyRequest → HttpResponse
  pub thrown : ProxyRequest → HttpResponse

module _ (print : Json → String) where
  -- The handler's answer: the backend's status and text, or a 502 with an `error` field; none where it
  -- throws. The status text is not passed on. `print` is `JSON.stringify`.
  unfoldable pub relay : String → UpstreamResult → Option HttpResponse
  relay backend unreachable =
      some (record { status = 502; status_text = ""; text = print (unreachable_body backend) })
  relay backend cut_off = none
  relay backend (relayed res) = some (record res { status_text = "" })

  unfoldable pub handle : String → (Upstream → UpstreamResult) → ProxyRequest → Option HttpResponse
  unfolding forward relay
  handle backend fetch r = relay backend (fetch (forward backend r))

  -- The route: the exported handlers, in the server that calls them.
  unfoldable pub respond :
      NextServer → String → (Upstream → UpstreamResult) → ProxyRequest → HttpResponse
  unfolding exported handle
  respond next backend fetch r =
      if exported r.method
      then or_else (handle backend fetch r) (next.thrown r)
      else next.not_exported r
