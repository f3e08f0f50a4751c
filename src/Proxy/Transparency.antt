-- ===== src/Proxy/Transparency.antt =====
-- The client's `request` (web/src/lib/api/client.ts) through the proxy
-- (web/src/app/api/[...path]/route.ts).
use mathlib.Core.Option
use text.Mathlib.TextLemmas.{append_assoc, append-nil}
use core_banking_system.Prelude.{
  Bool, true, false, none, or_else, if◌then◌else◌, ◌≡◌, refl, arith, sym, ap, ◌∙◌, String, Option,
  some, List, [], ◌∷◌, ◌+s◌, truthy,
}
use core_banking_system.Json.{Json, stringify}
use core_banking_system.Client.{
  Method, get, post, delete, put, head, options, has_body, Call, FetchRequest, HttpResponse,
  answered, Outcome, request, fetch_request, url, is_ok, read_body, server_message, error_field,
  field_of,
}
use core_banking_system.Endpoints.Endpoint.{Endpoint, call}
use core_banking_system.Proxy.{
  ProxyRequest, Upstream, join, forwarded_type, forwarded_body, forward, unreachable_body, relay,
  UpstreamResult, unreachable, cut_off, relayed, exported, NextServer, handle, respond,
}

-- What the handler receives for a request of the browser, for the segments and the query string that
-- its path has.
unfoldable pub received : (Json → String) → List String → String → FetchRequest → ProxyRequest
received print l q r = record {
  method = r.method;
  path = l;
  search = q;
  content_type = r.content_type;
  body = Option.map print r.body;
}

-- Joining the segments gives the path again.
join-url : (s : String) (l : List String) → "/" +s join (s ∷ l) ≡ url (s ∷ l)
unfolding join url
join-url s [] = rw append-nil refl
join-url s (t ∷ l) = ap (λ (x : String). "/" +s (s +s x)) (join-url t l)

-- Whether a request of a method has a body.
abbrev takes_body : Method → Bool
takes_body get = false
takes_body head = false
takes_body _ = true

-- What the backend is asked for a call, and what the client makes of its answer.
unfoldable pub asked : (Json → String) → String → Call → Upstream
asked print backend c = record {
  method = c.method;
  target = backend +s c.path;
  content_type = if has_body c.body then some "application/json" else none;
  body =
      if takes_body c.method then some (or_else (Option.map print (stringify c.body)) "") else none;
}

forwarded_type-json :
    (b : Bool)
    → forwarded_type (if b then some "application/json" else none)
      ≡ (if b then some "application/json" else none)
unfolding forwarded_type truthy
forwarded_type-json true = refl
forwarded_type-json false = refl

forwarded_body-takes_body :
    (m : Method) (o : Option String)
    → forwarded_body m o ≡ (if takes_body m then some (or_else o "") else none)
unfolding forwarded_body
forwarded_body-takes_body get o = refl
forwarded_body-takes_body post o = refl
forwarded_body-takes_body delete o = refl
forwarded_body-takes_body put o = refl
forwarded_body-takes_body head o = refl
forwarded_body-takes_body options o = refl

-- The client uses no method that is not exported.
exported-call : (encode : String → String) (e : Endpoint) → exported (call encode e).method ≡ true
unfolding exported call
exported-call encode e = ground arith

module _ (show print : Json → String) (parse : String → Option Json) where
  -- What the client makes of what comes of the backend, where a handler that throws has an answer.
  unfoldable pub seen : String → HttpResponse → Call → UpstreamResult → Outcome
  seen backend crash c unreachable =
      Outcome.api_error 502 (show (Json.string ("Backend unreachable at " +s backend)))
  seen backend crash c cut_off = request show parse (λ _. answered crash) c
  seen backend crash c (relayed res) =
      request show parse (λ _. answered (record res { status_text = "" })) c

  request-relay :
      (backend : String) (crash : HttpResponse) (c : Call) (r : UpstreamResult)
      → parse (print (unreachable_body backend)) ≡ some (unreachable_body backend)
      → truthy (print (unreachable_body backend)) ≡ true
      → request show parse (λ _. answered (or_else (relay print backend r) crash)) c
        ≡ seen backend crash c r
  unfolding request relay seen is_ok read_body server_message error_field field_of
  request-relay backend crash c unreachable h k = rw (k, h) refl
  request-relay backend crash c cut_off h k = refl
  request-relay backend crash c (relayed res) h k = refl

  same_target :
      (backend s q : String) (l : List String) (c : Call)
      → c.path ≡ url (s ∷ l) +s q
      → forward backend (received print (s ∷ l) q (fetch_request c)) ≡ asked print backend c
  unfolding forward received asked fetch_request
  same_target backend s q l c e =
      let t : "/" +s (join (s ∷ l) +s q) ≡ c.path =
        sym (append_assoc "/" (join (s ∷ l)) q)
        ∙ (ap (λ (x : String). x +s q) (join-url s l) ∙ sym e) in
      rw
        (
          t,
          forwarded_type-json (has_body c.body),
          forwarded_body-takes_body c.method (Option.map print (stringify c.body)),
        )
        refl

  respond-exported :
      (next : NextServer) (backend : String) (fetch : Upstream → UpstreamResult) (r : ProxyRequest)
      → exported r.method ≡ true
      → respond print next backend fetch r ≡ or_else (handle print backend fetch r) (next.thrown r)
  unfolding respond
  respond-exported next backend fetch r x = rw x refl

  request-respond :
      (next : NextServer) (backend s q : String) (l : List String) (c : Call)
      (fetch : Upstream → UpstreamResult)
      → parse (print (unreachable_body backend)) ≡ some (unreachable_body backend)
      → truthy (print (unreachable_body backend)) ≡ true
      → exported c.method ≡ true
      → c.path ≡ url (s ∷ l) +s q
      → request show parse
          (λ r. answered (respond print next backend fetch (received print (s ∷ l) q r)))
          c
        ≡ seen backend
            (next.thrown (received print (s ∷ l) q (fetch_request c)))
            c
            (fetch (asked print backend c))
  unfolding handle request received fetch_request
  request-respond next backend s q l c fetch h k x e =
      let crash = next.thrown (received print (s ∷ l) q (fetch_request c)) in
      ap (λ res. request show parse (λ _. answered res) c)
        (respond-exported next backend fetch (received print (s ∷ l) q (fetch_request c)) x)
      ∙ (ap
            (λ (u : Upstream).
              request show parse (λ _. answered (or_else (relay print backend (fetch u)) crash)) c)
            (same_target backend s q l c e)
          ∙ request-relay backend crash c (fetch (asked print backend c)) h k)

  -- The proxy is transparent to the client's endpoint functions, whose methods it exports all: for a
  -- call whose path has the segments and the query string that the handler receives, the backend is
  -- asked for exactly that path, with the method, content type and body of the call, and the client sees
  -- the status and the text of the answer; where the backend cannot be reached it sees a 502 with a
  -- message, if `JSON.parse` reads that message back, and where the answer breaks off, what the server
  -- answers for a handler that throws.
  pub request-handle :
      (encode : String → String) (next : NextServer) (backend s q : String) (l : List String)
      (e : Endpoint) (fetch : Upstream → UpstreamResult)
      → parse (print (unreachable_body backend)) ≡ some (unreachable_body backend)
      → truthy (print (unreachable_body backend)) ≡ true
      → (call encode e).path ≡ url (s ∷ l) +s q
      → request show parse
          (λ r. answered (respond print next backend fetch (received print (s ∷ l) q r)))
          (call encode e)
        ≡ seen backend
            (next.thrown (received print (s ∷ l) q (fetch_request (call encode e))))
            (call encode e)
            (fetch (asked print backend (call encode e)))
  request-handle encode next backend s q l e fetch h k p =
      request-respond next backend s q l (call encode e) fetch h k (exported-call encode e) p
