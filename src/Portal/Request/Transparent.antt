-- ===== src/Portal/Request/Transparent.antt =====
-- portal_server/http_server.go, serveHTTP, and portal/portal.go, parseHttpRequest: what the agent's
-- handler is given of a browser's request.
use http_portal.Base.{
  Text, ◌++◌, eqb, eqb_iff, Bool-cases, ap, IsMap, ℕ, ◌≡◌, refl, subst, sym, ◌∙◌, ◌⊎◌, inl, inr,
  String, Bool, false, Option, none, some, List, [], ◌∷◌, lookup, string_eq, text_eq, Header,
  header_get, arith,
}
use http_portal.Core.Errors.{Error}
use http_portal.Core.Messages.{HttpRequest}
use http_portal.Server.Http.{
  Request as BrowserRequest, complete, Level, prepare, ready, is_portal, portal_header_host,
  without_port, as_message,
}
use http_portal.Server.Http.Depth.{prepare-as_message}
use http_portal.Portal.Request.{
  Parsers, Url, Request, parsed, add_fields, is_websocket, parse_http_request, with_version,
  with_url,
}
use http_portal.Portal.Websocket.Protocols.{NoByte}
use http_portal.Portal.Request.Fields.{lookup-request_fields, lookup-host}

-- The request that the handler gets holds what the message held, but for its URL and version.
abbrev Kept : HttpRequest → Bool → Header → Request → Bool → Type 0
Kept q as_ws header a ws =
    (a.method ≡ q.method)
    × (a.request_uri ≡ q.url)
    × (a.host ≡ q.host)
    × (a.remote_addr ≡ q.remote_addr)
    × (a.body ≡ q.body)
    × (a.header ≡ header)
    × (ws ≡ as_ws)

with_url-Kept :
    (as_ws : Bool) (h : Header) (version : ℕ × ℕ) (u : Error ⊎ Url) (q : HttpRequest) (a : Request)
    (ws : Bool)
    → with_url as_ws h version u q ≡ parsed a ws
    → Kept q as_ws h a ws
unfolding with_url
with_url-Kept as_ws h version (inl e) q a ws eq = cc
with_url-Kept as_ws h version (inr u) q a ws eq = grind arith

-- The part of a text in front of its first colon.
abbrev pub HostOf : Text → Text → Type 0
HostOf whole host =
    NoByte 58 host
    × (rest : Text) × (whole ≡ host ++ rest)
    × ((rest ≡ []) ⊎ ((port : Text) × (rest ≡ 58 ∷ port)))

without_port-HostOf : (s : Text) → HostOf s (without_port s)
unfolding without_port
without_port-HostOf [] = (tt, [], refl, inl refl)
without_port-HostOf (c ∷ s) = elim (Bool-cases (eqb c 58)) [
  | inl colon ↦ rw colon (tt, c ∷ s, refl, inr (s, ap (λ x. x ∷ s) ((eqb_iff c 58).0 colon)))
  | inr letter ↦
      let (clean, rest, whole, end) = without_port-HostOf s in
      rw letter ((letter, clean), rest, ap (◌∷◌ c) whole, end)
]

module _ (parsers : Parsers) where
  with_version-Kept :
      (as_ws : Bool) (h : Header) (version : Option (ℕ × ℕ)) (q : HttpRequest) (a : Request)
      (ws : Bool)
      → with_version parsers as_ws h version q ≡ parsed a ws
      → Kept q as_ws h a ws
  unfolding with_version
  with_version-Kept as_ws h none q a ws eq = cc
  with_version-Kept as_ws h (some v) q a ws eq = with_url-Kept as_ws h v _ q a ws eq

  parse-Kept :
      (q : HttpRequest) (a : Request) (ws : Bool)
      → parse_http_request parsers q ≡ parsed a ws
      → Kept q (is_websocket q.method (add_fields q.header [])) (add_fields q.header []) a ws
  unfolding parse_http_request
  parse-Kept q a ws eq = with_version-Kept _ _ _ q a ws eq

  is_websocket_by_get :
      (method : String) (h g : Header)
      → lookup "Upgrade" h ≡ lookup "Upgrade" g
      → lookup "Connection" h ≡ lookup "Connection" g
      → is_websocket method h ≡ is_websocket method g
  unfolding is_websocket header_get
  is_websocket_by_get method h g up conn = rw (up, conn) refl

  -- What the browser sent and the handler gets.
  abbrev pub Passed : BrowserRequest → Request → Bool → Type 0
  Passed r a ws =
      (a.method ≡ r.method)
      × (a.request_uri ≡ r.url)
      × (a.remote_addr ≡ r.remote_addr)
      × ((bs : List ℕ) → r.body ≡ complete bs → a.body ≡ bs)
      × HostOf r.host a.host
      × (lookup portal_header_host a.header ≡ some (r.host ∷ []))
      × ((key : String) → is_portal key ≡ false → lookup key a.header ≡ lookup key r.header)
      × (ws ≡ is_websocket r.method r.header)

  message-Passed :
      (l : Level) (r : BrowserRequest) (a : Request) (ws : Bool)
      → IsMap r.header
      → parse_http_request parsers (as_message l r) ≡ parsed a ws
      → Passed r a ws
  unfolding as_message is_portal
  message-Passed l r a ws m got =
      let (method, uri, host, addr, body, header, kind) = parse-Kept (as_message l r) a ws got in
      (
        method,
        uri,
        addr,
        λ bs full. body ∙ rw (full) refl,
        subst (HostOf r.host) (sym host) (without_port-HostOf r.host),
        rw header (lookup-host l r),
        λ key other. rw header (lookup-request_fields key other l r m),
        kind
            ∙ is_websocket_by_get r.method _ r.header (lookup-request_fields "Upgrade" refl l r m)
                (lookup-request_fields "Connection" refl l r m),
      )

  -- What serveHTTP makes of a browser's request, in whose header no key stands twice, and
  -- parseHttpRequest parses: the agent's handler gets
  -- the browser's method, URI, address and body, its host up to the first colon, in Portal-Host the host
  -- as it came, and under every key that does not begin with Portal- just the values that the browser
  -- sent; it is taken for a websocket request exactly where the browser's own headers ask for one.
  pub parse-prepare :
      (r : BrowserRequest) (q : HttpRequest) (a : Request) (ws : Bool)
      → IsMap r.header
      → prepare r ≡ ready q
      → parse_http_request parsers q ≡ parsed a ws
      → Passed r a ws
  parse-prepare r q a ws m made got =
      let (l, _, same) = prepare-as_message r q made in
      message-Passed l r a ws m
        (subst (λ x. parse_http_request parsers x ≡ parsed a ws) (sym same) got)
