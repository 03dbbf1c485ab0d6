-- ===== src/Agent/Handler/Answers.antt =====
-- portal_agent/handler.go, serveHTTP, inside portal/portal.go, httpRequest, and before
-- portal_server/proxy_server.go, DoRequest: the answer of the service on its way to the browser.
use http_portal.Base.{
  ℕ, ◌≡◌, refl, ap, ◌∙◌, String, true, false, Option, none, some, List, [], ◌∷◌, map, Text, Header,
  header_get, header_set, replace_first, if◌then◌else◌, IsMap, HasValues, insert-IsMap,
  insert-HasValues, ◌==◌, text_eq, string_eq, Bool-cases, inl, inr,
}
use http_portal.Core.Errors.{Error}
use http_portal.Core.Messages.{RpcHeader, HttpRequest, HttpResponse, new_response_header}
use http_portal.Core.Conn.{ok}
use http_portal.Core.Wire.{Codec}
use http_portal.Portal.Writer.{Writer, write_header, new_writer, flush, to_field, read_from}
use http_portal.Portal.Writer.Stream.{bytes_of}
use http_portal.Portal.Writer.Copy.{copy-IsResponse}
use http_portal.Portal.Request.{Parsers, Request, parsed, parse_http_request}
use http_portal.Portal.Exchange.{Handshake, Dialing, Answered, returns, http_request}
use http_portal.Portal.Exchange.Served.{http_request-served}
use http_portal.Server.Http.{portal_header_host}
use http_portal.Server.Clients.{Reply, rpc_message}
use http_portal.Server.Relay.{HttpWriter, Forwarded, forward, all_lines}
use http_portal.Server.Relay.Response.{as_replies, forward-IsResponse}
use http_portal.Agent.Handler.{
  Outgoing, Response, Done, received, get_rewrite_url, location_back, begin_response, outgoing,
  serve_http, serve, add_all,
}
use http_portal.Agent.Handler.Copies.{add_all-copy}

location_back-IsMap : (new old : Text) (h : Header) → IsMap h → IsMap (location_back new old h)
unfolding location_back header_set
location_back-IsMap new old h m = elim (Bool-cases (header_get "Location" h == [])) [
  | inl without ↦ rw without m
  | inr some_ ↦ rw some_ (insert-IsMap "Location" _ h m)
]

location_back-HasValues :
    (new old : Text) (h : Header) → HasValues h → HasValues (location_back new old h)
unfolding location_back header_set
location_back-HasValues new old h v = elim (Bool-cases (header_get "Location" h == [])) [
  | inl without ↦ rw without v
  | inr some_ ↦ rw some_ (insert-HasValues "Location" _ h (λ e. cc) v)
]

module _ (parsers : Parsers) (host_rewrite : List (Text × Text))
    (new_request : String → Text → Option Error) (client_do : Outgoing → Done) where
  -- ServeHTTP of an answer copies its body behind status and header.
  serve-received :
      (a : Request) (resp : Response) (w w' : Writer) (n : ℕ) (e : Option Error)
      → new_request a.method (outgoing parsers host_rewrite new_request client_do a).url ≡ none
      → client_do (outgoing parsers host_rewrite new_request client_do a) ≡ received resp
      → read_from resp.body (
          begin_response
            (get_rewrite_url host_rewrite a.url).host
            (header_get portal_header_host a.header)
            resp
            w)
        ≡ some (ok (n, e), w')
      → serve parsers host_rewrite new_request client_do a w ≡ ok w'
  unfolding serve serve_http
  serve-received a resp w w' n e fine got run = rw (fine, serve_http, got, run) refl

-- What the agent sent, as DoRequest is given it.
abbrev pub replies_of : List (RpcHeader × HttpResponse) → List Reply
replies_of sent = map (λ m. rpc_message m.0 m.1) sent

replies_of_lem :
    (h : RpcHeader) (rs : List HttpResponse) → replies_of (map (λ r. (h, r)) rs) ≡ as_replies h rs
replies_of_lem h [] = refl
replies_of_lem h (r ∷ rs) = ap (◌∷◌ (rpc_message h r)) (replies_of_lem h rs)

abbrev pub browser : HttpWriter
browser = record { added = []; status = none; body = []; answers = [] }

-- A header in whose Location, if it has one, the first occurrence of the service's host is replaced by
-- the browser's.
abbrev pub relocated : Text → Text → Header → Header
relocated service_host browser_host header =
    let v = header_get "Location" header in
    if v == []
    then header
    else header_set "Location" (replace_first v service_host browser_host) header

-- DoRequest, which is given these messages, returns 200, and the browser has the service's answer.
abbrev pub GetsAnswer :
    List (Text × Text) → (ℕ → HttpWriter → Forwarded) → Request → Response → List Reply → Type 0
GetsAnswer host_rewrite t a resp replies =
    let f = forward t true replies browser in
    (f.code ≡ 200)
    × (f.error ≡ none)
    × (f.writer.status ≡ some resp.status_code)
    × (f.writer.added
        ≡ all_lines (
            map to_field (
              relocated (get_rewrite_url host_rewrite a.url).host
                (header_get "Portal-Host" a.header) resp.header)))
    × (f.writer.body ≡ bytes_of resp.body)

module _ (codec : Codec) (parsers : Parsers) (name : String) (ws_handler : Option Handshake)
    (host_rewrite : List (Text × Text)) (new_request : String → Text → Option Error)
    (client_do : Outgoing → Done) (capacity : ℕ) (n : Dialing)
    (t : ℕ → HttpWriter → Forwarded) where
  -- The messages, and what DoRequest makes of them.
  pub answer_messages :
      (header : RpcHeader) (q : HttpRequest) (a : Request) (resp : Response)
      → parse_http_request parsers q ≡ parsed a false
      → new_request a.method (outgoing parsers host_rewrite new_request client_do a).url ≡ none
      → client_do (outgoing parsers host_rewrite new_request client_do a) ≡ received resp
      → IsMap resp.header
      → HasValues resp.header
      → (rs : List HttpResponse) × (http_request codec parsers name ws_handler
            (serve parsers host_rewrite new_request client_do)
            capacity
            n
            []
            header
            q
          ≡ returns (record {
            sent = map (λ r. (new_response_header header, r)) rs;
            transferred = true;
            upgrade = none;
          }))
        × GetsAnswer host_rewrite t a resp (as_replies (new_response_header header) rs)
  unfolding begin_response new_writer write_header new_response_header location_back
  answer_messages header q a resp parses fine got m v =
      let lines =
        location_back (get_rewrite_url host_rewrite a.url).host
          (header_get portal_header_host a.header) resp.header in
      let h : RpcHeader = new_response_header header in
      let (count, e, w, run, counted, ended, flushed, shape, same) =
        copy-IsResponse capacity resp.status_code lines resp.body in
      let copied_lines : add_all lines [] ≡ lines =
        add_all-copy lines (location_back-IsMap _ _ resp.header m)
          (location_back-HasValues _ _ resp.header v) in
      let served : serve parsers host_rewrite new_request client_do a (new_writer capacity [])
          ≡ ok w =
        serve-received parsers host_rewrite new_request client_do a resp (new_writer capacity []) w
          count e fine got (rw copied_lines run) in
      let (code, error, writer) =
        forward-IsResponse t h resp.status_code lines (flush true w).1.sent browser refl refl
          shape in
      (
        (flush true w).1.sent,
        http_request-served codec parsers name ws_handler _ capacity n [] header q a w parses served
            flushed,
        (
          code,
          error,
          ap (λ x. x.status) writer,
          ap (λ x. x.added) writer,
          ap (λ x. x.body) writer ∙ same,
        ),
      )

  -- A message of the server that is no websocket request, where the service gives an answer, in
  -- whose header no key stands twice or without a value: with a connection that takes every message
  -- and a browser that takes every Write, the messages of httpRequest make DoRequest return 200 and
  -- the browser get the status of the service, its header lines, of which only a Location has the
  -- service's host replaced by the browser's, and exactly the bytes of its body that were read before
  -- an error; lastTransfer is set.
  answer_end_to_end :
      (header : RpcHeader) (q : HttpRequest) (a : Request) (resp : Response)
      → parse_http_request parsers q ≡ parsed a false
      → new_request a.method (outgoing parsers host_rewrite new_request client_do a).url ≡ none
      → client_do (outgoing parsers host_rewrite new_request client_do a) ≡ received resp
      → IsMap resp.header
      → HasValues resp.header
      → (out : Answered) × (http_request codec parsers name ws_handler
            (serve parsers host_rewrite new_request client_do)
            capacity
            n
            []
            header
            q
          ≡ returns out)
        × (out.transferred ≡ true)
        × GetsAnswer host_rewrite t a resp (replies_of out.sent)
  answer_end_to_end header q a resp parses fine got m v =
      let (rs, run, gets) = answer_messages header q a resp parses fine got m v in
      (
        record {
          sent = map (λ r. (new_response_header header, r)) rs;
          transferred = true;
          upgrade = none;
        },
        run,
        refl,
        rw (replies_of_lem (new_response_header header) rs) gets,
      )
