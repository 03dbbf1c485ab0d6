-- ===== src/System/Visit.antt =====
-- portal_server/http_server.go, serveHTTP, and portal_server/proxy_server.go, DoRequest, with
-- portal/portal.go, receive and httpRequest, and portal_agent/handler.go, serveHTTP: a browser's visit.
use http_portal.Base.{
  ℕ, ◌≡◌, refl, ap, sym, ◌∙◌, drop, drop-append_length, String, true, false, Option, none, some,
  List, [], ◌∷◌, ◌++◌, map, length, Text, IsMap, HasValues, string_eq, text_eq, nat_eq, arith,
  lookup, lookup-insert, header_get,
}
use http_portal.Core.Errors.{Error}
use http_portal.Core.Messages.{RpcHeader, HttpRequest, http_request, method_http_do}
use http_portal.Core.Conn.{Conn, Outcome, ok, byte, Arrival}
use http_portal.Core.Wire.{Codec, IsCodec, send}
use http_portal.Core.Wire.Stream.{Sending, AllCarry, Carries, carried, send_all, send-inbox}
use http_portal.Core.Receiver.{prepare_request, idle}
use http_portal.Portal.Service as Agent
use http_portal.Portal.Receive as Receive
use http_portal.Portal.Request.{Parsers, Request, parsed, parse_http_request}
use http_portal.Portal.Request.Transparent.{Passed, parse-prepare}
use http_portal.Portal.Exchange.{Handshake, Dialing, Answered, returns}
use http_portal.Portal.Exchange as Exchange
use http_portal.Server.Clients.{PortalClient, State, done, put_client, get}
use http_portal.Server.Connection.{Turn}
use http_portal.Server.Http as Http
use http_portal.Server.Http.{prepare, ready, serve_http}
use http_portal.Server.Relay.{HttpWriter, Forwarded, ProxyServer}
use http_portal.Server.Service as Service
use http_portal.Server.Http.{portal_header_host}
use http_portal.Server.Relay.{all_lines}
use http_portal.Portal.Writer.{to_field}
use http_portal.Portal.Writer.Stream.{bytes_of}
use http_portal.Agent.Handler.Answers.{relocated}
use http_portal.Agent.Handler.{Outgoing, Response, Done, received, outgoing, serve, get_rewrite_url}
use http_portal.Agent.Handler.Answers.{browser}
use http_portal.Server.Relay.Passed.{do_request-forward}
use http_portal.Server.Http.Report.{serve_http-passed}
use http_portal.System.Relay.{relay, Ready}
use http_portal.System.Answer.{SendsOf, answer_over_the_wire}

-- A message for an agent: its round of receive starts a goroutine for it.
round-starts :
    (codec : Codec) (law : IsCodec codec) (d : Option ℕ) (h : RpcHeader) (q : HttpRequest)
    (from : Conn) (t : Receive.Turn) (delay : ℕ) (x : Receive.Reading) (bs : List ℕ)
    (rest : List Arrival)
    → Carries codec h (http_request q)
    → h.method ≡ method_http_do
    → from.writes ≡ []
    → (send codec d h (some (http_request q)) from).1.outbox ≡ from.outbox ++ bs
    → t.stopped_before ≡ false
    → x.conn.inbox ≡ map byte bs ++ rest
    → ((send codec d h (some (http_request q)) from).0 ≡ ok tt)
      × (Receive.round codec t delay x
          ≡ Receive.again delay (record x {
            conn = record x.conn { inbox = rest; deadline = none };
            started = x.started ++ (h, q) ∷ [];
          }))
unfolding Receive.round Receive.received Agent.process_msg Agent.get_msg
round-starts codec law d h q from t delay x bs rest carries is_http writes wrote going arrived =
    let (bs0, (sent, wrote0, reads)) =
      carried codec law d Agent.get_msg h (http_request q) from carries (rw is_http refl)
        (rw is_http refl) writes in
    let same : bs0 ≡ bs =
      sym (drop-append_length from.outbox bs0)
      ∙ ap (drop (length from.outbox)) (sym wrote0 ∙ wrote)
      ∙ drop-append_length from.outbox bs in
    (
      sent,
      rw
          (
            going,
            reads t.pool x.conn rest (arrived ∙ ap (λ b. map byte b ++ rest) (sym same)),
            is_http,
          )
          refl,
    )

-- The state of the server behind the send of a request.
abbrev pub asked : Codec → Option ℕ → ℕ → PortalClient → HttpRequest → State → State
asked codec timeout id c q s =
    let (seq, receiver) = prepare_request c.receiver in
    let header : RpcHeader = record { method = method_http_do; error = ""; seq = seq } in
    put_client id
      (record c {
        conn = (send codec timeout header (some (http_request q)) c.conn).1;
        receiver = receiver;
      })
      s

module _ (codec : Codec) (law : IsCodec codec) (transport : ℕ → HttpWriter → Forwarded) (now : ℕ)
    (timeout : Option ℕ) where
  asked-Ready :
      (id : ℕ) (c : PortalClient) (q : HttpRequest) (s : State) (inbox : List Arrival)
      → c.is_login ≡ true
      → c.conn.inbox ≡ inbox
      → c.conn.writes ≡ []
      → let (seq, receiver) = prepare_request c.receiver in
        Carries codec (record { method = method_http_do; error = ""; seq = seq }) (http_request q)
        → Ready id seq inbox (asked codec timeout id c q s)
  unfolding prepare_request
  asked-Ready id c q s inbox known arrives writes carries =
      let (seq, receiver) = prepare_request c.receiver in
      let header : RpcHeader = record { method = method_http_do; error = ""; seq = seq } in
      let c' : PortalClient = record c {
        conn = (send codec timeout header (some (http_request q)) c.conn).1;
        receiver = receiver;
      } in
      (
        c',
        ground (arith, lookup-insert id id c' s.clients),
        known,
        send-inbox codec law timeout header (http_request q) c.conn carries refl writes ∙ arrives,
        ground (arith, lookup-insert seq seq idle c.receiver.requests),
      )

  module _ (nil_pointer : Outcome (List ℕ)) (send_timeout : ℕ) (parsers : Parsers) (name : String)
      (ws_handler : Option Handshake) (host_rewrite : List (Text × Text))
      (new_request : String → Text → Option Error) (client_do : Outgoing → Done) (capacity : ℕ)
      (n : Dialing) where
    -- A browser's visit, from serveHTTP to serveHTTP. The server passes the request on to the agent
    -- that serves its host, the agent's receive starts httpRequest for it, the agent's handler asks
    -- the service, and the parts of the answer come back to DoRequest, each while it stands in its
    -- select. Then the handler was given the browser's request, and serveHTTP returns without an error
    -- and has written the status of the service, its header lines, of which only a Location has the
    -- service's host replaced by the browser's, and exactly the bytes of its body that were read
    -- before an error. The request is one that serveHTTP passes on and parseHttpRequest parses, and
    -- is no websocket one; no key stands twice in its header or in the service's, and none of the
    -- service's is without a value; the host is a logged-in agent's; each side's connection delivers
    -- what the other wrote; the codec obeys its laws and marshals each message into a frame that
    -- Receive takes; no Write fails, nor does NewRequest, and the service answers.
    pub visit_end_to_end :
        (r : Http.Request) (q : HttpRequest) (a : Request) (resp : Response) (out : Answered)
        (id : ℕ) (c : PortalClient) (s : ProxyServer) (bs bs' : List ℕ) (rest rest' : List Arrival)
        (t : Receive.Turn) (delay delay' : ℕ) (x : Receive.Reading) (xs : List Sending)
        (from : Conn) (turns : ℕ → Turn)
        → IsMap r.header
        → prepare r ≡ ready q
        → lookup q.host s.hosts ≡ some name
        → get name s.clients ≡ some id
        → lookup id s.clients.clients ≡ some c
        → c.is_login ≡ true
        → c.conn.writes ≡ []
        → let header : RpcHeader = record {
          method = method_http_do;
          error = "";
          seq = (prepare_request c.receiver).0;
        } in
          Carries codec header (http_request q)
          → (send codec timeout header (some (http_request q)) c.conn).1.outbox
            ≡ c.conn.outbox ++ bs
          → t.stopped_before ≡ false
          → x.conn.inbox ≡ map byte bs ++ rest
          → parse_http_request parsers q ≡ parsed a false
          → new_request a.method (outgoing parsers host_rewrite new_request client_do a).url ≡ none
          → client_do (outgoing parsers host_rewrite new_request client_do a) ≡ received resp
          → IsMap resp.header
          → HasValues resp.header
          → Exchange.http_request codec parsers name ws_handler
              (serve parsers host_rewrite new_request client_do)
              capacity
              n
              []
              header
              q
            ≡ returns out
          → SendsOf out.sent xs
          → AllCarry codec Service.get_msg xs
          → from.writes ≡ []
          → (send_all codec xs from).1.outbox ≡ from.outbox ++ bs'
          → c.conn.inbox ≡ map byte bs' ++ rest'
          → let replies =
              relay codec nil_pointer send_timeout turns id header.seq
                (length xs)
                delay'
                (asked codec timeout id c q s.clients) in
            (Receive.round codec t delay x
              ≡ Receive.again delay (record x {
                conn = record x.conn { inbox = rest; deadline = none };
                started = x.started ++ (header, q) ∷ [];
              }))
            × Passed parsers r a false
            × ((o : Http.Served) × (serve_http codec transport now timeout r replies browser s
                  ≡ done o)
                × (o.error ≡ none)
                × (o.writer.status ≡ some resp.status_code)
                × (o.writer.added
                    ≡ all_lines (
                        map to_field (
                          relocated
                            (get_rewrite_url host_rewrite a.url).host
                            (header_get "Portal-Host" a.header)
                            resp.header)))
                × (o.writer.body ≡ bytes_of resp.body))
    visit_end_to_end r q a resp out id c s bs bs' rest rest' t delay delay' x xs from turns m made
          host named found known writes carries wrote going arrived parses fine got m' v run sends
          carry writes' wrote' arrives =
        let (seq, receiver) = prepare_request c.receiver in
        let header : RpcHeader = record { method = method_http_do; error = ""; seq = seq } in
        let (sent, started) =
          round-starts codec law timeout header q c.conn t delay x bs rest carries refl writes wrote
            going arrived in
        let (code, no_error, status, added, body) =
          answer_over_the_wire codec law nil_pointer send_timeout parsers name ws_handler
            host_rewrite new_request client_do capacity n transport header q a resp out xs from
            turns id delay' bs' rest' (asked codec timeout id c q s.clients) parses fine got m' v
            refl run sends carry writes' wrote'
            (asked-Ready id c q s.clients _ known arrives writes carries) in
        let (answer, ran, clean, same) =
          do_request-forward codec transport now timeout q name id c
            (relay codec nil_pointer send_timeout turns id seq (length xs) delay'
              (asked codec timeout id c q s.clients))
            browser s host named found sent no_error in
        (
          started,
          parse-prepare parsers r q a false m made parses,
          (
            record { error = none; writer = answer.writer; server = answer.server },
            serve_http-passed codec transport now timeout r q _ browser s answer made ran clean,
            refl,
            ap (λ w. w.status) same ∙ status,
            ap (λ w. w.added) same ∙ added,
            ap (λ w. w.body) same ∙ body,
          ),
        )
