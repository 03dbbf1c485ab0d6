-- ===== src/System/Answer.antt =====
-- portal_agent/handler.go, serveHTTP, inside portal/portal.go, httpRequest, core/net.go, and
-- portal_server/proxy_server.go, keepConnection and DoRequest: an answer on its whole way.
use http_portal.Base.{
  ℕ, zero, ◌≡◌, refl, ap, sym, ◌∙◌, subst, drop, drop-append_length, String, false, Option, none,
  List, [], ◌∷◌, ◌++◌, map, length, Text, IsMap, HasValues, string_eq, arith,
}
use http_portal.Core.Errors.{Error}
use http_portal.Core.Messages.{
  RpcHeader, HttpRequest, HttpResponse, http_response, method_http_do, new_response_header,
}
use http_portal.Core.Conn.{Conn, Outcome, byte, Arrival}
use http_portal.Core.Wire.{Codec, IsCodec}
use http_portal.Core.Wire.Stream.{Sending, AllCarry, Frames, send_all, send_all-Frames}
use http_portal.Portal.Request.{Parsers, Request, parsed, parse_http_request}
use http_portal.Portal.Exchange.{Handshake, Dialing, Answered, returns, http_request}
use http_portal.Server.Clients.{State}
use http_portal.Server.Service.{get_msg}
use http_portal.Server.Connection.{Turn}
use http_portal.Server.Relay.{HttpWriter, Forwarded}
use http_portal.Agent.Handler.{Outgoing, Response, Done, received, outgoing, serve}
use http_portal.Agent.Handler.Answers.{GetsAnswer, answer_messages}
use http_portal.System.Relay.{relay, Parts, Ready, relay-Frames}

-- These Sends are those of these messages, each under a deadline of its own.
abbrev pub SendsOf : List (RpcHeader × HttpResponse) → List Sending → Type 0
SendsOf [] [] = Unit {0}
SendsOf ((h, r) ∷ ms) (x ∷ xs) = (x.header ≡ h) × (x.message ≡ http_response r) × SendsOf ms xs
SendsOf _ _ = zero ≡ 1

SendsOf-Parts :
    (h : RpcHeader) (rs : List HttpResponse) (xs : List Sending)
    → SendsOf (map (λ r. (h, r)) rs) xs
    → Parts h rs xs
SendsOf-Parts h [] [] sends = tt
SendsOf-Parts h [] (x ∷ xs) sends = sends
SendsOf-Parts h (r ∷ rs) [] sends = sends
SendsOf-Parts h (r ∷ rs) (x ∷ xs) (a, b, sends) = (a, b, SendsOf-Parts h rs xs sends)

module _ (codec : Codec) (law : IsCodec codec) (nil_pointer : Outcome (List ℕ)) (send_timeout : ℕ)
    (parsers : Parsers) (name : String) (ws_handler : Option Handshake)
    (host_rewrite : List (Text × Text)) (new_request : String → Text → Option Error)
    (client_do : Outgoing → Done) (capacity : ℕ) (n : Dialing)
    (t : ℕ → HttpWriter → Forwarded) where
  -- The answer of the service reaches the browser: a message of the server that is no websocket
  -- request, where the service gives an answer, in whose header no key stands twice or without a
  -- value. The agent writes the messages of httpRequest on its connection, one Send after the other,
  -- each under any deadline; the server's connection delivers these bytes; and each round of
  -- keepConnection hands one message to DoRequest, which has come back to its select before. Then
  -- what DoRequest is given makes it return 200, and the browser, which takes every Write, gets the
  -- status of the service, its header lines, of which only a Location has the service's host replaced
  -- by the browser's, and exactly the bytes of its body that were read before an error. The codec obeys
  -- its laws and marshals each message, into a frame that Receive takes; no Write of the agent fails;
  -- and the server's client is logged in and has the request pending.
  pub answer_over_the_wire :
      (header : RpcHeader) (q : HttpRequest) (a : Request) (resp : Response) (out : Answered)
      (xs : List Sending) (from : Conn) (turns : ℕ → Turn) (id delay : ℕ) (bs : List ℕ)
      (rest : List Arrival) (s : State)
      → parse_http_request parsers q ≡ parsed a false
      → new_request a.method (outgoing parsers host_rewrite new_request client_do a).url ≡ none
      → client_do (outgoing parsers host_rewrite new_request client_do a) ≡ received resp
      → IsMap resp.header
      → HasValues resp.header
      → header.method ≡ method_http_do
      → http_request codec parsers name ws_handler
          (serve parsers host_rewrite new_request client_do)
          capacity
          n
          []
          header
          q
        ≡ returns out
      → SendsOf out.sent xs
      → AllCarry codec get_msg xs
      → from.writes ≡ []
      → (send_all codec xs from).1.outbox ≡ from.outbox ++ bs
      → Ready id header.seq (map byte bs ++ rest) s
      → GetsAnswer host_rewrite t a resp
          (relay codec nil_pointer send_timeout turns id header.seq (length xs) delay s)
  unfolding new_response_header
  answer_over_the_wire header q a resp out xs from turns id delay bs rest s parses fine got m v
        is_http run sends carries writes wrote ready =
      let (rs, ran, gets) =
        answer_messages codec parsers name ws_handler host_rewrite new_request client_do capacity n
          t header q a resp parses fine got m v in
      let h = new_response_header header in
      let sent : out.sent ≡ map (λ r. (h, r)) rs = ground (arith, run, ran) in
      let (bs0, done, wrote0, frames) = send_all-Frames codec law get_msg xs from carries writes in
      let same : bs0 ≡ bs =
        sym (drop-append_length from.outbox bs0)
        ∙ ap (drop (length from.outbox)) (sym wrote0 ∙ wrote)
        ∙ drop-append_length from.outbox bs in
      let parts = SendsOf-Parts h rs xs (subst (λ ms. SendsOf ms xs) sent sends) in
      rw
        (relay-Frames codec nil_pointer send_timeout turns id header.seq delay h rs xs bs rest s
          (rw is_http refl) refl parts (subst (λ b. Frames codec get_msg xs b) same frames) ready)
        gets
