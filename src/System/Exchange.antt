-- ===== src/System/Exchange.antt =====
-- portal_server/proxy_server.go, keepConnection, between portal/portal.go, sendWithContext and receive:
-- a request of the agent, its answer, and the agent's Receive of the answer.
use http_portal.Base.{
  ℕ, ◌+◌, ◌≡◌, refl, false, Option, none, some, List, [], ◌++◌, map, lookup, nat_eq, string_eq,
  ◌==◌,
}
use http_portal.Core.Messages.{
  RpcHeader, Message, Kind, AckCode, ack, is_resp_method, new_response_header,
}
use http_portal.Core.Conn.{Conn, Outcome, ok, err, panic, byte, Arrival}
use http_portal.Core.Wire.{Codec, IsCodec, send}
use http_portal.Core.Wire.Stream.{Carries, Reads, Travels, carried}
use http_portal.Server.Clients.{PortalClient, State, done, put_client}
use http_portal.Server.Service as Service
use http_portal.Server.Service.{Served}
use http_portal.Server.Connection.{Turn, again, send_answer, answered, after_msg, received, round}

module _ (codec : Codec) (law : IsCodec codec) where
  -- The loop goes on behind an answer that was sent.
  answered_lem :
      (nil_pointer : Outcome (List ℕ)) (send_timeout id delay : ℕ) (c : PortalClient) (s : State)
      (r : Outcome (Unit {0}) × Conn)
      → r.0 ≡ ok tt
      → c.is_websocket ≡ false
      → answered codec nil_pointer send_timeout id c delay s r
        ≡ again delay (put_client id (record c { conn = r.1 }) s)
  unfolding answered
  answered_lem nil_pointer send_timeout id delay c s (ok u, conn) sent normal = rw normal refl
  answered_lem nil_pointer send_timeout id delay c s (err e, conn) sent normal = cc
  answered_lem nil_pointer send_timeout id delay c s (panic p, conn) sent normal = cc

  -- A round of keepConnection that receives a request, serves it without a panic and answers it with a
  -- code: the loop goes on, the answer stands on the wire, and a Receive that reads it there has it.
  pub round-answers :
      (nil_pointer : Outcome (List ℕ)) (send_timeout id delay : ℕ) (t : Turn) (h : RpcHeader)
      (m : Message) (bs : List ℕ) (rest : List Arrival) (c c2 : PortalClient) (s : State)
      (out : Served) (code : AckCode) (chosen : RpcHeader → Outcome Kind)
      → Reads codec Service.get_msg h m bs
      → lookup id s.clients ≡ some c
      → c.conn.inbox ≡ map byte bs ++ rest
      → let read = record c.conn { inbox = rest; deadline = none } in
        Service.process_msg id t.now h m (put_client id (record c { conn = read }) s) ≡ done out
        → out.response ≡ some code
        → out.failure ≡ none
        → is_resp_method h.method ≡ false
        → ((new_response_header h).method == "") ≡ false
        → lookup id out.state.clients ≡ some c2
        → c2.is_websocket ≡ false
        → c2.conn.writes ≡ []
        → Carries codec (new_response_header h) (ack (record { code = code }))
        → chosen (new_response_header h) ≡ ok Kind.an_ack
        → (conn : Conn) × (bs' : List ℕ) × (round codec nil_pointer send_timeout id t delay s
            ≡ again delay (put_client id (record c2 { conn = conn }) out.state))
          × (conn.outbox ≡ c2.conn.outbox ++ bs')
          × Travels codec
              (some (t.now + send_timeout))
              chosen
              (new_response_header h)
              (ack (record { code = code }))
              c2.conn
              bs'
  unfolding round received after_msg send_answer answered
  round-answers nil_pointer send_timeout id delay t h m bs rest c c2 s out code chosen reads found
        arrived served response fine request named there normal w carries accepted =
      let timed : Option ℕ = some (t.now + send_timeout) in
      let (bs', (sent, wrote, read_back)) =
        carried codec law timed chosen (new_response_header h) (ack (record { code = code }))
          c2.conn carries named accepted w in
      let got = reads t.pool c.conn rest arrived in
      let conn =
        (send codec timed (new_response_header h) (some (ack (record { code = code })))
          c2.conn).1 in
      (
        conn,
        bs',
        rw (found, got, served, request, there, response, fine)
            (unfold new_response_header in
              answered_lem nil_pointer send_timeout id delay c2 out.state _ sent normal),
        wrote,
        (sent, wrote, read_back),
      )
