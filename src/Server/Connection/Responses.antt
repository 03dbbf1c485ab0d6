-- ===== src/Server/Connection/Responses.antt =====
-- portal_server/proxy_server.go: a round of keepConnection that receives a part of a response.
use http_portal.Base.{
  ℕ, ◌≡◌, refl, true, none, some, List, ◌++◌, map, lookup, lookup-insert, nat_eq, string_eq, arith,
}
use http_portal.Core.Messages.{
  RpcHeader, HttpResponse, http_response, is_resp_method, resp_method_http_do,
}
use http_portal.Core.Conn.{Outcome, byte, Arrival}
use http_portal.Core.Wire.{Codec}
use http_portal.Core.Wire.Stream.{Reads}
use http_portal.Core.Receiver.{send_response}
use http_portal.Server.Clients.{PortalClient, State, rpc_message, put_client}
use http_portal.Server.Service.{get_msg, process_msg, send_http_response}
use http_portal.Server.Connection.{Turn, again, after_msg, received, round_client, round}

-- What is left of a client whose response has been offered to the reader of its number.
abbrev pub offered : List Arrival → RpcHeader → HttpResponse → PortalClient → PortalClient
offered rest h resp c = record c {
  conn = record c.conn { inbox = rest; deadline = none };
  receiver = (send_response h.seq (rpc_message h resp) c.receiver).1;
}

-- The round offers a logged-in client's response to the reader of its number, whether or not he
-- takes it; the loop goes on, and no name is touched.
pub round-offered :
    (codec : Codec) (nil_pointer : Outcome (List ℕ)) (send_timeout id delay : ℕ) (t : Turn)
    (h : RpcHeader) (resp : HttpResponse) (bs : List ℕ) (rest : List Arrival) (c : PortalClient)
    (s : State)
    → Reads codec get_msg h (http_response resp) bs
    → lookup id s.clients ≡ some c
    → c.conn.inbox ≡ map byte bs ++ rest
    → h.method ≡ resp_method_http_do
    → c.is_login ≡ true
    → (s' : State) × (round codec nil_pointer send_timeout id t delay s ≡ again delay s')
      × (lookup id s'.clients ≡ some (offered rest h resp c))
      × (s'.registered ≡ s.registered)
unfolding round round_client received after_msg process_msg send_http_response is_resp_method
round-offered codec nil_pointer send_timeout id delay t h resp bs rest c s reads found arrived
      is_response known =
    let c1 : PortalClient = record c { conn = record c.conn { inbox = rest; deadline = none } } in
    let s1 = put_client id c1 s in
    let here : lookup id s1.clients ≡ some c1 = ground (arith, lookup-insert id id c1 s.clients) in
    (
      put_client id (offered rest h resp c) s1,
      rw (found, reads t.pool c.conn rest arrived, is_response, here, known) refl,
      ground (arith, lookup-insert id id (offered rest h resp c) s1.clients),
      refl,
    )
