-- ===== src/Server/Service.antt =====
-- portal_server/proxy_server.go: portalService, which serves the messages of one connection. The
-- client of the connection is the object with the number `id` in the heap of Server.Clients.
pub mod Safety
pub mod Login
pub mod Relogin
pub mod Agreement
pub mod Inbox
pub mod Refused
pub mod Granted
use http_portal.Base.{
  ℕ, ◌<◌, String, Bool, true, false, not, Option, none, some, List, [], ◌∷◌, lookup, insert, nat_eq,
  string_eq, ◌==◌, if◌then◌else◌, eqb,
}
use http_portal.Core.Errors.{Error, opaque, error_text}
use http_portal.Core.Messages.{
  RpcHeader, Message, Kind, HttpResponse, LoginRequest, HeartbeatPkg, AckCode, success, not_login,
  error, http_request, http_response, login_request, heartbeat, ack, a_request, a_response, a_login,
  a_heartbeat, an_ack, method_login, method_heartbeat, resp_method_http_do, is_resp_method,
  new_response_header, kind_of,
}
use http_portal.Core.Conn.{Outcome, ok, err}
use http_portal.Core.Receiver.{send_response}
use http_portal.Server.Clients.{
  Reply, rpc_message, handshake, PortalClient, State, Step, done, panics, put_client, add, remove,
  get, close, beat,
}

-- A response, if any, an error, if any, and the server's state behind the call.
pub record Served : Type 0 where
  pub response : Option AckCode
  pub failure : Option Error
  pub state : State

-- GetMsg
unfoldable pub get_msg : RpcHeader → Outcome Kind
get_msg header =
    if header.method == method_login
    then ok a_login
    else if header.method == method_heartbeat
    then ok a_heartbeat
    else if header.method == resp_method_http_do
    then ok a_response
    else err (opaque "method not support")

-- The answer of a websocket login, once the handshake was offered.
offered : Option Error → State → Step Served
offered (some x) s = done (record { response = some error; failure = some x; state = s })
offered none s = done (record { response = some success; failure = none; state = s })

-- originClient.SendResponse(req.RespSeq, …): the origin may be the client itself.
offer_handshake : ℕ → ℕ → ℕ → Option PortalClient → State → Step Served
unfolding offered
offer_handshake id seq origin none s = panics "nil pointer"
offer_handshake id seq origin (some o) s =
    let (e, r) = send_response seq (handshake id seq) o.receiver in
    offered e (put_client origin (record o { receiver = r }) s)

to_origin : ℕ → ℕ → Option ℕ → State → Step Served
unfolding offer_handshake
to_origin id seq none s =
    done (record { response = some error; failure = some (opaque "client not found"); state = s })
to_origin id seq (some origin) s = offer_handshake id seq origin (lookup origin s.clients) s

login_websocket : ℕ → LoginRequest → PortalClient → State → Step Served
unfolding to_origin
login_websocket id req c s =
    let s' =
      put_client id (record c { is_login = true; is_websocket = true; websocket_id = req.resp_seq })
        s in
    to_origin id req.resp_seq (get req.name s') s'

added : Option Error → State → Step Served
added (some x) s = done (record { response = none; failure = some x; state = s })
added none s = done (record { response = some success; failure = none; state = s })

login_normal : ℕ → PortalClient → State → Step Served
unfolding added
login_normal id c s = let (e, s') = add id c s in added e s'

login_client : ℕ → LoginRequest → Option PortalClient → State → Step Served
unfolding login_websocket login_normal
login_client id req none s = panics "nil pointer"
login_client id req (some c) s =
    let named : PortalClient = record c { name = req.name } in
    if not (eqb req.resp_seq 0)
    then login_websocket id req named (put_client id named s)
    else login_normal id named (put_client id named s)

-- Login
unfoldable pub login : ℕ → LoginRequest → State → Step Served
unfolding login_client
login id req s = login_client id req (lookup id s.clients) s

heartbeat_client : ℕ → ℕ → Option PortalClient → State → Step Served
heartbeat_client id now none s = panics "nil pointer"
heartbeat_client id now (some c) s =
    if not c.is_login
    then done (record { response = some not_login; failure = none; state = s })
    else done
        (record { response = some success; failure = none; state = put_client id (beat now c) s })

-- Heartbeat
unfoldable pub serve_heartbeat : ℕ → ℕ → State → Step Served
unfolding heartbeat_client
serve_heartbeat id now s = heartbeat_client id now (lookup id s.clients) s

respond_client : ℕ → RpcHeader → HttpResponse → Option PortalClient → State → Step Served
respond_client id header resp none s = panics "nil pointer"
respond_client id header resp (some c) s =
    let (e, r) = send_response header.seq (rpc_message header resp) c.receiver in
    if not c.is_login
    then done (record { response = none; failure = some (opaque "client not login"); state = s })
    else done (record {
      response = none;
      failure = e;
      state = put_client id (record c { receiver = r }) s;
    })

-- SendHttpResponse
unfoldable pub send_http_response : ℕ → RpcHeader → HttpResponse → State → Step Served
unfolding respond_client
send_http_response id header resp s = respond_client id header resp (lookup id s.clients) s

-- message.(*core.LoginRequest) and so on: another type panics.
as_login : ℕ → Message → State → Step Served
as_login id (login_request req) s = login id req s
as_login id _ s = panics "interface conversion"

as_heartbeat : ℕ → ℕ → Message → State → Step Served
as_heartbeat id now (heartbeat pkg) s = serve_heartbeat id now s
as_heartbeat id now _ s = panics "interface conversion"

as_response : ℕ → RpcHeader → Message → State → Step Served
as_response id header (http_response resp) s = send_http_response id header resp s
as_response id header _ s = panics "interface conversion"

-- processMsg
unfoldable pub process_msg : ℕ → ℕ → RpcHeader → Message → State → Step Served
unfolding as_login as_heartbeat as_response
process_msg id now header message s =
    if header.method == method_login
    then as_login id message s
    else if header.method == method_heartbeat
    then as_heartbeat id now message s
    else if header.method == resp_method_http_do
    then as_response id header message s
    else done (record { response = none; failure = some (opaque "method not support"); state = s })

end_client : ℕ → Option PortalClient → State → Step State
end_client id none s = panics "nil pointer"
end_client id (some c) s =
    if not c.is_websocket
    then if c.is_login
      then remove c.name s
      else elim (close c) [ panics p ↦ panics p | done c' ↦ done (put_client id c' s) ]
    else done s

-- The deferred function of keepConnection.
unfoldable pub end_connection : ℕ → State → Step State
unfolding end_client
end_connection id s = end_client id (lookup id s.clients) s
