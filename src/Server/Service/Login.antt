-- ===== src/Server/Service/Login.antt =====
-- portal_server/proxy_server.go: what Login, Heartbeat and SendHttpResponse do to a sound server.
use http_portal.Base.{
  ℕ, ◌≡◌, refl, inl, inr, String, Bool, true, false, not, Option, none, some, lookup, insert,
  nat_eq, string_eq, if◌then◌else◌, eqb, arith, lookup-insert, Option-cases,
}
use http_portal.Core.Errors.{Error}
use http_portal.Core.Messages.{LoginRequest, RpcHeader, HttpResponse}
use http_portal.Core.Receiver.{send_response}
use http_portal.Server.Clients.{
  handshake, rpc_message, PortalClient, State, Step, done, put_client, get, beat,
}
use http_portal.Server.Clients.Invariant.{
  IsSound, unregistered, put_client-IsSound, put_client-keeps, add-IsSound,
}
use http_portal.Server.Service.{
  Served, login, login_client, login_websocket, login_normal, offer_handshake, offered, added,
  to_origin, serve_heartbeat, heartbeat_client, send_http_response, respond_client,
}

-- The call ends, and its state is sound.
abbrev pub Serves : Step Served → Type 0
Serves r = (out : Served) × (r ≡ done out) × IsSound out.state

branch-Serves : (b : Bool) {x y : Step Served} → Serves x → Serves y → Serves (if b then x else y)
branch-Serves true p q = p
branch-Serves false p q = q

offered-Serves : (e : Option Error) (s : State) → IsSound s → Serves (offered e s)
unfolding offered
offered-Serves none s v = (_, refl, v)
offered-Serves (some x) s v = (_, refl, v)

added-Serves : (e : Option Error) (s : State) → IsSound s → Serves (added e s)
unfolding added
added-Serves none s v = (_, refl, v)
added-Serves (some x) s v = (_, refl, v)

to_origin-Serves :
    (id seq : ℕ) (name : String) (s : State) → IsSound s → Serves (to_origin id seq (get name s) s)
unfolding to_origin offer_handshake get
to_origin-Serves id seq name s v = elim (Option-cases (lookup name s.registered)) [
  | inl missing ↦ rw missing (_, refl, v)
  | inr (origin, here) ↦
      let (o, found, named, logged, open_) = v.entries name origin here in
      let r = send_response seq (handshake id seq) o.receiver in
      rw (here, found)
        (offered-Serves r.0 _
          (put_client-keeps s origin o (record o { receiver = r.1 }) v found refl refl refl))
]

-- Login of a client that is open and not logged in, under any name and for a normal or a websocket
-- connection, never panics and keeps the server sound.
pub login-Serves :
    (id : ℕ) (req : LoginRequest) (c : PortalClient) (s : State)
    → IsSound s
    → lookup id s.clients ≡ some c
    → c.is_login ≡ false
    → c.quit_closed ≡ false
    → Serves (login id req s)
unfolding login login_client login_websocket login_normal
login-Serves id req c s v found out fresh =
    let named : PortalClient = record c { name = req.name } in
    let ws : PortalClient = record named {
      is_login = true;
      is_websocket = true;
      websocket_id = req.resp_seq;
    } in
    let free = λ (name : String). unregistered s id c name v found out in
    let v1 = put_client-IsSound s id named v free in
    let v2 = put_client-IsSound (put_client id named s) id ws v1 free in
    let at : lookup id (insert id named s.clients) ≡ some named =
      ground (arith, lookup-insert id id named s.clients) in
    rw found (
      branch-Serves (not (eqb req.resp_seq 0)) (to_origin-Serves id req.resp_seq req.name _ v2)
        (added-Serves _ _ (add-IsSound (put_client id named s) id named v1 at out fresh)))

pub serve_heartbeat-Serves :
    (id now : ℕ) (c : PortalClient) (s : State)
    → IsSound s
    → lookup id s.clients ≡ some c
    → Serves (serve_heartbeat id now s)
unfolding serve_heartbeat heartbeat_client
serve_heartbeat-Serves id now c s v found = rw found (
    branch-Serves (not c.is_login) (_, refl, v)
      (
        _,
        refl,
        put_client-keeps s id c (beat now c) v found (unfold beat in refl) (unfold beat in refl)
            (unfold beat in refl),
      ))

pub send_http_response-Serves :
    (id : ℕ) (header : RpcHeader) (resp : HttpResponse) (c : PortalClient) (s : State)
    → IsSound s
    → lookup id s.clients ≡ some c
    → Serves (send_http_response id header resp s)
unfolding send_http_response respond_client
send_http_response-Serves id header resp c s v found =
    let r = send_response header.seq (rpc_message header resp) c.receiver in
    rw found (
      branch-Serves (not c.is_login) (_, refl, v)
        (_, refl, put_client-keeps s id c (record c { receiver = r.1 }) v found refl refl refl))
