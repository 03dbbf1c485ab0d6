-- ===== src/Server/Service/Inbox.antt =====
-- portal_server/proxy_server.go: processMsg reads nothing from the connection that it serves.
use http_portal.Base.{
  ℕ, ◌≡◌, refl, ◌∙◌, ap, inl, inr, Bool, true, false, not, Option, none, some, List, lookup, nat_eq,
  string_eq, ◌==◌, if◌then◌else◌, eqb, eqb_iff, arith, lookup-insert, Bool-cases, Option-cases,
}
use http_portal.Core.Errors.{Error}
use http_portal.Core.Messages.{
  LoginRequest, RpcHeader, HttpResponse, Message, http_request, http_response, login_request,
  heartbeat, ack, method_login, method_heartbeat, resp_method_http_do,
}
use http_portal.Core.Conn.{Arrival}
use http_portal.Core.Receiver.{send_response}
use http_portal.Server.Clients.{handshake, PortalClient, State, Step, done, put_client, beat, add}
use http_portal.Server.Service.{
  Served, login, login_client, login_websocket, login_normal, offer_handshake, offered, added,
  to_origin, serve_heartbeat, heartbeat_client, send_http_response, respond_client, process_msg,
  as_login, as_heartbeat, as_response,
}

module _ (id : ℕ) (inbox : List Arrival) where
  -- The client is there, and this is what its connection still has to give.
  abbrev pub Holds : State → Type 0
  Holds s = (c : PortalClient) × (lookup id s.clients ≡ some c) × (c.conn.inbox ≡ inbox)

  -- A call that ends leaves it so.
  abbrev pub Leaves : Step Served → Type 0
  Leaves r = (out : Served) → r ≡ done out → Holds out.state

  pub put_client-Holds :
      (s : State) (j : ℕ) (o o' : PortalClient)
      → lookup j s.clients ≡ some o
      → o'.conn.inbox ≡ o.conn.inbox
      → Holds s
      → Holds (put_client j o' s)
  put_client-Holds s j o o' found same (c, here, left) = elim (Bool-cases (eqb j id)) [
    | inl own ↦ (
      o',
      ground (arith, lookup-insert j id o' s.clients),
      same ∙ ap (λ (x : PortalClient). x.conn.inbox) (own_client own) ∙ left,
    )
    | inr other ↦ (c, ground (arith, lookup-insert j id o' s.clients), left)
  ]
    where
      own_client : eqb j id ≡ true → o ≡ c
      own_client own = ground (arith, eqb_iff j id)

  pub put_own-Holds :
      (s : State) (c : PortalClient) → c.conn.inbox ≡ inbox → Holds (put_client id c s)
  put_own-Holds s c same = (c, ground (arith, lookup-insert id id c s.clients), same)

  if-Leaves : (b : Bool) (x y : Step Served) → Leaves x → Leaves y → Leaves (if b then x else y)
  if-Leaves true x y h k = h
  if-Leaves false x y h k = k

  done-Leaves : (out : Served) → Holds out.state → Leaves (done out)
  done-Leaves out h out' e = ground (arith, h)

  offered-Leaves : (e : Option Error) (s : State) → Holds s → Leaves (offered e s)
  unfolding offered
  offered-Leaves none s h = done-Leaves _ h
  offered-Leaves (some x) s h = done-Leaves _ h

  added-Leaves : (e : Option Error) (s : State) → Holds s → Leaves (added e s)
  unfolding added
  added-Leaves none s h = done-Leaves _ h
  added-Leaves (some x) s h = done-Leaves _ h

  add-Holds : (s : State) (c : PortalClient) → c.conn.inbox ≡ inbox → Holds s → Holds (add id c s).1
  unfolding add
  add-Holds s c same h = elim (Option-cases (lookup c.name s.registered)) [
    | inl free ↦
        rw (free, add)
          (
            record c { is_login = true },
            ground (arith, lookup-insert id id (record c { is_login = true }) s.clients),
            same,
          )
    | inr (other, taken) ↦ rw (taken, add) h
  ]

  offer-Leaves :
      (seq origin : ℕ) (o : Option PortalClient) (s : State)
      → lookup origin s.clients ≡ o
      → Holds s
      → Leaves (offer_handshake id seq origin o s)
  unfolding offer_handshake
  offer-Leaves seq origin none s found h = λ out e. cc
  offer-Leaves seq origin (some o) s found h =
      let r = send_response seq (handshake id seq) o.receiver in
      offered-Leaves r.0 _ (put_client-Holds s origin o (record o { receiver = r.1 }) found refl h)

  to_origin-Leaves :
      (seq : ℕ) (origin : Option ℕ) (s : State) → Holds s → Leaves (to_origin id seq origin s)
  unfolding to_origin
  to_origin-Leaves seq none s h = done-Leaves _ h
  to_origin-Leaves seq (some origin) s h =
      offer-Leaves seq origin (lookup origin s.clients) s refl h

  login-Leaves :
      (req : LoginRequest) (c : PortalClient) (s : State)
      → lookup id s.clients ≡ some c
      → c.conn.inbox ≡ inbox
      → Leaves (login id req s)
  unfolding login login_client login_websocket login_normal
  login-Leaves req c s found same =
      let named : PortalClient = record c { name = req.name } in
      let known : PortalClient = record named {
        is_login = true;
        is_websocket = true;
        websocket_id = req.resp_seq;
      } in
      rw (found, login_client)
        (if-Leaves (not (eqb req.resp_seq 0)) _ _
          (to_origin-Leaves req.resp_seq _ _ (put_own-Holds (put_client id named s) known same))
          (added-Leaves _ _
            (add-Holds (put_client id named s) named same (put_own-Holds s named same))))

  beat-Leaves :
      (now : ℕ) (c : PortalClient) (s : State)
      → lookup id s.clients ≡ some c
      → c.conn.inbox ≡ inbox
      → Leaves (serve_heartbeat id now s)
  unfolding serve_heartbeat heartbeat_client beat
  beat-Leaves now c s found same =
      rw (found, heartbeat_client)
        (if-Leaves (not c.is_login) _ _ (done-Leaves _ (c, found, same))
          (done-Leaves _ (put_own-Holds s _ same)))

  respond-Leaves :
      (header : RpcHeader) (resp : HttpResponse) (c : PortalClient) (s : State)
      → lookup id s.clients ≡ some c
      → c.conn.inbox ≡ inbox
      → Leaves (send_http_response id header resp s)
  unfolding send_http_response respond_client
  respond-Leaves header resp c s found same =
      rw (found, respond_client)
        (if-Leaves (not c.is_login) _ _ (done-Leaves _ (c, found, same))
          (done-Leaves _ (put_own-Holds s _ same)))

  as_login-Leaves :
      (m : Message) (c : PortalClient) (s : State)
      → lookup id s.clients ≡ some c
      → c.conn.inbox ≡ inbox
      → Leaves (as_login id m s)
  unfolding as_login
  as_login-Leaves (http_request x) c s found same = λ out e. cc
  as_login-Leaves (http_response x) c s found same = λ out e. cc
  as_login-Leaves (login_request x) c s found same = login-Leaves x c s found same
  as_login-Leaves (heartbeat x) c s found same = λ out e. cc
  as_login-Leaves (ack x) c s found same = λ out e. cc

  as_heartbeat-Leaves :
      (now : ℕ) (m : Message) (c : PortalClient) (s : State)
      → lookup id s.clients ≡ some c
      → c.conn.inbox ≡ inbox
      → Leaves (as_heartbeat id now m s)
  unfolding as_heartbeat
  as_heartbeat-Leaves now (http_request x) c s found same = λ out e. cc
  as_heartbeat-Leaves now (http_response x) c s found same = λ out e. cc
  as_heartbeat-Leaves now (login_request x) c s found same = λ out e. cc
  as_heartbeat-Leaves now (heartbeat x) c s found same = beat-Leaves now c s found same
  as_heartbeat-Leaves now (ack x) c s found same = λ out e. cc

  as_response-Leaves :
      (header : RpcHeader) (m : Message) (c : PortalClient) (s : State)
      → lookup id s.clients ≡ some c
      → c.conn.inbox ≡ inbox
      → Leaves (as_response id header m s)
  unfolding as_response
  as_response-Leaves header (http_request x) c s found same = λ out e. cc
  as_response-Leaves header (http_response x) c s found same =
      respond-Leaves header x c s found same
  as_response-Leaves header (login_request x) c s found same = λ out e. cc
  as_response-Leaves header (heartbeat x) c s found same = λ out e. cc
  as_response-Leaves header (ack x) c s found same = λ out e. cc

  -- processMsg, if it does not panic, leaves the client there, and to its connection what it has
  -- still to give.
  pub process_msg-Leaves :
      (now : ℕ) (header : RpcHeader) (m : Message) (c : PortalClient) (s : State)
      → lookup id s.clients ≡ some c
      → c.conn.inbox ≡ inbox
      → Leaves (process_msg id now header m s)
  unfolding process_msg
  process_msg-Leaves now header m c s found same =
      if-Leaves (header.method == method_login) _ _ (as_login-Leaves m c s found same) (
        if-Leaves (header.method == method_heartbeat) _ _ (as_heartbeat-Leaves now m c s found same)
          (if-Leaves (header.method == resp_method_http_do) _ _
            (as_response-Leaves header m c s found same) (done-Leaves _ (c, found, same))))
