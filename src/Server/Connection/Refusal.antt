-- ===== src/Server/Connection/Refusal.antt =====
-- portal_server/proxy_server.go: keepConnection and a login that is refused.
use http_portal.Base.{
  ℕ, ◌+◌, ◌≡◌, ◌≢◌, refl, String, true, false, none, some, lookup, nat_eq, string_eq, arith,
  lookup-insert,
}
use http_portal.Core.Errors.{Error}
use http_portal.Core.Messages.{RpcHeader, LoginRequest, login_request, is_resp_method, method_login}
use http_portal.Core.Conn.{Conn, Outcome, ok, err, panic}
use http_portal.Core.Wire.{Codec, receive}
use http_portal.Core.Wire.Progress.{Unsent, send-Unsent}
use http_portal.Server.Clients.{PortalClient, State, put_client}
use http_portal.Server.Service.{get_msg}
use http_portal.Server.Service.Refused.{process_msg-taken}
use http_portal.Server.Connection.{
  reply, Turn, Round, again, send_answer, answered, answer_client, after_msg, received,
  round_client, round,
}

module _ (codec : Codec) (nothing : Error) (send_timeout : ℕ) where
  -- The round goes on, and the connection has been sent nothing.
  abbrev pub Unanswered : ℕ → ℕ → PortalClient → State → Round → Type 0
  Unanswered id delay c s r =
      (s' : State) × (c' : PortalClient) × (r ≡ again delay s')
      × (lookup id s'.clients ≡ some c')
      × (c'.conn.outbox ≡ c.conn.outbox)
      × (c'.is_login ≡ c.is_login)
      × (s'.registered ≡ s.registered)

  answered-Unanswered :
      (id delay : ℕ) (c : PortalClient) (s : State) (r : Outcome (Unit {0}) × Conn)
      → c.is_websocket ≡ false
      → Unsent c.conn r
      → Unanswered id delay c s (answered codec (err nothing) send_timeout id c delay s r)
  unfolding answered
  answered-Unanswered id delay c s (ok u, conn) normal ((x, failed), unsent) = cc
  answered-Unanswered id delay c s (panic p, conn) normal ((x, failed), unsent) = cc
  answered-Unanswered id delay c s (err e, conn) normal ((x, failed), unsent) =
      let c' : PortalClient = record c { conn = conn } in
      (
        put_client id c' s,
        c',
        rw (normal) refl,
        ground (arith, lookup-insert id id c' s.clients),
        unsent,
        refl,
        refl,
      )

  -- A login, of no websocket, under a name that is taken is refused, but its answer is a nil pointer,
  -- which does not marshal: once Receive has read the login, and where marshalling a header never
  -- panics, the round ends with nothing written to the connection, and the loop goes on; the client
  -- is logged in or not as before, and the names are the same.
  pub refused_login-Unanswered :
      (id other delay : ℕ) (t : Turn) (h : RpcHeader) (req : LoginRequest) (c : PortalClient)
      (conn : Conn) (s : State)
      → ((header : RpcHeader) (p : String) → codec.marshal_header header ≢ panic p)
      → lookup id s.clients ≡ some c
      → receive codec none get_msg true t.pool c.conn ≡ (ok (h, login_request req), conn)
      → h.method ≡ method_login
      → req.resp_seq ≡ 0
      → lookup req.name s.registered ≡ some other
      → c.is_websocket ≡ false
      → Unanswered id delay
          (record c { conn = conn })
          s
          (round codec (err nothing) send_timeout id t delay s)
  unfolding is_resp_method round round_client received after_msg answer_client send_answer reply
  refused_login-Unanswered id other delay t h req c conn s calm found read is_login plain taken
        normal =
      let c1 : PortalClient = record c { conn = conn } in
      let s1 : State = put_client id c1 s in
      let c2 : PortalClient = record c1 { name = req.name } in
      let here : lookup id s1.clients ≡ some c1 =
        ground (arith, lookup-insert id id c1 s.clients) in
      let there : lookup id (put_client id c2 s1).clients ≡ some c2 =
        ground (arith, lookup-insert id id c2 s1.clients) in
      rw
        (
          found,
          read,
          process_msg-taken id other t.now h req c1 s1 here taken plain is_login,
          is_login,
          there,
        )
        (answered-Unanswered id delay c2 (put_client id c2 s1) _ normal
          (send-Unsent codec nothing (some (t.now + send_timeout)) _ _ conn (calm _)))
