-- ===== src/Server/Relay/Cleanup.antt =====
-- portal_server/proxy_server.go: what DoRequest changes on the server.
use http_portal.Base.{
  ℕ, ◌+◌, ◌%◌, ◌^◌, ◌≡◌, refl, sym, subst, ◌⊎◌, inl, inr, String, true, false, Option, none, some,
  List, arith, lookup, insert, lookup-insert, lookup-delete, nat_eq, string_eq, text_eq, eqb,
  if◌then◌else◌, ◌≢◌,
}
use http_portal.Core.Errors.{opaque}
use http_portal.Core.Messages.{HttpRequest, RpcHeader, http_request, method_http_do}
use http_portal.Core.Conn.{Conn, Outcome, ok, err, panic}
use http_portal.Core.Wire.{Codec, send}
use http_portal.Core.Receiver.{Receiver, idle, prepare_request, delete_seq}
use http_portal.Server.Clients.{Reply, PortalClient, done, get, put_client, beat}
use http_portal.Server.Relay.{
  HttpWriter, Forwarded, forward, ProxyServer, Answer, beaten, do_request, ask_name, ask_client,
  after_send,
}

beaten_same :
    (now n : ℕ) (c : PortalClient)
    → ((beaten now n c).receiver ≡ c.receiver)
      × ((beaten now n c).name ≡ c.name)
      × ((beaten now n c).is_login ≡ c.is_login)
unfolding beaten beat
beaten_same now n c = ground arith

module _ (codec : Codec) (t : ℕ → HttpWriter → Forwarded) (now : ℕ) (timeout : Option ℕ) where
  -- A host that is not configured, or whose agent is not connected, is answered by 404, and neither
  -- the server nor what the browser has got is touched.
  do_request_unknown :
      (req : HttpRequest) (replies : List Reply) (w : HttpWriter) (s : ProxyServer)
      → (lookup req.host s.hosts ≡ none)
        ⊎ ((name : String) × (lookup req.host s.hosts ≡ some name) × (get name s.clients ≡ none))
      → (a : Answer) × (do_request codec t now timeout req replies w s ≡ done a)
        × (a.code ≡ 404)
        × (a.error ≢ none)
        × (a.writer ≡ w)
        × (a.server ≡ s)
  unfolding do_request
  do_request_unknown req replies w s (inl e) = (
    record { code = 404; error = some (opaque "not found"); writer = w; server = s },
    ground arith,
    refl,
    λ q. cc,
    refl,
    refl,
  )
  do_request_unknown req replies w s (inr (name, e, g)) = (
    record { code = 404; error = some (opaque "client not found"); writer = w; server = s },
    ground arith,
    refl,
    λ q. cc,
    refl,
    refl,
  )

  -- The channels of a client where one number is taken out.
  abbrev Without : ℕ → Receiver Reply → Receiver Reply → Type 0
  Without seq old new =
      (j : ℕ) → lookup j new.requests ≡ (if eqb seq j then none else lookup j old.requests)

  pub record OnlyClient (id : ℕ) (c : PortalClient) (s s' : ProxyServer) : Type 0 where
    pub client : PortalClient
    pub found : lookup id s'.clients.clients ≡ some client
    pub cleaned : Without ((c.receiver.seq + 1) % 2 ^ 32) c.receiver client.receiver
    pub same_name : client.name ≡ c.name
    pub same_login : client.is_login ≡ c.is_login
    pub same_hosts : s'.hosts ≡ s.hosts
    pub same_registered : s'.clients.registered ≡ s.clients.registered
    pub others :
        (j : ℕ) → eqb id j ≡ false → lookup j s'.clients.clients ≡ lookup j s.clients.clients

  without :
      (c : PortalClient)
      → Without
          ((c.receiver.seq + 1) % 2 ^ 32)
          c.receiver
          (delete_seq ((c.receiver.seq + 1) % 2 ^ 32) (prepare_request c.receiver).1)
  unfolding delete_seq prepare_request
  without c j =
      let seq = (c.receiver.seq + 1) % 2 ^ 32 in
      ground (
        arith,
        lookup-delete seq j (insert seq idle c.receiver.requests),
        lookup-insert seq j idle c.receiver.requests,
      )

  stored :
      (id : ℕ) (c c' : PortalClient) (s : ProxyServer)
      → Without ((c.receiver.seq + 1) % 2 ^ 32) c.receiver c'.receiver
      → c'.name ≡ c.name
      → c'.is_login ≡ c.is_login
      → OnlyClient id c s (record s { clients = put_client id c' s.clients })
  stored id c c' s without n l = record {
    client = c';
    found = ground (arith, lookup-insert id id c' s.clients.clients);
    cleaned = without;
    same_name = n;
    same_login = l;
    same_hosts = refl;
    same_registered = refl;
    others = λ j e. ground (arith, lookup-insert id j c' s.clients.clients);
  }

  sent_then :
      (id : ℕ) (c : PortalClient) (r : Outcome (Unit {0})) (conn : Conn) (replies : List Reply)
      (w : HttpWriter) (s : ProxyServer)
      → ((p : String) → r ≢ panic p)
      → let (seq, receiver) = prepare_request c.receiver in
        (a : Answer) × (after_send codec t now timeout id seq
            (record c { receiver = receiver })
            (r, conn)
            replies
            w
            s
          ≡ done a)
        × OnlyClient id c s a.server
  unfolding after_send prepare_request
  sent_then id c (ok u) conn replies w s calm =
      let r = delete_seq ((c.receiver.seq + 1) % 2 ^ 32) (prepare_request c.receiver).1 in
      let c1 : PortalClient = record c { conn = conn; receiver = r } in
      let b = beaten_same now (forward t true replies w).beats c1 in
      (
        _,
        refl,
        stored id c (beaten now (forward t true replies w).beats c1) s
            (subst (Without ((c.receiver.seq + 1) % 2 ^ 32) c.receiver) (sym b.0) (without c)) b.1
            b.2,
      )
  sent_then id c (err e) conn replies w s calm = (_, refl, stored id c _ s (without c) refl refl)
  sent_then id c (panic p) conn replies w s calm = absurd (calm p refl)

  -- DoRequest for a connected agent, where no header makes the call of Send panic: whether the send fails,
  -- the response ends, is an error, is cut short or turns into a websocket, the request's number is
  -- taken out of the agent's channels and every other channel is as before; no other client and
  -- neither map of the server changes.
  pub do_request_cleans_up :
      (req : HttpRequest) (replies : List Reply) (w : HttpWriter) (s : ProxyServer) (name : String)
      (id : ℕ) (c : PortalClient)
      → lookup req.host s.hosts ≡ some name
      → get name s.clients ≡ some id
      → lookup id s.clients.clients ≡ some c
      → ((h : RpcHeader) (p : String)
          → (send codec timeout h (some (http_request req)) c.conn).0 ≢ panic p)
      → (a : Answer) × (do_request codec t now timeout req replies w s ≡ done a)
        × OnlyClient id c s a.server
  unfolding do_request ask_name ask_client
  do_request_cleans_up req replies w s name id c host reg found calm =
      let (seq, receiver) = prepare_request c.receiver in
      let header : RpcHeader = record { method = method_http_do; error = ""; seq = seq } in
      let sent = send codec timeout header (some (http_request req)) c.conn in
      let (a, run, only) = sent_then id c sent.0 sent.1 replies w s (calm header) in
      (a, rw (host, ask_name, reg, ask_name, found) run, only)
