-- ===== src/Server/Connection/Ending.antt =====
-- portal_server/proxy_server.go: the loop of keepConnection ends.
use http_portal.Base.{
  ℕ, zero, suc, ◌<◌, ◌≡◌, refl, ap, inl, inr, Bool, true, false, Option, none, some, List, lookup,
  nat_eq, string_eq, if◌then◌else◌, length, arith, lookup-insert,
}
use http_portal.Core.Errors.{is_close, calc_delay}
use http_portal.Core.Messages.{RpcHeader, Message, AckCode, is_resp_method}
use http_portal.Core.Conn.{Conn, Outcome, ok, err, panic, Arrival}
use http_portal.Core.Wire.{Codec}
use http_portal.Core.Wire.Progress.{Advances, receive-Advances, send-inbox}
use http_portal.Server.Clients.{PortalClient, State, Step, done, panics, put_client}
use http_portal.Server.Service.{Served, get_msg, end_connection}
use http_portal.Server.Service.Inbox.{Holds, put_own-Holds, process_msg-Leaves}
use http_portal.Server.Connection.{
  reply, Turn, Round, again, leaves, crashes, on_receive_error, send_answer, answered,
  answer_client, after_msg, received, round_client, round, keep_connection,
}

-- After the round the client's connection has less to give than before.
abbrev Smaller : ℕ → ℕ → Round → Type 0
Smaller id n (again delay s) =
    (c : PortalClient) × (lookup id s.clients ≡ some c) × (length c.conn.inbox < n)
Smaller id n (leaves s) = Unit {0}
Smaller id n (crashes p) = Unit {0}

again-Smaller :
    (id n delay : ℕ) (inbox : List Arrival) (s : State)
    → Holds id inbox s
    → length inbox < n
    → Smaller id n (again delay s)
again-Smaller id n delay inbox s (c, found, same) less = (c, found, omega (arith, ap length same))

if-Smaller :
    (id n : ℕ) (b : Bool) (x y : Round)
    → Smaller id n x
    → Smaller id n y
    → Smaller id n (if b then x else y)
if-Smaller id n true x y h k = h
if-Smaller id n false x y h k = k

module _ (codec : Codec) (nil_pointer : Outcome (List ℕ)) (send_timeout : ℕ) (id : ℕ) (t : Turn)
    (delay n : ℕ) where
  reply-inbox :
      (d : Option ℕ) (h : RpcHeader) (login : Bool) (o : Option AckCode) (conn : Conn)
      → (reply codec nil_pointer send_timeout d h login o conn).1.inbox ≡ conn.inbox
  unfolding reply
  reply-inbox d h login (some code) conn = send-inbox codec d h _ conn
  reply-inbox d h true none conn =
      send-inbox (record codec { marshal = λ m. nil_pointer }) d h _ conn
  reply-inbox d h false none conn = send-inbox codec d h none conn

  send_answer-inbox :
      (h : RpcHeader) (out : Served) (conn : Conn)
      → (send_answer codec nil_pointer send_timeout t h out conn).1.inbox ≡ conn.inbox
  unfolding send_answer
  send_answer-inbox h out conn = reply-inbox _ _ _ out.response conn

  put_back-Smaller :
      (c : PortalClient) (s : State) (conn : Conn) (delay' : ℕ)
      → length conn.inbox < n
      → Smaller id n (again delay' (put_client id (record c { conn = conn }) s))
  put_back-Smaller c s conn delay' less =
      let back : PortalClient = record c { conn = conn } in
      again-Smaller id n delay' conn.inbox (put_client id back s)
        (put_own-Holds id conn.inbox s back refl) less

  answered-Smaller :
      (c : PortalClient) (s : State) (r : Outcome (Unit {0})) (conn : Conn)
      → length conn.inbox < n
      → Smaller id n (answered codec nil_pointer send_timeout id c delay s (r, conn))
  unfolding answered
  answered-Smaller c s (panic p) conn less = tt
  answered-Smaller c s (ok u) conn less =
      if-Smaller id n c.is_websocket _ _ tt (put_back-Smaller c s conn delay less)
  answered-Smaller c s (err e) conn less =
      if-Smaller id n c.is_websocket _ _ tt (put_back-Smaller c s conn delay less)

  after_msg-Smaller :
      (h : RpcHeader) (r : Step Served) (inbox : List Arrival)
      → ((out : Served) → r ≡ done out → Holds id inbox out.state)
      → length inbox < n
      → Smaller id n (after_msg codec nil_pointer send_timeout id t h delay r)
  unfolding after_msg answer_client
  after_msg-Smaller h (panics p) inbox keeps less = tt
  after_msg-Smaller h (done out) inbox keeps less =
      let (c, found, same) = keeps out refl in
      let left = send_answer-inbox h out c.conn in
      rw (found, answer_client)
        (if-Smaller id n (is_resp_method h.method) _ _
          (again-Smaller id n delay inbox out.state (c, found, same) less)
          (answered-Smaller c out.state _ _ (omega (arith, ap length left, ap length same))))

  received-Smaller :
      (c : PortalClient) (s : State) (r : Outcome (RpcHeader × Message)) (conn : Conn)
      → length c.conn.inbox ≡ n
      → Advances c.conn (r, conn)
      → Smaller id n (received codec nil_pointer send_timeout id t delay c s (r, conn))
  unfolding received on_receive_error
  received-Smaller c s (panic p) conn m adv = tt
  received-Smaller c s (err x) conn m (inr (y, same, closes)) =
      if-Smaller id n t.stopped _ _ tt (ground (arith))
  received-Smaller c s (err x) conn m (inl less) = if-Smaller id n t.stopped _ _ tt (
      if-Smaller id n (is_close x) _ _ tt
        (put_back-Smaller c s conn (calc_delay delay) (omega arith)))
  received-Smaller c s (ok (h, msg)) conn m (inr (y, same, closes)) = cc
  received-Smaller c s (ok (h, msg)) conn m (inl less) =
      after_msg-Smaller h _ conn.inbox
        (process_msg-Leaves id conn.inbox t.now h msg (record c { conn = conn })
          (put_client id (record c { conn = conn }) s)
          (ground (arith, lookup-insert id id (record c { conn = conn }) s.clients)) refl)
        (omega arith)

round-Smaller :
    (codec : Codec) (nil_pointer : Outcome (List ℕ)) (send_timeout id : ℕ) (t : Turn) (delay : ℕ)
    (c : PortalClient) (s : State)
    → lookup id s.clients ≡ some c
    → Smaller id (length c.conn.inbox) (round codec nil_pointer send_timeout id t delay s)
unfolding round round_client
round-Smaller codec nil_pointer send_timeout id t delay c s found =
    rw (found, round_client)
      (received-Smaller codec nil_pointer send_timeout id t delay (length c.conn.inbox) c s _ _ refl
        (receive-Advances codec none get_msg true t.pool c.conn))

-- keepConnection ends, for any client, any bytes and faults that its connection still has to give,
-- any codec, and any clock, pool and stop of the server: a round of its loop takes at least one byte
-- or fault off the connection, so that fuel above their number is enough.
pub keep_connection_ends :
    (codec : Codec) (nil_pointer : Outcome (List ℕ)) (send_timeout fuel : ℕ) (turns : ℕ → Turn)
    (id delay : ℕ) (c : PortalClient) (s : State)
    → lookup id s.clients ≡ some c
    → length c.conn.inbox < fuel
    → (r : Step State) × (keep_connection codec nil_pointer send_timeout fuel turns id delay s
        ≡ some r)
unfolding keep_connection
keep_connection_ends codec nil_pointer send_timeout zero turns id delay c s found less =
    absurd (omega arith)
keep_connection_ends codec nil_pointer send_timeout (suc fuel) turns id delay c s found less =
    by_round (round codec nil_pointer send_timeout id (turns fuel) delay s) refl
      (round-Smaller codec nil_pointer send_timeout id (turns fuel) delay c s found)
      (λ delay' c' s' here smaller.
        keep_connection_ends codec nil_pointer send_timeout fuel turns id delay' c' s' here smaller)
  where
    by_round :
        (r : Round)
        → round codec nil_pointer send_timeout id (turns fuel) delay s ≡ r
        → Smaller id (length c.conn.inbox) r
        → ((delay' : ℕ) (c' : PortalClient) (s' : State)
            → lookup id s'.clients ≡ some c'
            → length c'.conn.inbox < fuel
            → (q : Step State) × (keep_connection codec nil_pointer send_timeout fuel turns id
                  delay' s'
                ≡ some q))
        → (q : Step State) × (keep_connection codec nil_pointer send_timeout
              (suc fuel)
              turns
              id
              delay
              s
            ≡ some q)
    by_round (crashes p) e v ih = (panics p, rw (e, keep_connection) refl)
    by_round (leaves s') e v ih = (end_connection id s', rw (e, keep_connection) refl)
    by_round (again delay' s') e (c', here, smaller) ih =
        let (q, run) = ih delay' c' s' here (omega arith) in (q, rw (e, keep_connection) run)
