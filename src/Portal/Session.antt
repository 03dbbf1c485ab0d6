-- ===== src/Portal/Session.antt =====
-- portal/portal.go: login, heartbeat and heartbeatLoop with what Portal.Agent leaves out of them: the
-- messages that they send on the connection, the numbers of the receiver, and the select in which
-- they wait. receive, the goroutine that reads the connection, is seen by what it hands to
-- SendResponse; connect starts it. The clock is read once in a round of the loop.
pub mod Beats
pub mod Waiting
pub mod Refines
pub mod Sent
use http_portal.Base.{
  ℕ, ◌+◌, ◌-◌, ◌*◌, ◌/◌, ◌<◌, String, Bool, true, false, not, Option, none, some, List, [], ◌∷◌,
  lookup, nat_eq, string_eq, ◌==◌, if◌then◌else◌, ltb, leb,
}
use http_portal.Core.Errors.{Error, opaque, with_message, is_temporary, second}
use http_portal.Core.Messages.{
  RpcHeader, Message, AckCode, success, not_login, error, login_request, heartbeat, http_request,
  http_response, ack, method_login, method_heartbeat,
}
use http_portal.Core.Conn.{Conn, Outcome, ok, err, panic}
use http_portal.Core.Wire.{Codec, send}
use http_portal.Core.Receiver.{
  Receiver, Channel, idle, waiting, handed, prepare_request, send_response, delete_seq, await,
  resume,
}
use http_portal.Portal.Agent.{
  Status, hb_not_connect, hb_not_login, hb_ok, hb_error, LocalPortal, heartbeat_interval, connect,
}

-- core.RpcMessage
abbrev pub RpcMessage : Type 0
RpcMessage = RpcHeader × Message

-- LocalPortal with its connection and its receiver.
pub record Session : Type 0 where
  pub portal : LocalPortal
  pub conn : Conn
  pub receiver : Receiver RpcMessage

-- What a request to the server meets: the clock, the responses that receive hands over before the
-- goroutine stands in its select and while it does, and ctx.Err() of the context that ends the wait.
pub record Call : Type 0 where
  pub now : ℕ
  pub early : List RpcMessage
  pub answers : List RpcMessage
  pub ended : Error

-- SendResponse of each of these; its errors are only logged.
unfoldable pub deliver : List RpcMessage → Receiver RpcMessage → Receiver RpcMessage
deliver [] r = r
deliver ((h, m) ∷ more) r = deliver more (send_response h.seq (h, m) r).1

-- What the select finds: a response, or none before the context is done.
unfoldable pub taken :
    ℕ → Option (Channel RpcMessage) → Receiver RpcMessage → Option RpcMessage × Receiver RpcMessage
taken seq (some (handed m)) r = (some m, resume seq r)
taken seq _ r = (none, r)

-- select { case <-ctx.Done(): … case respMsg := <-respCh: … }
unfoldable pub wait_for : ℕ → Call → Receiver RpcMessage → Option RpcMessage × Receiver RpcMessage
unfolding deliver taken
wait_for seq w r =
    let r' = deliver w.answers (await seq (deliver w.early r)) in
    taken seq (lookup seq r'.requests) r'

login_ack : AckCode → LocalPortal → Outcome (Unit {0}) × LocalPortal
login_ack success p = (ok tt, record p { status = hb_ok })
login_ack _ p = (err (opaque "login failed"), p)

-- respPkg.Msg.(*core.AckResponse): another type panics.
login_msg : Message → LocalPortal → Outcome (Unit {0}) × LocalPortal
unfolding login_ack
login_msg (ack a) p = login_ack a.code p
login_msg _ p = (panic "interface conversion", p)

-- login behind its select.
unfoldable pub login_select :
    Call → Option RpcMessage → LocalPortal → Outcome (Unit {0}) × LocalPortal
unfolding login_msg
login_select w none p = (err (with_message w.ended "login end"), p)
login_select w (some (h, m)) p =
    if not (h.error == "")
    then (err (with_message (opaque h.error) "login error"), p)
    else login_msg m p

beat_ack : AckCode → Status
beat_ack not_login = hb_not_login
beat_ack _ = hb_ok

-- heartbeat behind its select.
unfoldable pub beat_select : Option RpcMessage → Outcome Status
unfolding beat_ack
beat_select none = ok hb_error
beat_select (some (h, ack a)) = ok (beat_ack a.code)
beat_select (some (h, _)) = panic "interface conversion"

unfoldable pub beat_failed : Bool → Error → Status
beat_failed stopped e =
    if stopped then hb_not_connect else if not (is_temporary e) then hb_not_connect else hb_error

abbrev pub login_message : String → Message
login_message name = login_request (record { name = name; resp_seq = 0 })

abbrev pub beat_message : ℕ → Message
beat_message now = heartbeat (record { timestamp = now / second })

abbrev pub request_header : String → ℕ → RpcHeader
request_header method seq = record { method = method; error = ""; seq = seq }

-- defer p.receiver.DeleteSeq(seq)
unfoldable pub finished : {A : Type 0} → ℕ → Outcome A × Session → Outcome A × Session
finished seq (e, s) = (e, record s { receiver = delete_seq seq s.receiver })

module _ (codec : Codec) (server_write : ℕ) (name : String) where
  -- sendWithContext, whose context has this deadline.
  unfoldable pub send_with_context : ℕ → RpcHeader → Message → Conn → Outcome (Unit {0}) × Conn
  send_with_context now header msg c = send codec (some (now + server_write)) header (some msg) c

  -- The rest of login behind the send of its request.
  login_sent : ℕ → Call → Session → Outcome (Unit {0}) → Outcome (Unit {0}) × Session
  unfolding login_select
  login_sent seq w s (err e) = (err (with_message e "send error"), s)
  login_sent seq w s (panic p) = (panic p, s)
  login_sent seq w s (ok u) =
      let (m, r) = wait_for seq w s.receiver in
      let (e, p) = login_select w m s.portal in (e, record s { portal = p; receiver = r })

  -- login
  unfoldable pub login : Call → Session → Outcome (Unit {0}) × Session
  unfolding send_with_context login_sent finished
  login w s =
      let (seq, r) = prepare_request s.receiver in
      let (sent, c) =
        send_with_context w.now (request_header method_login seq) (login_message name) s.conn in
      finished seq (login_sent seq w (record s { conn = c; receiver = r }) sent)

  -- The rest of heartbeat behind the send of its request.
  beat_sent : Bool → ℕ → Call → Session → Outcome (Unit {0}) → Outcome Status × Session
  unfolding beat_select beat_failed
  beat_sent stopped seq w s (err e) = (ok (beat_failed stopped e), s)
  beat_sent stopped seq w s (panic p) = (panic p, s)
  beat_sent stopped seq w s (ok u) =
      let (m, r) = wait_for seq w s.receiver in (beat_select m, record s { receiver = r })

  -- heartbeat behind recoverHeartbeat.
  unfoldable pub request_beat : Bool → Call → Session → Outcome Status × Session
  unfolding send_with_context beat_sent finished
  request_beat stopped w s =
      let (seq, r) = prepare_request s.receiver in
      let (sent, c) =
        send_with_context w.now (request_header method_heartbeat seq) (beat_message w.now) s.conn in
      finished seq (beat_sent stopped seq w (record s { conn = c; receiver = r }) sent)
