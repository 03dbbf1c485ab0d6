-- ===== src/Server/Connection.antt =====
-- portal_server/proxy_server.go: keepConnection, the goroutine of one connection. Other goroutines do
-- nothing to the server meanwhile, and the goroutine that sends an answer runs to its end before the
-- next Receive. The client of the connection is the object `id` of the heap.
pub mod Ending
pub mod Refusal
pub mod Responses
use http_portal.Base.{
  ℕ, zero, suc, ◌+◌, String, Bool, true, false, not, Option, none, some, List, [], ◌∷◌, lookup,
  nat_eq, string_eq, ◌==◌, if◌then◌else◌,
}
use http_portal.Core.Errors.{Error, is_close, error_text, calc_delay}
use http_portal.Core.Messages.{
  RpcHeader, Message, AckCode, AckResponse, success, ack, method_login, is_resp_method,
  new_response_header,
}
use http_portal.Core.Conn.{Conn, Outcome, ok, err, panic}
use http_portal.Core.Wire.{Codec, send, receive}
use http_portal.Server.Clients.{PortalClient, State, Step, done, panics, put_client}
use http_portal.Server.Service.{Served, get_msg, process_msg, end_connection}

-- What a round of the loop meets: the clock, the buffer of the pool, and isStop(ctx).
pub record Turn : Type 0 where
  pub now : ℕ
  pub pool : List ℕ
  pub stopped : Bool

-- How a round ends: the loop goes on, with a new tempDelay, or is left, or the process panics.
pub data Round : Type 0 where
  again : ℕ → State → Round
  leaves : State → Round
  crashes : String → Round

error_of : Option Error → String
error_of none = ""
error_of (some e) = error_text e

-- The error that the loop meets in Receive.
unfoldable pub on_receive_error : Bool → Error → ℕ → State → Round
on_receive_error stopped e delay s =
    if stopped then leaves s else if is_close e then leaves s else again (calc_delay delay) s

-- `nil_pointer` is what Marshal returns of a nil *core.AckResponse: the error ErrNil. Login returns
-- one with its error; in processMsg it becomes a proto.Message that is not nil.
module _ (codec : Codec) (nil_pointer : Outcome (List ℕ)) (send_timeout : ℕ) where
  -- Send of a response, or of the nil that is one, which is a nil pointer behind a login.
  reply : Option ℕ → RpcHeader → Bool → Option AckCode → Conn → Outcome (Unit {0}) × Conn
  reply deadline header login (some code) =
      send codec deadline header (some (ack (record { code = code })))
  reply deadline header true none =
      send (record codec { marshal = λ m. nil_pointer }) deadline header
        (some (ack (record { code = success })))
  reply deadline header false none = send codec deadline header none

  -- client.Send of the answer.
  unfoldable pub send_answer : Turn → RpcHeader → Served → Conn → Outcome (Unit {0}) × Conn
  unfolding error_of reply
  send_answer t h out =
      reply (some (t.now + send_timeout))
        (record (new_response_header h) { error = error_of out.failure }) (h.method == method_login)
        out.response

  -- An error of Send is only logged.
  unfoldable pub answered : ℕ → PortalClient → ℕ → State → Outcome (Unit {0}) × Conn → Round
  answered id c delay s (panic p, conn) = crashes p
  answered id c delay s (_, conn) =
      let s' = put_client id (record c { conn = conn }) s in
      if c.is_websocket then leaves s' else again delay s'

  answer_client : ℕ → Turn → RpcHeader → ℕ → Served → Option PortalClient → Round
  unfolding answered
  answer_client id t h delay out none = crashes "nil pointer"
  answer_client id t h delay out (some c) =
      answered id c delay out.state (send_answer t h out c.conn)

  -- The loop's body behind processMsg.
  unfoldable pub after_msg : ℕ → Turn → RpcHeader → ℕ → Step Served → Round
  unfolding answer_client
  after_msg id t h delay (panics p) = crashes p
  after_msg id t h delay (done out) =
      if is_resp_method h.method
      then again delay out.state
      else answer_client id t h delay out (lookup id out.state.clients)

  -- The loop's body behind Receive.
  unfoldable pub received :
      ℕ → Turn → ℕ → PortalClient → State → Outcome (RpcHeader × Message) × Conn → Round
  unfolding on_receive_error after_msg
  received id t delay c s (err e, conn) =
      on_receive_error t.stopped e delay (put_client id (record c { conn = conn }) s)
  received id t delay c s (panic p, conn) = crashes p
  received id t delay c s (ok (h, m), conn) =
      after_msg id t h delay (process_msg id t.now h m (put_client id (record c { conn = conn }) s))

  round_client : ℕ → Turn → ℕ → Option PortalClient → State → Round
  unfolding received
  round_client id t delay none s = crashes "nil pointer"
  round_client id t delay (some c) s =
      received id t delay c s (receive codec none get_msg true t.pool c.conn)

  -- One round of the loop.
  unfoldable pub round : ℕ → Turn → ℕ → State → Round
  unfolding round_client
  round id t delay s = round_client id t delay (lookup id s.clients) s

  -- keepConnection on fuel: `none` means that the fuel ran out. `turns` says what each round meets.
  unfoldable pub keep_connection : ℕ → (ℕ → Turn) → ℕ → ℕ → State → Option (Step State)
  keep_connection zero turns id delay s = none
  keep_connection (suc fuel) turns id delay s = elim (round id (turns fuel) delay s) [
    | crashes p ↦ some (panics p)
    | leaves s' ↦ some (end_connection id s')
    | again delay' s' ↦ keep_connection fuel turns id delay' s'
  ]
