-- ===== src/Portal/Service.antt =====
-- portal/portal.go: getMsg and processMsg, what the agent does with a message of the server.
use Prim.Native.String.{◌++◌}
use http_portal.Base.{
  String, not, Option, string_eq, ◌==◌, if◌then◌else◌, ◌≡◌, refl, Bool-cases, inl, inr, ◌⊎◌, arith,
}
use http_portal.Core.Errors.{Error, opaque}
use http_portal.Core.Messages.{
  RpcHeader, Message, Kind, HttpRequest, http_request, http_response, login_request, heartbeat, ack,
  a_request, an_ack, kind_of, method_http_do, resp_method_login, resp_method_heartbeat,
}
use http_portal.Core.Conn.{Outcome, ok, err}
use http_portal.Core.Receiver.{Receiver, send_response}

-- loginGetMsg
unfoldable pub login_get_msg : RpcHeader → Outcome Kind
login_get_msg header =
    if not (header.error == "")
    then err (opaque ("login failed, " ++ header.error))
    else if not (header.method == resp_method_login)
    then err (opaque "login resp method incorrect")
    else ok an_ack

-- getMsg
unfoldable pub get_msg : RpcHeader → Outcome Kind
unfolding login_get_msg
get_msg header =
    if header.method == method_http_do
    then ok a_request
    else if header.method == resp_method_login
    then login_get_msg header
    else if header.method == resp_method_heartbeat
    then ok an_ack
    else err (opaque "method not support")

-- What processMsg does: it starts a goroutine for a request, or hands a response over; or its type
-- assertion panics. A response travels with its header.
pub data Processed : Type 0 where
  starts : RpcHeader → HttpRequest → Processed
  handed_over : Option Error → Receiver (RpcHeader × Message) → Processed
  unsupported : Error → Processed
  panics : String → Processed

as_request : RpcHeader → Message → Processed
as_request header (http_request req) = starts header req
as_request header _ = panics "interface conversion"

give : Option Error × Receiver (RpcHeader × Message) → Processed
give (e, r) = handed_over e r

-- processMsg
unfoldable pub process_msg : RpcHeader → Message → Receiver (RpcHeader × Message) → Processed
unfolding as_request give
process_msg header msg r =
    if header.method == method_http_do
    then as_request header msg
    else if header.method == resp_method_login
    then give (send_response header.seq (header, msg) r)
    else if header.method == resp_method_heartbeat
    then give (send_response header.seq (header, msg) r)
    else unsupported (opaque "method not support")

as_request-kind :
    (h : RpcHeader) (m : Message)
    → kind_of m ≡ a_request
    → (q : HttpRequest) × (as_request h m ≡ starts h q)
unfolding as_request
as_request-kind h (http_request q) e = (q, refl)
as_request-kind h (http_response q) e = cc
as_request-kind h (login_request q) e = cc
as_request-kind h (heartbeat q) e = cc
as_request-kind h (ack q) e = cc

-- A message of the type that getMsg made for its header is never refused by processMsg, and makes no
-- type assertion panic: it starts a request's goroutine, or is offered to the reader of its number.
pub process_msg-get_msg :
    (h : RpcHeader) (k : Kind) (m : Message) (r : Receiver (RpcHeader × Message))
    → get_msg h ≡ ok k
    → kind_of m ≡ k
    → ((q : HttpRequest) × (process_msg h m r ≡ starts h q))
      ⊎ (process_msg h m r
          ≡ handed_over (send_response h.seq (h, m) r).0 (send_response h.seq (h, m) r).1)
unfolding get_msg process_msg give
process_msg-get_msg h k m r g same = elim (Bool-cases (h.method == method_http_do)) [
  | inl http ↦ let (q, run) = as_request-kind h m (ground arith) in inl (q, rw http run)
  | inr other ↦ inr (ground arith)
]
