-- ===== src/Portal/Websocket/Login.antt =====
-- portal/websocket.go: login and Connect that fail.
use http_portal.Base.{ℕ, ◌+◌, ◌≡◌, refl, true, false, none, some, List, [], inr}
use http_portal.Core.Errors.{Error, with_message}
use http_portal.Core.Messages.{RpcHeader, LoginRequest, login_request, method_login}
use http_portal.Core.Conn.{Conn, ok, err}
use http_portal.Core.Wire.{Codec, send, receive}
use http_portal.Portal.Service.{login_get_msg}
use http_portal.Portal.Websocket.{login, connect, connected}

-- The header of the login of a websocket.
abbrev pub login_header : RpcHeader
login_header = record { method = method_login; error = ""; seq = 0 }

-- A login that was sent and whose answer Receive does not get ends Connect with the error of Receive,
-- wrapped, and with a proxy whose connection Receive has left.
pub connect-unanswered :
    (codec : Codec) (now server_write : ℕ) (pool : List ℕ) (req : LoginRequest)
    (conn sent got : Conn) (x : Error)
    → send codec (some (now + server_write)) login_header (some (login_request req)) conn
      ≡ (ok tt, sent)
    → receive codec none login_get_msg true pool sent ≡ (err x, got)
    → connect codec now server_write pool (inr conn) req ≡ (
      err (with_message x "login receive response error"),
      some (record { conn = got; unsent = []; is_login = false; hijacked = false }),
    )
unfolding connect login connected
connect-unanswered codec now server_write pool req conn sent got x out back =
    rw (out, back, connected) refl
